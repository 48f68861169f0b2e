-- ===== src/Retrieval/Selector/Exhaustion.antt =====
-- The end of the selection (packages/retrieval/services.py): the loop, its fuel and what is left.
use leanlm.Common.{
  ℕ, zero, suc, ◌+◌, ◌≤◌, ◌≡◌, ◌==◌, ◌++◌, map, refl, ap, ◌∙◌, sym, subst, true, false, ◌&&◌,
  Option, none, some, List, [], ◌∷◌, arith, length, length-append, any, is_empty, ◌⊎◌, inl, inr,
  Bool-cases, Option-cases, if◌then◌else◌, All,
}
use leanlm.Shared.Errors.{Option-ind}
use leanlm.Shared.Text.{Ratio}
use leanlm.Retrieval.Selector.{
  ScoredUnit, Selection, EvidenceSelector, same_item, remove, is_eligible, improves, penalty_of,
  pick, choose, step, is_over, rounds, greedy_diverse_fit,
}

same_item_refl : (x : ScoredUnit) → same_item x x ≡ true
unfolding same_item
same_item_refl x = ground arith

remove-length :
    (x : ScoredUnit) (items : List ScoredUnit)
    → any (same_item x) items ≡ true
    → length (remove x items) + 1 ≡ length items
unfolding remove
remove-length x [] h = cc
remove-length x (y ∷ items) h = elim (Bool-cases (same_item x y)) [
  | inl same ↦ rw same (omega arith)
  | inr other ↦ rw other (omega (arith, remove-length x items (rw other at h)))
]

-- How often items with this index are in the list.
unfoldable pub times : ℕ → List ScoredUnit → ℕ
times n [] = 0
times n (x ∷ xs) = let rest = times n xs in if x.index == n then rest + 1 else rest

same_item-index : (x y : ScoredUnit) → same_item x y ≡ true → x.index ≡ y.index
unfolding same_item
same_item-index x y h = ground (arith, h)

times-swap :
    (n : ℕ) (x y : ScoredUnit) (less items : List ScoredUnit)
    → times n (x ∷ less) ≡ times n items
    → times n (x ∷ y ∷ less) ≡ times n (y ∷ items)
unfolding times
times-swap n x y less items e = ground (arith, e)

remove-times :
    (n : ℕ) (x : ScoredUnit) (items : List ScoredUnit)
    → any (same_item x) items ≡ true
    → times n (x ∷ remove x items) ≡ times n items
unfolding remove times
remove-times n x [] h = cc h
remove-times n x (y ∷ items) h = elim (Bool-cases (same_item x y)) [
  | inl same ↦ rw (same, same_item-index x y same) refl
  | inr other ↦
      rw other (times-swap n x y (remove x items) items (remove-times n x items (rw other at h)))
]

-- The items of the chosen pairs.
abbrev pub items_of : List (ScoredUnit × Ratio) → List ScoredUnit
items_of chosen = map (λ c. c.0) chosen

times-chosen :
    (n : ℕ) (chosen : List (ScoredUnit × Ratio)) (x : ScoredUnit) (p : Ratio)
    (rest : List ScoredUnit)
    → times n (items_of (chosen ++ (x, p) ∷ [])) + times n rest
      ≡ times n (items_of chosen) + times n (x ∷ rest)
unfolding times
times-chosen n [] x p rest = ground arith
times-chosen n (c ∷ chosen) x p rest = ground (arith, times-chosen n chosen x p rest)

length-is_empty : (items : List ScoredUnit) → length items ≤ 0 → is_empty items ≡ true
length-is_empty [] h = refl
length-is_empty (x ∷ items) h = absurd (omega arith)

module _ (s : EvidenceSelector) where
  -- What is picked is the best so far or one of the items.
  pick-any :
      (st : Selection) (items : List ScoredUnit) (best : Option (ScoredUnit × Ratio))
      (x : ScoredUnit) (p : Ratio)
      → pick s st items best ≡ some (x, p)
      → (best ≡ some (x, p)) ⊎ (any (same_item x) items ≡ true)
  unfolding pick
  pick-any st [] best x p h = inl h
  pick-any st (i ∷ items) best x p h =
      let now = is_eligible s st i && improves s (i, penalty_of s st i) best in
      elim (pick-any st items (if now then some (i, penalty_of s st i) else best) x p h) [
        | inr found ↦ inr (ground arith)
        | inl taken ↦ elim (Bool-cases now) [
          | inr passed ↦ inl (rw passed at taken)
          | inl better ↦
              let same : i ≡ x = cc (rw better at taken) in
              let here : same_item x i ≡ true =
                subst (λ y. same_item x y ≡ true) (sym same) (same_item_refl x) in
              inr (ground arith)
        ]
      ]

  pick-some :
      (st : Selection) (items : List ScoredUnit) (b : ScoredUnit × Ratio)
      → (c : ScoredUnit × Ratio) × (pick s st items (some b) ≡ some c)
  unfolding pick
  pick-some st [] b = (b, refl)
  pick-some st (i ∷ items) b =
      elim (Bool-cases (is_eligible s st i && improves s (i, penalty_of s st i) (some b))) [
        | inl better ↦ rw better (pick-some st items (i, penalty_of s st i))
        | inr worse ↦ rw worse (pick-some st items b)
      ]

  -- When nothing is picked, no item passes the tests.
  pick-none :
      (st : Selection) (items : List ScoredUnit)
      → pick s st items none ≡ none
      → All (λ i. is_eligible s st i ≡ false) items
  unfolding pick improves
  pick-none st [] h = tt
  pick-none st (i ∷ items) h = elim (Bool-cases (is_eligible s st i)) [
    | inr barred ↦ (barred, pick-none st items (rw barred at h))
    | inl fits ↦
        let (c, found) = pick-some st items (i, penalty_of s st i) in
        absurd (cc (rw fits at h, found))
  ]

  -- The loop has ended as the source's does: nothing is left, the number of passages is reached,
  -- or nothing that is left passes the tests.
  abbrev pub IsExhausted : Selection → Type 0
  IsExhausted st = (is_over s st ≡ true) ⊎ All (λ i. is_eligible s st i ≡ false) st.remaining

  step-length :
      (st st' : Selection)
      → step s st ≡ some st'
      → (length st'.remaining + 1 ≡ length st.remaining)
        × (length st'.chosen ≡ length st.chosen + 1)
  unfolding step choose
  step-length st st' h = elim (Option-cases (pick s st st.remaining none)) [
    | inl nothing ↦ absurd (cc (rw (step, nothing) at h))
    | inr ((item, p), found) ↦
        let after : choose s item p st ≡ st' = cc (rw (step, found) at h) in
        elim (pick-any st st.remaining none item p found) [
          | inl absurdly ↦ absurd (cc absurdly)
          | inr there ↦
              subst
                (λ (x : Selection).
                  (length x.remaining + 1 ≡ length st.remaining)
                  × (length x.chosen ≡ length st.chosen + 1))
                after
                (remove-length item st.remaining there, length-append st.chosen ((item, p) ∷ []))
        ]
  ]

  step-none :
      (st : Selection) → step s st ≡ none → All (λ i. is_eligible s st i ≡ false) st.remaining
  unfolding step
  step-none st h = elim (Option-cases (pick s st st.remaining none)) [
    | inl nothing ↦ pick-none st st.remaining nothing
    | inr ((item, p), found) ↦ absurd (cc (rw (step, found) at h))
  ]

  step-times :
      (n : ℕ) (st st' : Selection)
      → step s st ≡ some st'
      → times n (items_of st'.chosen) + times n st'.remaining
        ≡ times n (items_of st.chosen) + times n st.remaining
  unfolding step choose
  step-times n st st' h = elim (Option-cases (pick s st st.remaining none)) [
    | inl nothing ↦ absurd (cc (rw (step, nothing) at h))
    | inr ((item, p), found) ↦
        let after : choose s item p st ≡ st' = cc (rw (step, found) at h) in
        elim (pick-any st st.remaining none item p found) [
          | inl absurdly ↦ absurd (cc absurdly)
          | inr there ↦
              subst
                (λ (x : Selection).
                  times n (items_of x.chosen) + times n x.remaining
                  ≡ times n (items_of st.chosen) + times n st.remaining)
                after
                (times-chosen n st.chosen item p (remove item st.remaining)
                  ∙ ap (λ k. times n (items_of st.chosen) + k)
                      (remove-times n item st.remaining there))
        ]
  ]

  -- The loop is over, with so many items, and so many of the index, in both lists.
  abbrev Ends : ℕ → ℕ → ℕ → Selection → Type 0
  Ends n total size st =
      IsExhausted st
      × (times n (items_of st.chosen) + times n st.remaining ≡ total)
      × (length st.chosen + length st.remaining ≡ size)

  rounds-Ends :
      (fuel : ℕ) (st : Selection) (n total size : ℕ)
      → length st.remaining ≤ fuel
      → times n (items_of st.chosen) + times n st.remaining ≡ total
      → length st.chosen + length st.remaining ≡ size
      → Ends n total size (rounds s fuel st)
  unfolding rounds
  rounds-Ends zero st n total size enough e f =
      (inl (ground (arith, length-is_empty st.remaining enough)), e, f)
  rounds-Ends (suc fuel) st n total size enough e f = elim (Bool-cases (is_over s st)) [
    | inl over ↦ rw over (inl over, e, f)
    | inr goes ↦ rw goes (
        Option-ind (Ends n total size) (step s st)
          (λ st' h.
            let (left, more) = step-length st st' h in
            rounds-Ends fuel st' n total size (omega (arith, left, enough))
              (step-times n st st' h ∙ e) (omega (arith, left, more, f)))
          (λ h. (inr (step-none st h), e, f)))
  ]

-- The selection ends by itself, for any pool: no item is left, or the number of passages is
-- reached, or none of the items that are left fits its document's share and the token budget. No
-- item is lost or chosen twice: the chosen and the remaining items together are as many as the pool
-- has, and have each index as often as the pool has it.
pub greedy_diverse_fit-IsExhausted :
    (s : EvidenceSelector) (pool : List ScoredUnit) (n : ℕ)
    → let st = greedy_diverse_fit s pool in
      IsExhausted s st
      × (times n (items_of st.chosen) + times n st.remaining ≡ times n pool)
      × (length st.chosen + length st.remaining ≡ length pool)
unfolding greedy_diverse_fit times
greedy_diverse_fit-IsExhausted s pool n =
    rounds-Ends s (length pool) _ n (times n pool) (length pool) (omega arith) (omega arith)
      (omega arith)
