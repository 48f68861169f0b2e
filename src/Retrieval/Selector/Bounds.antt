-- ===== src/Retrieval/Selector/Bounds.antt =====
-- The limits of the selection (packages/retrieval/services.py).
use leanlm.Common.{
  ◌&&◌, ℕ, zero, suc, ◌+◌, ◌≤◌, String, ◌≡◌, refl, subst, true, Option, none, some, List, [], ◌∷◌,
  ◌++◌, arith, length, length-append, total, total-append, is_empty, str_eq, eq_iff, ◌⊎◌, inl, inr,
  Bool-cases, Option-cases, if◌then◌else◌,
}
use leanlm.Shared.Errors.{Option-ind}
use leanlm.Shared.Text.{Ratio}
use leanlm.Retrieval.Selector.{
  ScoredUnit, Selection, EvidenceSelector, count_of, bump, cost_of, is_eligible, improves,
  penalty_of, pick, choose, step, is_over, rounds, greedy_diverse_fit,
}

abbrev pub Choice : Type 0
Choice = ScoredUnit × Ratio

-- How many of the chosen items are of the document.
abbrev pub chosen_from : String → List Choice → ℕ
chosen_from d [] = 0
chosen_from d ((item, p) ∷ cs) =
    (if str_eq item.unit.document_id d then 1 else 0) + chosen_from d cs

chosen_from-append :
    (d : String) (cs ds : List Choice)
    → chosen_from d (cs ++ ds) ≡ chosen_from d cs + chosen_from d ds
chosen_from-append d [] ds = omega arith
chosen_from-append d ((item, p) ∷ cs) ds = omega (arith, chosen_from-append d cs ds)

count_of-bump :
    (d e : String) (m : List (String × ℕ))
    → count_of d (bump e m) ≡ (if str_eq e d then 1 else 0) + count_of d m
unfolding count_of bump
count_of-bump d e [] = ground arith
count_of-bump d e ((k, n) ∷ m) = elim (Bool-cases (str_eq k e)) [
  | inr other ↦ ground (arith, count_of-bump d e m, eq_iff k e, eq_iff k d, eq_iff e d)
  | inl same ↦ ground (arith, eq_iff k e, eq_iff k d, eq_iff e d)
]

is_empty-length : (cs : List Choice) → is_empty cs ≡ true → length cs ≡ 0
is_empty-length [] h = refl
is_empty-length (c ∷ cs) h = cc

module _ (s : EvidenceSelector) where
  abbrev pub tokens_of : List Choice → ℕ
  tokens_of cs = total (λ c. cost_of s c.0.unit) cs

  -- The books are right, and nothing is exceeded. A first passage may be longer than the budget.
  pub record IsWithin (st : Selection) : Type 0 where
    pub counted : (d : String) → count_of d st.per_document ≡ chosen_from d st.chosen
    pub summed : st.used_tokens ≡ tokens_of st.chosen
    pub passages : length st.chosen ≤ s.max_passages
    pub tokens : (tokens_of st.chosen ≤ s.max_tokens) ⊎ (length st.chosen ≤ 1)
    pub documents : (d : String) → chosen_from d st.chosen ≤ s.max_per_document

  pick-is_eligible :
      (st : Selection) (items : List ScoredUnit) (best : Option Choice) (x : ScoredUnit) (p : Ratio)
      → pick s st items best ≡ some (x, p)
      → (best ≡ some (x, p)) ⊎ (is_eligible s st x ≡ true)
  unfolding pick
  pick-is_eligible st [] best x p h = inl h
  pick-is_eligible st (i ∷ items) best x p h =
      let now = is_eligible s st i && improves s (i, penalty_of s st i) best in
      elim (pick-is_eligible st items (if now then some (i, penalty_of s st i) else best) x p h) [
        | inr fits ↦ inr fits
        | inl taken ↦ elim (Bool-cases now) [
          | inr passed ↦ inl (rw passed at taken)
          | inl better ↦
              let same : i ≡ x = cc (rw better at taken) in
              inr (subst (λ y. is_eligible s st y ≡ true) same (ground arith))
        ]
      ]

  is_eligible-fits :
      (st : Selection) (item : ScoredUnit)
      → is_eligible s st item ≡ true
      → (count_of item.unit.document_id st.per_document + 1 ≤ s.max_per_document)
        × ((st.used_tokens + cost_of s item.unit ≤ s.max_tokens) ⊎ (is_empty st.chosen ≡ true))
  unfolding is_eligible
  is_eligible-fits st item h = (ground arith, ground arith)

  documents_after :
      (item : ScoredUnit) (p : Ratio) (st : Selection) (w : IsWithin st) (d : String)
      → count_of item.unit.document_id st.per_document + 1 ≤ s.max_per_document
      → chosen_from d (st.chosen ++ (item, p) ∷ []) ≤ s.max_per_document
  documents_after item p st w d room =
      let grown = chosen_from-append d st.chosen ((item, p) ∷ []) in
      elim (Bool-cases (str_eq item.unit.document_id d)) [
        | inr other ↦ omega (arith, rw other at grown, w.documents d)
        | inl same ↦
            let here = (eq_iff item.unit.document_id d).0 same in
            let room' =
              subst (λ z. count_of z st.per_document + 1 ≤ s.max_per_document) here room in
            omega (arith, rw same at grown, w.counted d, room')
      ]

  choose-IsWithin :
      (item : ScoredUnit) (p : Ratio) (st : Selection)
      → IsWithin st
      → is_eligible s st item ≡ true
      → length st.chosen + 1 ≤ s.max_passages
      → IsWithin (choose s item p st)
  unfolding choose
  choose-IsWithin item p st w e room =
      let (doc, fit) = is_eligible-fits st item e in
      let more = length-append st.chosen ((item, p) ∷ []) in
      let sum = total-append (λ (c : Choice). cost_of s c.0.unit) st.chosen ((item, p) ∷ []) in
      record {
        counted = λ d. omega (
          arith,
          count_of-bump d item.unit.document_id st.per_document,
          w.counted d,
          chosen_from-append d st.chosen ((item, p) ∷ []),
        );
        summed = omega (arith, sum, w.summed);
        passages = omega (arith, more, room);
        tokens = elim fit [
          | inl le ↦ inl (omega (arith, sum, w.summed, le))
          | inr first ↦ inr (omega (arith, more, is_empty-length st.chosen first))
        ];
        documents = λ d. documents_after item p st w d doc;
      }

  step-IsWithin :
      (st st' : Selection)
      → IsWithin st
      → length st.chosen + 1 ≤ s.max_passages
      → step s st ≡ some st'
      → IsWithin st'
  unfolding step
  step-IsWithin st st' w room h = elim (Option-cases (pick s st st.remaining none)) [
    | inl nothing ↦ cc (rw (step, nothing) at h)
    | inr ((item, p), found) ↦
        let after : choose s item p st ≡ st' = cc (rw (step, found) at h) in
        elim (pick-is_eligible st st.remaining none item p found) [
          | inl absurdly ↦ cc absurdly
          | inr fits ↦ subst IsWithin after (choose-IsWithin item p st w fits room)
        ]
  ]

  rounds-IsWithin : (fuel : ℕ) (st : Selection) → IsWithin st → IsWithin (rounds s fuel st)
  unfolding rounds
  rounds-IsWithin zero st w = w
  rounds-IsWithin (suc fuel) st w = elim (Bool-cases (is_over s st)) [
    | inl over ↦ rw over w
    | inr goes ↦ rw goes (
        Option-ind IsWithin (step s st)
          (λ st' e. rounds-IsWithin fuel st' (step-IsWithin st st' w (ground arith) e)) (λ e. w))
  ]

-- The selection keeps to its bounds whatever the pool: never more passages than asked for, never
-- more of one document than the policy allows, and within the token budget, unless a single
-- passage, chosen first, is longer than the budget; the running counts it decides by are those of
-- the chosen passages.
pub greedy_diverse_fit-IsWithin :
    (s : EvidenceSelector) (pool : List ScoredUnit) → IsWithin s (greedy_diverse_fit s pool)
unfolding greedy_diverse_fit count_of
greedy_diverse_fit-IsWithin s pool = rounds-IsWithin s (length pool) _ (record {
  counted = λ d. refl;
  summed = refl;
  passages = omega arith;
  tokens = inl (omega arith);
  documents = λ d. omega arith;
})
