-- ===== src/Retrieval/Selector/Origin.antt =====
-- Where the chosen items come from (packages/retrieval/services.py, `_greedy_diverse_fit`).
use leanlm.Common.{
  ℕ, zero, suc, subst, Option, none, some, List, [], ◌∷◌, length, All, All-append, ◌&&◌, if-ind,
  if◌then◌else◌,
}
use leanlm.Shared.Errors.{Option-ind}
use leanlm.Shared.Text.{Ratio}
use leanlm.Retrieval.Selector.{
  ScoredUnit, Selection, EvidenceSelector, same_item, remove, is_eligible, improves, penalty_of,
  pick, choose, step, is_over, rounds, greedy_diverse_fit,
}

module _ {κ} (P : ScoredUnit → Type κ) where
  remove-All : (x : ScoredUnit) (ys : List ScoredUnit) → All P ys → All P (remove x ys)
  unfolding remove
  remove-All x [] h = h
  remove-All x (y ∷ ys) h =
      if-ind (All P) (same_item x y) (λ _. h.1) (λ _. (h.0, remove-All x ys h.1))

  abbrev Holds : Option (ScoredUnit × Ratio) → Type κ
  Holds none = Unit
  Holds (some c) = P c.0

  abbrev pub AllChosen : List (ScoredUnit × Ratio) → Type κ
  AllChosen cs = All (λ (c : ScoredUnit × Ratio). P c.0) cs

  module _ (s : EvidenceSelector) where
    pick-Holds :
        (st : Selection) (items : List ScoredUnit) (best : Option (ScoredUnit × Ratio))
        → All P items
        → Holds best
        → Holds (pick s st items best)
    unfolding pick
    pick-Holds st [] best h b = b
    pick-Holds st (item ∷ items) best h b =
        let now = is_eligible s st item && improves s (item, penalty_of s st item) best in
        pick-Holds st items (if now then some (item, penalty_of s st item) else best) h.1
          (if-ind Holds now (λ _. h.0) (λ _. b))

    abbrev AllIn : Selection → Type κ
    AllIn st = All P st.remaining × AllChosen st.chosen

    choose-AllIn :
        (item : ScoredUnit) (p : Ratio) (st : Selection)
        → AllIn st
        → P item
        → AllIn (choose s item p st)
    unfolding choose
    choose-AllIn item p st h x = (
      remove-All item st.remaining h.0,
      All-append (λ (c : ScoredUnit × Ratio). P c.0) st.chosen ((item, p) ∷ []) h.1 (x, tt),
    )

    abbrev Stepped : Option Selection → Type κ
    Stepped none = Unit
    Stepped (some st) = AllIn st

    step-Stepped : (st : Selection) → AllIn st → Stepped (step s st)
    unfolding step
    step-Stepped st h =
        let kept = pick-Holds st st.remaining none h.0 tt in
        Option-ind Stepped (pick s st st.remaining none)
          (λ c e. choose-AllIn c.0 c.1 st h (subst Holds e kept)) (λ _. tt)

    rounds-AllIn : (fuel : ℕ) (st : Selection) → AllIn st → AllIn (rounds s fuel st)
    unfolding rounds
    rounds-AllIn zero st h = h
    rounds-AllIn (suc fuel) st h =
        let next = step-Stepped st h in
        if-ind AllIn (is_over s st) (λ _. h)
          (λ _.
            Option-ind AllIn (step s st) (λ st' e. rounds-AllIn fuel st' (subst Stepped e next))
              (λ _. h))

    -- What holds of every item of the pool holds of every chosen item.
    pub greedy_diverse_fit-AllChosen :
        (pool : List ScoredUnit) → All P pool → AllChosen (greedy_diverse_fit s pool).chosen
    unfolding greedy_diverse_fit
    greedy_diverse_fit-AllChosen pool h = (rounds-AllIn (length pool) _ (h, tt)).1
