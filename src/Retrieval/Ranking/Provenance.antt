-- ===== src/Retrieval/Ranking/Provenance.antt =====
-- Where the evidence for a question comes from (packages/retrieval/services.py, `select`).
use leanlm.Common.{
  ℕ, zero, suc, ◌+◌, ◌≡◌, refl, ◌⊎◌, inl, inr, Bool, Option, List, [], ◌∷◌, ◌++◌, All, keep, length,
  is_empty, min, String, if-ind, if◌then◌else◌, arith,
}
use leanlm.Shared.Text.{Text, content_words, Ratio, ratio_ge, ratio_gt, ratio_mul}
use leanlm.Contracts.Dto.{SemanticUnit, SelectedEvidence, OptimizedContext, IntentClassification}
use leanlm.Retrieval.Index.{build_index, score}
use leanlm.Retrieval.Selector.{ScoredUnit}
use leanlm.Retrieval.Selector.Origin.{AllChosen, greedy_diverse_fit-AllChosen}
use leanlm.Retrieval.Ranking.{
  Retriever, insert, goes_before, sort_scored, scored_from, total_of, best_of, take_first, pool_of,
  is_off_topic, keywords_of, rank, limits, chosen_for, label, evidence_from, candidates_of, select,
}

module _ {κ} (P : ScoredUnit → Type κ) where
  keep-All : (p : ScoredUnit → Bool) (xs : List ScoredUnit) → All P xs → All P (keep p xs)
  keep-All p [] h = tt
  keep-All p (x ∷ xs) h =
      if-ind (All P) (p x) (λ _. (h.0, keep-All p xs h.1)) (λ _. keep-All p xs h.1)

  module _ (r : Retriever) where
    take_first-All : (n : ℕ) (xs : List ScoredUnit) → All P xs → All P (take_first r n xs)
    take_first-All zero xs h = tt
    take_first-All (suc n) [] h = tt
    take_first-All (suc n) (x ∷ xs) h = (h.0, take_first-All n xs h.1)

    insert-All : (x : ScoredUnit) (ys : List ScoredUnit) → P x → All P ys → All P (insert r x ys)
    unfolding insert
    insert-All x [] p h = (p, tt)
    insert-All x (y ∷ ys) p h =
        if-ind (All P) (goes_before r y x) (λ _. (h.0, insert-All x ys p h.1)) (λ _. (p, h))

    sort_scored-All : (xs : List ScoredUnit) → All P xs → All P (sort_scored r xs)
    sort_scored-All [] h = tt
    sort_scored-All (x ∷ xs) h = insert-All x (sort_scored r xs) h.0 (sort_scored-All xs h.1)

    pool_of-All : (xs : List ScoredUnit) → All P xs → All P (pool_of r xs)
    unfolding pool_of
    pool_of-All xs h =
        let best = best_of r xs in
        let relative = ratio_mul best r.policy.relative_score_floor in
        let floor = if ratio_gt relative r.policy.min_score then relative else r.policy.min_score in
        if-ind (All P) _ (λ _. take_first-All (min 3 (length xs)) xs h)
          (λ _.
            take_first-All r.policy.candidate_pool (keep (λ s. ratio_ge (total_of s) floor) xs)
              (keep-All (λ s. ratio_ge (total_of s) floor) xs h))

abbrev pub Among : SemanticUnit → List SemanticUnit → Type 0
Among u [] = ⊥
Among u (v ∷ vs) = (u ≡ v) ⊎ Among u vs

-- The passage quotes a unit of the list.
abbrev pub Quotes : List SemanticUnit → SelectedEvidence → Type 0
Quotes units e =
    (u : SemanticUnit) × Among u units
    × (e.unit_id ≡ u.unit_id)
    × (e.document_name ≡ u.document_name)
    × (e.section_path ≡ u.section_path)
    × (e.text ≡ u.text)
    × (e.token_estimate ≡ u.token_estimate)

-- The passages are labelled from `n` on.
abbrev pub AreLabelled : (ℕ → String) → ℕ → List SelectedEvidence → Type 0
AreLabelled label n [] = Unit
AreLabelled label n (e ∷ es) = (e.label ≡ label n) × AreLabelled label (n + 1) es

abbrev IsFrom : List SemanticUnit → ScoredUnit → Type 0
IsFrom units s = Among s.unit units

weaken :
    (v : SemanticUnit) (vs : List SemanticUnit) (xs : List ScoredUnit)
    → All (IsFrom vs) xs
    → All (IsFrom (v ∷ vs)) xs
weaken v vs [] h = tt
weaken v vs (x ∷ xs) h = (inr h.0, weaken v vs xs h.1)

module _ (r : Retriever) where
  scored_from-IsFrom :
      (question : Text) (terms : List Text) (i : ℕ) (units : List SemanticUnit) (ss : List Ratio)
      → All (IsFrom units) (scored_from r question terms i units ss)
  scored_from-IsFrom question terms i [] ss = tt
  scored_from-IsFrom question terms i (u ∷ us) [] = tt
  scored_from-IsFrom question terms i (u ∷ us) (s ∷ ss) =
      (inl refl, weaken u us _ (scored_from-IsFrom question terms (i + 1) us ss))

  evidence_from-Quotes :
      (n : ℕ) (units : List SemanticUnit) (chosen : List (ScoredUnit × Ratio))
      → AllChosen (IsFrom units) chosen
      → All (Quotes units) (evidence_from r n chosen)
  evidence_from-Quotes n units [] h = tt
  evidence_from-Quotes n units (c ∷ cs) h =
      ((c.0.unit, h.0, refl, refl, refl, refl, refl), evidence_from-Quotes (n + 1) units cs h.1)

  evidence_from-AreLabelled :
      (n : ℕ) (chosen : List (ScoredUnit × Ratio))
      → AreLabelled (label r) n (evidence_from r n chosen)
  evidence_from-AreLabelled n [] = tt
  evidence_from-AreLabelled n (c ∷ cs) = (refl, evidence_from-AreLabelled (n + 1) cs)

  candidates-length :
      (n : ℕ) (chosen : List (ScoredUnit × Ratio))
      → length (candidates_of r chosen) ≡ length (evidence_from r n chosen)
  candidates-length n [] = refl
  candidates-length n (c ∷ cs) = omega (arith, candidates-length (n + 1) cs)

  chosen_for-IsFrom :
      (question : Text) (o : OptimizedContext) (intent : Option IntentClassification)
      → AllChosen (IsFrom o.units) (chosen_for r question o intent)
  unfolding chosen_for rank
  chosen_for-IsFrom question o intent =
      let query_terms = content_words r.lib question ++ keywords_of r intent in
      let index = build_index r.lib o.units in
      let scores = score r.policy r.log index query_terms in
      let scored = scored_from r question query_terms 0 o.units scores in
      let from = scored_from-IsFrom question query_terms 0 o.units scores in
      let sorted = sort_scored r scored in
      let off = is_off_topic r (content_words r.lib question) index in
      if-ind (AllChosen (IsFrom o.units)) (is_empty o.units) (λ _. tt)
        (λ _.
          if-ind (AllChosen (IsFrom o.units)) off (λ _. tt)
            (λ _.
              greedy_diverse_fit-AllChosen (IsFrom o.units) (limits r o.budget) (pool_of r sorted) (
                pool_of-All (IsFrom o.units) r sorted
                  (sort_scored-All (IsFrom o.units) r scored from))))

  -- The selection makes nothing up: every passage quotes a unit of the optimized context, in its
  -- identifier, document, section, text and estimate; the passages are labelled from 1 on in the
  -- order of choice, and there is one candidate for each.
  pub select-IsDrawn :
      (question : Text) (o : OptimizedContext) (intent : Option IntentClassification)
      → let found = select r question o intent in
        All (Quotes o.units) found.0
        × AreLabelled (label r) 1 found.0
        × (length found.1 ≡ length found.0)
  unfolding select
  select-IsDrawn question o intent =
      let chosen = chosen_for r question o intent in
      (
        evidence_from-Quotes 1 o.units chosen (chosen_for-IsFrom question o intent),
        evidence_from-AreLabelled 1 chosen,
        candidates-length 1 chosen,
      )
