-- ===== src/Validation/Response/Grounding.antt =====
-- The sentences that the validator (packages/validation/services.py) counts as grounded.
use mathlib.Core.List.{Memᴰ}
use leanlm.Common.{
  keep, All-keep, ◌<◌, ◌≡◌, refl, String, str_eq, Bool, true, false, not, ◌&&◌, ◌||◌, inl, inr,
  List, [], ◌∷◌, any, is_empty, All, arith, Bool-cases, if-ind, length, ltb,
}
use leanlm.Shared.Text.{Text, Gram, shingles, content_words, sentences, Ratio, ratio_ge, ratio_gt}
use leanlm.Contracts.Dto.{SelectedEvidence}
use leanlm.Validation.Response.{
  ResponseValidator, SentenceVerdict, zero_ratio, put_grams, overlap_with, best_match, grams_of,
  evidence_grams, judge, verdicts_of, ground_answer,
}

module _ (v : ResponseValidator) where
  -- A passage has the threshold's part of the sentence's grams.
  abbrev pub supports : Text → SelectedEvidence → Bool
  supports sentence e =
      ratio_ge (overlap_with (shingles v.lib sentence v.policy.shingle_size) (grams_of v e))
        v.policy.sentence_grounding_threshold

  -- A verdict of one of the sentences, not too short, that a passage supports.
  abbrev pub HasSupport : List Text → List SelectedEvidence → SentenceVerdict → Type 0
  HasSupport spoken evidence verdict =
      (sentence : Text) × Memᴰ sentence spoken
      × (verdict.text ≡ v.lib.strip sentence)
      × (ltb (length (content_words v.lib sentence)) 3 ≡ false)
      × (any (supports sentence) evidence ≡ true)

module _ (P : List Gram → Bool) where
  abbrev over : (String × List Gram) → Bool
  over entry = P entry.1

  any-put_grams :
      (label : String) (grams : List Gram) (m : List (String × List Gram))
      → any over (put_grams label grams m) ≡ true
      → (P grams || any over m) ≡ true
  any-put_grams label grams [] h = h
  any-put_grams label grams ((k, g) ∷ m) h =
      if-ind (λ l. any over l ≡ true → (P grams || (P g || any over m)) ≡ true) (str_eq k label)
        (λ _ at_k. ground (arith, at_k))
        (λ _ later. elim (Bool-cases (P g)) [
          | inl found ↦ ground (arith, found)
          | inr missing ↦
              let rest : any over (put_grams label grams m) ≡ true =
                ground (arith, later, missing) in
              ground (arith, any-put_grams label grams m rest)
        ])
        h

  any-evidence_grams :
      (v : ResponseValidator) (m : List (String × List Gram)) (es : List SelectedEvidence)
      → any over (evidence_grams v m es) ≡ true
      → (any over m || any (λ e. P (grams_of v e)) es) ≡ true
  any-evidence_grams v m [] h = ground (arith, h)
  any-evidence_grams v m (e ∷ es) h =
      let before = any-evidence_grams v (put_grams e.label (grams_of v e) m) es h in
      elim (Bool-cases (any over (put_grams e.label (grams_of v e) m))) [
        | inl found ↦ ground (arith, any-put_grams e.label (grams_of v e) m found)
        | inr missing ↦ ground (arith, before, missing)
      ]

or_skip : (a b c : Bool) → (a || c) ≡ true → (a || (b || c)) ≡ true
or_skip true b c h = refl
or_skip false true c h = refl
or_skip false false c h = h

or_late : (a b : Bool) → b ≡ true → (a || b) ≡ true
or_late true b h = refl
or_late false b h = h

-- The best match is the one it began with, or a passage's.
best_match_found :
    (grams : List Gram) (m : List (String × List Gram)) (best : String × Ratio) (threshold : Ratio)
    → ratio_ge (best_match grams m best).1 threshold ≡ true
    → (ratio_ge best.1 threshold
        || any (over (λ reference. ratio_ge (overlap_with grams reference) threshold)) m)
      ≡ true
best_match_found grams [] best threshold h = ground (arith, h)
best_match_found grams ((label, reference) ∷ m) best threshold h =
    let reaches = λ (g : List Gram). ratio_ge (overlap_with grams g) threshold in
    let overlap = overlap_with grams reference in
    if-ind
      (λ (b : String × Ratio).
        ratio_ge (best_match grams m b).1 threshold ≡ true
        → (ratio_ge best.1 threshold || (reaches reference || any (over reaches) m)) ≡ true)
      (not (is_empty grams) && ratio_gt overlap best.1)
      (λ _ later.
        or_late (ratio_ge best.1 threshold) (reaches reference || any (over reaches) m)
          (best_match_found grams m (label, overlap) threshold later))
      (λ _ later.
        or_skip (ratio_ge best.1 threshold) (reaches reference) (any (over reaches) m)
          (best_match_found grams m best threshold later))
      h

-- Not even the smallest positive threshold is reached by an overlap of nothing.
nothing_reached : (threshold : Ratio) → 0 < threshold.num → ratio_ge zero_ratio threshold ≡ false
nothing_reached threshold positive = ground (arith, positive)

module _ (v : ResponseValidator) (positive : 0 < v.policy.sentence_grounding_threshold.num) where
  -- What a verdict says of the sentence it was made of.
  abbrev IsSupported : List SelectedEvidence → Text → SentenceVerdict → Type 0
  IsSupported evidence sentence verdict =
      verdict.is_grounded ≡ true → any (supports v sentence) evidence ≡ true

  judge-IsSupported :
      (evidence : List SelectedEvidence) (sentence : Text)
      → IsSupported evidence sentence (judge v (evidence_grams v [] evidence) sentence)
  unfolding judge
  judge-IsSupported evidence sentence h =
      let threshold = v.policy.sentence_grounding_threshold in
      let grams = shingles v.lib sentence v.policy.shingle_size in
      let reaches = λ (g : List Gram). ratio_ge (overlap_with grams g) threshold in
      let found =
        best_match_found grams (evidence_grams v [] evidence) ("", zero_ratio) threshold h in
      any-evidence_grams reaches v [] evidence (rw (nothing_reached threshold positive) at found)

  verdicts_of-HasSupport :
      (evidence : List SelectedEvidence) (spoken ss : List Text)
      → ((x : Text) → Memᴰ x ss → Memᴰ x spoken)
      → All
          (λ s. s.is_grounded ≡ true → HasSupport v spoken evidence s)
          (verdicts_of v (evidence_grams v [] evidence) ss)
  unfolding judge
  verdicts_of-HasSupport evidence spoken [] among = tt
  verdicts_of-HasSupport evidence spoken (sentence ∷ ss) among =
      let rest = verdicts_of-HasSupport evidence spoken ss (λ x m. among x (Memᴰ.tail m)) in
      if-ind (All (λ s. s.is_grounded ≡ true → HasSupport v spoken evidence s))
        (ltb (length (content_words v.lib sentence)) 3) (λ _. rest)
        (λ long. (
          λ grounded. (
            sentence,
            among sentence (Memᴰ.head refl),
            refl,
            long,
            judge-IsSupported evidence sentence grounded,
          ),
          rest,
        ))

-- With a positive threshold, each verdict that counts as grounded is that of a sentence of the
-- answer, without its citations, that has three words or more, and a passage of the evidence has at
-- least the threshold's part of the sentence's n-grams, whatever labels the passages carry.
pub ground_answer-HasSupport :
    (v : ResponseValidator) (answer : Text) (evidence : List SelectedEvidence)
    → 0 < v.policy.sentence_grounding_threshold.num
    → All
        (HasSupport v (sentences v.lib (v.remove_citations answer)) evidence)
        (keep (λ s. s.is_grounded) (ground_answer v answer evidence))
unfolding ground_answer
ground_answer-HasSupport v answer evidence positive =
    let spoken = sentences v.lib (v.remove_citations answer) in
    All-keep (HasSupport v spoken evidence) _ (ground_answer v answer evidence) (
      if-ind (All (λ s. s.is_grounded ≡ true → HasSupport v spoken evidence s))
        (is_empty answer || is_empty evidence) (λ _. tt)
        (λ _. verdicts_of-HasSupport v positive evidence spoken spoken (λ x m. m)))
