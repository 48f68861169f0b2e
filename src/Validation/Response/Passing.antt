-- ===== src/Validation/Response/Passing.antt =====
-- When a response passes the validation (packages/validation/services.py).
use leanlm.Common.{
  ℕ, ◌≤◌, ◌≡◌, refl, sym, ap, ◌∙◌, subst, str_eq, eq_iff, ltb, String, Bool, true, false, not, ◌&&◌,
  ◌||◌, ◌↔◌, List, [], ◌∷◌, keep, is_empty, All, arith, Bool-cases, inl, inr, if◌then◌else◌, length,
  leb, all,
}
use leanlm.Shared.Text.{Text, Ratio, ratio_ge, to_set}
use leanlm.Contracts.Dto.{SelectedEvidence, ModelResponse, insufficient}
use leanlm.Validation.Response.{
  ResponseValidator, SentenceVerdict, insufficient_markers, has_marker, is_label, zero_ratio,
  validate, measure, passed_of, checks_of, confidence_for, ground_answer,
}

-- What `sorted` is known to do: the same elements come out.
abbrev pub SortsWell : ResponseValidator → Type 0
SortsWell v = (p : String → Bool) (xs : List String) → all p (v.sorted xs) ≡ all p xs

-- Every citation that stands in the answer is the label of a passage.
abbrev pub AreKnown : List SelectedEvidence → List String → Type 0
AreKnown evidence cited = All (λ label. is_label evidence label ≡ true) cited

leb-true : (a b : ℕ) → a ≤ b → leb a b ≡ true
leb-true a b h = ground (arith, h)

le_of_leb : (a b : ℕ) → leb a b ≡ true → a ≤ b
le_of_leb a b h = ground (arith, h)

all-true : (p : String → Bool) (xs : List String) → all p xs ≡ true → All (λ x. p x ≡ true) xs
all-true p [] h = tt
all-true p (x ∷ xs) h = elim (Bool-cases (p x)) [
  | inl good ↦ (good, all-true p xs (rw good at h))
  | inr bad ↦ absurd (cc (rw bad at h))
]

all_of : (p : String → Bool) (xs : List String) → All (λ x. p x ≡ true) xs → all p xs ≡ true
all_of p [] h = refl
all_of p (x ∷ xs) h = rw h.0 (all_of p xs h.1)

none_left : (p : String → Bool) (xs : List String) → is_empty (keep (λ x. not (p x)) xs) ≡ all p xs
none_left p [] = refl
none_left p (x ∷ xs) = elim (Bool-cases (p x)) [
  | inl good ↦ rw good (none_left p xs)
  | inr bad ↦ rw bad refl
]

is_empty-all : (xs : List String) → is_empty xs ≡ all (λ x. false) xs
is_empty-all [] = refl
is_empty-all (x ∷ xs) = refl

-- Leaving out the further occurrences of an element that passes changes nothing.
all-without :
    (p : String → Bool) (x : String) (ys : List String)
    → p x ≡ true
    → all p (keep (λ y. not (str_eq x y)) ys) ≡ all p ys
all-without p x [] good = refl
all-without p x (y ∷ ys) good = elim (Bool-cases (str_eq x y)) [
  | inr other ↦ rw other (ap (λ b. p y && b) (all-without p x ys good))
  | inl same ↦
      let here : p y ≡ true = subst (λ z. p z ≡ true) ((eq_iff x y).0 same) good in
      rw (same, here) (all-without p x ys good)
]

all-to_set : (p : String → Bool) (xs : List String) → all p (to_set str_eq xs) ≡ all p xs
unfolding to_set
all-to_set p [] = refl
all-to_set p (x ∷ xs) = elim (Bool-cases (p x)) [
  | inr bad ↦ rw bad refl
  | inl good ↦ rw good (all-without p x (to_set str_eq xs) good ∙ all-to_set p xs)
]

-- The cited labels of the report are the citations of the answer.
all-cited :
    (v : ResponseValidator)
    → SortsWell v
    → (p : String → Bool) (found : List String)
    → all p (v.sorted (to_set str_eq found)) ≡ all p found
all-cited v sorts p found = sorts p (to_set str_eq found) ∙ all-to_set p found

-- The part of the sentences of an answer that are grounded; 0 where there are none.
abbrev pub grounded_share : ResponseValidator → Text → List SelectedEvidence → Ratio
grounded_share v answer evidence =
    let verdicts = ground_answer v answer evidence in
    if ltb 0 (length verdicts)
    then v.round (record {
      num = length (keep (λ (s : SentenceVerdict). s.is_grounded) verdicts);
      den = length verdicts;
    })
    else zero_ratio

-- What a response that passes has, with evidence at hand.
pub record IsAcceptable (v : ResponseValidator) (answer : Text) (evidence : List SelectedEvidence)
    : Type 0 where
  pub answered : v.policy.min_answer_chars ≤ length answer
  pub known : AreKnown evidence (v.find_citations answer)
  pub grounded :
      ratio_ge (grounded_share v answer evidence) v.policy.grounding_pass_threshold ≡ true
  pub cites :
      (not v.policy.require_citations
        || (not (is_empty (v.find_citations answer))
            || has_marker insufficient_markers (v.lib.lower answer)))
      ≡ true

-- The four checks, each as it is.
all_checks :
    (long valid grounded required cites : Bool)
    → (all
          (λ (check : String × Bool). check.1)
          (("non_empty", long)
            ∷ ("citations_valid", valid)
            ∷ ("grounded", grounded)
            ∷ (if required then ("has_citations", cites) ∷ [] else []))
        ≡ true)
      ↔ ((long ≡ true) × (valid ≡ true) × (grounded ≡ true) × ((not required || cites) ≡ true))
all_checks true true true true true = (λ _. (refl, refl, refl, refl), λ _. refl)
all_checks true true true true false = (λ h. cc h, λ h. cc (h.3))
all_checks true true true false cites = (λ _. (refl, refl, refl, refl), λ _. refl)
all_checks true true false required cites = (λ h. cc h, λ h. cc (h.2))
all_checks true false grounded required cites = (λ h. cc h, λ h. cc (h.1))
all_checks false valid grounded required cites = (λ h. cc h, λ h. cc (h.0))

-- With evidence at hand, a response passes exactly when its text, without the white space around it,
-- is long enough, each citation that is found in it is the label of a passage of the evidence, the
-- rounded part of its sentences that are grounded reaches the threshold, and, where citations are
-- required, it has one or declares that the corpus does not suffice; this is so when sorting keeps
-- the elements.
pub validate-IsAcceptable :
    (v : ResponseValidator) (response : ModelResponse) (e : SelectedEvidence)
    (es : List SelectedEvidence) (question : Text)
    → SortsWell v
    → ((validate v response (e ∷ es) question).passed ≡ true)
      ↔ IsAcceptable v (v.lib.strip response.text) (e ∷ es)
unfolding validate measure passed_of checks_of
validate-IsAcceptable v response e es question sorts =
    let m = measure v response.text (e ∷ es) question in
    let answer = v.lib.strip response.text in
    let found = v.find_citations answer in
    let checks =
      all_checks (leb v.policy.min_answer_chars (length m.answer)) (is_empty m.invalid)
        (ratio_ge m.grounding_rate v.policy.grounding_pass_threshold) v.policy.require_citations
        (not (is_empty m.cited) || m.declared) in
    let valid : is_empty m.invalid ≡ all (is_label (e ∷ es)) found =
      none_left (is_label (e ∷ es)) m.cited ∙ all-cited v sorts (is_label (e ∷ es)) found in
    let some_cited : is_empty m.cited ≡ is_empty found =
      is_empty-all m.cited ∙ all-cited v sorts (λ x. false) found ∙ sym (is_empty-all found) in
    let same = ap (λ b. not v.policy.require_citations || (not b || m.declared)) some_cited in
    (
      λ h. record {
        answered = le_of_leb _ _ (checks.0 h).0;
        known = all-true (is_label (e ∷ es)) found (sym valid ∙ (checks.0 h).1);
        grounded = (checks.0 h).2;
        cites = sym same ∙ (checks.0 h).3;
      },
      λ h. checks.1 (
        leb-true _ _ h.answered,
        valid ∙ all_of (is_label (e ∷ es)) found h.known,
        h.grounded,
        same ∙ h.cites,
      ),
    )

no_verdicts : (v : ResponseValidator) (answer : Text) → ground_answer v answer [] ≡ []
unfolding ground_answer
no_verdicts v [] = refl
no_verdicts v (c ∷ cs) = refl

unjudged_rate :
    (v : ResponseValidator) (response : ModelResponse) (question : Text)
    → (validate v response [] question).grounding_rate ≡ zero_ratio
unfolding validate measure
unjudged_rate v response question = rw (no_verdicts v (v.lib.strip response.text)) refl

unjudged_sentences :
    (v : ResponseValidator) (response : ModelResponse) (question : Text)
    → (validate v response [] question).unsupported_sentences ≡ []
unfolding validate measure
unjudged_sentences v response question = rw (no_verdicts v (v.lib.strip response.text)) refl

-- Without evidence, the confidence is insufficient, nothing counts as grounded, and the response
-- passes exactly when it declares that the corpus does not suffice.
validate-unsourced :
    (v : ResponseValidator) (response : ModelResponse) (question : Text)
    → let report = validate v response [] question in
      (report.passed ≡ report.uncertainty_declared)
      × (report.confidence ≡ insufficient)
      × (report.grounding_rate ≡ zero_ratio)
      × (report.evidence_coverage ≡ zero_ratio)
      × (report.unsupported_sentences ≡ [])
unfolding validate confidence_for passed_of measure
validate-unsourced v response question =
    (refl, refl, unjudged_rate v response question, refl, unjudged_sentences v response question)
