-- ===== src/Validation/Response.antt =====
-- The validator of responses (packages/validation/services.py, policies.py). The citation pattern,
-- `sorted`, the rounding to four decimals and the formatting of a number are parameters.
pub mod Grounding
pub mod Passing
use leanlm.Common.{
  ℕ, leb, ltb, String, str_append, str_eq, Bool, true, false, not, ◌&&◌, ◌||◌, Option, none, some,
  List, [], ◌∷◌, ◌++◌, map, any, all, keep, length, is_empty, if◌then◌else◌,
}
use leanlm.Shared.Text.{
  contains, Text, codes, TextLibrary, starts_with, same_text, content_words, sentences, shingles,
  Gram, same_gram, to_set, intersection, Ratio, ratio_ge, ratio_gt, take_words,
}
use leanlm.Contracts.Dto.{
  SelectedEvidence, ModelResponse, ValidationReport, ConfidenceLevel, high, medium, low,
  insufficient,
}

pub record ValidationPolicy : Type 0 where
  pub sentence_grounding_threshold : Ratio
  pub grounding_pass_threshold : Ratio
  pub min_answer_chars : ℕ
  pub require_citations : Bool
  pub high_confidence_grounding : Ratio
  pub medium_confidence_grounding : Ratio
  pub shingle_size : ℕ

pub record SentenceVerdict : Type 0 where
  pub text : Text
  pub is_grounded : Bool
  pub overlap : Ratio
  pub best_label : String

pub record ResponseValidator : Type 0 where
  pub policy : ValidationPolicy
  pub lib : TextLibrary
  -- `_CITATION.findall(answer)` and `_CITATION.sub("", answer)`
  pub find_citations : Text → List String
  pub remove_citations : Text → Text
  pub sorted : List String → List String
  pub round : Ratio → Ratio
  pub format : ℕ → String

abbrev insufficient_markers : List String
insufficient_markers =
    "ne permettent pas de conclure" ∷ "n'est pas presente dans le corpus"
    ∷ "n'est pas présente dans le corpus" ∷ "verification complementaire est necessaire"
    ∷ "vérification complémentaire est nécessaire" ∷ "do not allow a conclusion"
    ∷ "not present in the available corpus" ∷ "further verification is required" ∷ "i don't know"
    ∷ "je ne sais pas" ∷ []

abbrev hedge_markers : List String
hedge_markers =
    "il semble" ∷ "probablement" ∷ "peut-etre" ∷ "peut-être" ∷ "il est possible" ∷ "apparently"
    ∷ "it seems" ∷ "possibly" ∷ "likely" ∷ "i believe" ∷ []

unfoldable pub has_marker : List String → Text → Bool
unfolding contains
has_marker markers text = any (λ m. contains text (codes m)) markers

abbrev pub zero_ratio : Ratio
zero_ratio = record { num = 0; den = 1 }

-- `x > 0.0`
abbrev pub is_positive : Ratio → Bool
is_positive r = ratio_gt r zero_ratio

-- `evidence_grams[label] = grams`
abbrev pub put_grams : String → List Gram → List (String × List Gram) → List (String × List Gram)
put_grams label grams [] = (label, grams) ∷ []
put_grams label grams ((k, g) ∷ rest) =
    let more = put_grams label grams rest in
    if str_eq k label then (k, grams) ∷ rest else (k, g) ∷ more

-- The part of the sentence's grams that a passage has.
unfoldable pub overlap_with : List Gram → List Gram → Ratio
unfolding intersection same_gram
overlap_with grams reference = record {
  num = length (intersection same_gram grams reference);
  den = length grams;
}

-- The loop over the passages: the first best one.
abbrev pub best_match : List Gram → List (String × List Gram) → String × Ratio → String × Ratio
best_match grams [] best = best
best_match grams ((label, reference) ∷ rest) best =
    let overlap = overlap_with grams reference in
    best_match grams rest
      (if not (is_empty grams) && ratio_gt overlap best.1 then (label, overlap) else best)

abbrev join_labels : String → List String → String
join_labels sep [] = ""
join_labels sep (s ∷ []) = s
join_labels sep (s ∷ ss) = str_append s (str_append sep (join_labels sep ss))

abbrev label_of : SelectedEvidence → String
label_of e = e.label

abbrev is_label : List SelectedEvidence → String → Bool
is_label evidence label = any (λ (e : SelectedEvidence). str_eq e.label label) evidence

module _ (v : ResponseValidator) where
  abbrev pub grams_of : SelectedEvidence → List Gram
  grams_of e = shingles v.lib e.text v.policy.shingle_size

  abbrev pub evidence_grams :
      List (String × List Gram) → List SelectedEvidence → List (String × List Gram)
  evidence_grams m [] = m
  evidence_grams m (e ∷ es) = evidence_grams (put_grams e.label (grams_of e) m) es

  unfoldable pub judge : List (String × List Gram) → Text → SentenceVerdict
  unfolding overlap_with
  judge references sentence =
      let best =
        best_match (shingles v.lib sentence v.policy.shingle_size) references ("", zero_ratio) in
      record {
        text = v.lib.strip sentence;
        best_label = best.0;
        overlap = v.round best.1;
        is_grounded = ratio_ge best.1 v.policy.sentence_grounding_threshold;
      }

  -- Sentences of less than three words are not judged.
  abbrev pub verdicts_of : List (String × List Gram) → List Text → List SentenceVerdict
  verdicts_of references [] = []
  verdicts_of references (sentence ∷ rest) =
      let more = verdicts_of references rest in
      if ltb (length (content_words v.lib sentence)) 3
      then more
      else judge references sentence ∷ more

  -- `_ground`
  unfoldable pub ground_answer : Text → List SelectedEvidence → List SentenceVerdict
  unfolding judge sentences
  ground_answer answer evidence =
      if is_empty answer || is_empty evidence
      then []
      else verdicts_of (evidence_grams [] evidence) (sentences v.lib (v.remove_citations answer))

  -- `_confidence`
  unfoldable pub confidence_of : Ratio → Ratio → Ratio → Bool → List String → ConfidenceLevel
  confidence_of grounding coverage question_coverage declared cited =
      if declared
      then insufficient
      else if ratio_ge grounding v.policy.high_confidence_grounding
          && (not (is_empty cited)
              && (ratio_ge coverage (record { num = 3; den = 10 })
                  && is_positive question_coverage))
      then high
      else if ratio_ge grounding v.policy.medium_confidence_grounding
          && (not (is_empty cited) || is_positive coverage)
      then medium
      else if is_positive grounding
      then low
      else insufficient

  -- What is counted of an answer.
  pub record Measures : Type 0 where
    pub answer : Text
    pub declared : Bool
    pub cited : List String
    pub invalid : List String
    pub verdicts : List SentenceVerdict
    pub grounding_rate : Ratio
    pub evidence_coverage : Ratio
    pub question_coverage : Ratio

  abbrev is_ungrounded : SentenceVerdict → Bool
  is_ungrounded s = not s.is_grounded

  -- `round(a / b, 4) if b else 0.0`
  abbrev share : ℕ → ℕ → Ratio
  share a b = if ltb 0 b then v.round (record { num = a; den = b }) else zero_ratio

  unfoldable pub measure : Text → List SelectedEvidence → Text → Measures
  unfolding ground_answer has_marker content_words to_set intersection same_text
  measure text evidence question =
      let answer = v.lib.strip text in
      let cited = v.sorted (to_set str_eq (v.find_citations answer)) in
      let available = to_set str_eq (map label_of evidence) in
      let verdicts = ground_answer answer evidence in
      let question_terms = to_set same_text (content_words v.lib question) in
      let answer_terms = to_set same_text (content_words v.lib answer) in
      record {
        answer = answer;
        declared = has_marker insufficient_markers (v.lib.lower answer);
        cited = cited;
        invalid = keep (λ label. not (is_label evidence label)) cited;
        verdicts = verdicts;
        grounding_rate =
            share (length (keep (λ (s : SentenceVerdict). s.is_grounded) verdicts))
              (length verdicts);
        evidence_coverage =
            share (length (to_set str_eq (keep (is_label evidence) cited))) (length available);
        question_coverage =
            share (length (intersection same_text question_terms answer_terms))
              (length question_terms);
      }

  abbrev warn_if : Bool → String → List String
  warn_if test warning = if test then warning ∷ [] else []

  -- `checks["grounded"]`, and `checks["has_citations"]` where it is set.
  abbrev evidence_checks : List SelectedEvidence → Measures → List (String × Bool)
  evidence_checks [] m = ("grounded", m.declared) ∷ []
  evidence_checks (e ∷ es) m =
      ("grounded", ratio_ge m.grounding_rate v.policy.grounding_pass_threshold)
      ∷ (if v.policy.require_citations
          then ("has_citations", not (is_empty m.cited) || m.declared) ∷ []
          else [])

  unfoldable pub checks_of : List SelectedEvidence → Measures → List (String × Bool)
  checks_of evidence m =
      ("non_empty", leb v.policy.min_answer_chars (length m.answer))
      ∷ ("citations_valid", is_empty m.invalid)
      ∷ evidence_checks evidence m

  abbrev outcome : (String × Bool) → Bool
  outcome check = check.1

  -- Without evidence, only a declaration of insufficiency passes.
  unfoldable pub passed_of : List SelectedEvidence → Measures → Bool
  unfolding checks_of
  passed_of [] m = m.declared
  passed_of (e ∷ es) m = all outcome (checks_of (e ∷ es) m)

  unfoldable pub confidence_for : List SelectedEvidence → Measures → ConfidenceLevel
  unfolding confidence_of
  confidence_for [] m = insufficient
  confidence_for (e ∷ es) m =
      confidence_of m.grounding_rate m.evidence_coverage m.question_coverage m.declared m.cited

  abbrev evidence_warnings : List SelectedEvidence → Measures → List String
  evidence_warnings [] m =
      warn_if (not m.declared)
        "no evidence was available yet the answer asserts content; the model went outside the corpus"
  evidence_warnings (e ∷ es) m =
      warn_if (not (is_positive m.question_coverage) && not m.declared)
        "the answer shares no term with the question; it may be grounded in the wrong passage"

  abbrev unsupported_of : Measures → List Text
  unsupported_of m =
      take_words 5 (map (λ (s : SentenceVerdict). s.text) (keep is_ungrounded m.verdicts))

  unfoldable pub warnings_of : List SelectedEvidence → Measures → List String
  unfolding has_marker
  warnings_of evidence m =
      warn_if (not (is_empty m.invalid))
        (str_append "answer cites labels that were never provided: " (join_labels ", " m.invalid))
      ++ (evidence_warnings evidence m
          ++ (warn_if (has_marker hedge_markers (v.lib.lower m.answer))
                "answer contains hedging language; verify against the sources"
              ++ warn_if (not (is_empty (unsupported_of m))) (
                  str_append (v.format (length (unsupported_of m)))
                    " sentence(s) not supported by the excerpts")))

  unfoldable pub validate : ModelResponse → List SelectedEvidence → Text → ValidationReport
  unfolding measure passed_of confidence_for checks_of warnings_of
  validate response evidence question =
      let m = measure response.text evidence question in
      record {
        passed = passed_of evidence m;
        confidence = confidence_for evidence m;
        grounding_rate = m.grounding_rate;
        evidence_coverage = m.evidence_coverage;
        question_coverage = m.question_coverage;
        cited_labels = m.cited;
        unsupported_sentences = unsupported_of m;
        uncertainty_declared = m.declared;
        checks = checks_of evidence m;
        warnings = warnings_of evidence m;
      }
