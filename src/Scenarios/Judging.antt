-- ===== src/Scenarios/Judging.antt =====
-- An answer that cites its passage, and one that declares that the corpus does not suffice.
use leanlm.Common.{keep, ◌≡◌, refl, ◌↔◌, String, true, false, List, [], ◌∷◌, All, some, arith}
use leanlm.Shared.Errors.{ok}
use leanlm.Shared.Text.{Text, codes, shingles, sentences}
use leanlm.Shared.Events.{new}
use leanlm.Contracts.Dto.{SelectedEvidence, ModelResponse, ValidationReport, high}
use leanlm.Contracts.Iec.{InferenceExecutionContext, response_validation}
use leanlm.Contracts.Capability.{execute}
use leanlm.Validation.Response.{ResponseValidator, ground_answer, validate}
use leanlm.Validation.Response.Grounding.{HasSupport, ground_answer-HasSupport}
use leanlm.Validation.Response.Passing.{IsAcceptable, validate-IsAcceptable}
use leanlm.Validation.Contract.{response_validation_capability}
use leanlm.Validation.Contract.Annotation.{annotated, execute-validated}
use leanlm.Scenarios.Documents.{small_library}
use leanlm.Scenarios.Wiring.{blank}

abbrev pub validator : ResponseValidator
validator = record {
  policy = record {
    sentence_grounding_threshold = record { num = 34; den = 100 };
    grounding_pass_threshold = record { num = 60; den = 100 };
    min_answer_chars = 2;
    require_citations = true;
    high_confidence_grounding = record { num = 85; den = 100 };
    medium_confidence_grounding = record { num = 60; den = 100 };
    shingle_size = 3;
  };
  lib = small_library;
  find_citations = λ t. "S1" ∷ [];
  remove_citations = λ t. t;
  sorted = λ xs. xs;
  round = λ r. r;
  format = λ n. "1";
}

abbrev evidence : SelectedEvidence
evidence = record {
  label = "S1";
  unit_id = "u";
  document_name = "a.txt";
  section_path = [];
  text = codes "remboursement sous trente jours ouvrables";
  token_estimate = 8;
}

abbrev response : ModelResponse
response = record {
  text = codes "remboursement sous trente jours ouvrables";
  generated_tokens = 8;
  prompt_tokens = 40;
  stop_reason = "eos";
  is_simulated = false;
  truncated = false;
}

abbrev question : Text
question = codes "quel remboursement"

passes_here : (validate validator response (evidence ∷ []) question).passed ≡ true
unfolding validate shingles
passes_here = refl

sure_here : (validate validator response (evidence ∷ []) question).confidence ≡ high
unfolding validate shingles
sure_here = refl

fails_unsourced : (validate validator response [] question).passed ≡ false
unfolding validate shingles
fails_unsourced = refl

ground_answer-HasSupport_example :
    All
      (HasSupport validator
        (sentences validator.lib (validator.remove_citations response.text))
        (evidence ∷ []))
      (keep (λ s. s.is_grounded) (ground_answer validator response.text (evidence ∷ [])))
ground_answer-HasSupport_example =
    ground_answer-HasSupport validator response.text (evidence ∷ []) (omega arith)

validate-IsAcceptable_example :
    ((validate validator response (evidence ∷ []) question).passed ≡ true)
    ↔ IsAcceptable validator (validator.lib.strip response.text) (evidence ∷ [])
validate-IsAcceptable_example =
    validate-IsAcceptable validator response evidence [] question (λ p xs. refl)

abbrev pub describe : ValidationReport → List String
describe report = report.warnings

abbrev answered : InferenceExecutionContext
answered = record blank { response = some response; evidence = evidence ∷ [] }

execute-validated_example :
    (execute
      (response_validation_capability validator describe true)
      answered
      response_validation
      (new 8)).0
    ≡ ok (annotated validator describe response answered)
execute-validated_example = execute-validated validator describe true answered (new 8)
