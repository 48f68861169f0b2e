-- ===== src/Validation/Contract/Annotation.antt =====
-- What the validation capability (packages/validation/contracts.py) does to a context.
use leanlm.Common.{
  Option-cases, inl, inr, ◌+◌, ◌≡◌, refl, sym, ap, ap₂, ◌∙◌, String, Bool, Option, none, some, List,
  [], ◌∷◌, ◌++◌, length, append-nil, append_assoc, arith,
}
use leanlm.Shared.Errors.{Result, ok, raise, contract_error, Option-ind}
use leanlm.Shared.Events.{EventBus}
use leanlm.Shared.Text.{codes}
use leanlm.Contracts.Dto.{ModelResponse, ValidationReport}
use leanlm.Contracts.Iec.{
  put_entry, InferenceExecutionContext, PipelineStage, response_validation, evolve, with_warning,
  apply_all, apply_change,
}
use leanlm.Contracts.Capability.{execute, accept, owns}
use leanlm.Contracts.Capability.Laws.{execute_accepts, accept_enriched}
use leanlm.Validation.Response.{ResponseValidator, validate}
use leanlm.Validation.Contract.{
  with_warnings, annotate, run_validation, published, response_validation_capability,
}

with_warnings_all :
    (ws : List String) (iec : InferenceExecutionContext)
    → with_warnings ws iec
      ≡ ok (record iec { revision = iec.revision + length ws; warnings = iec.warnings ++ ws })
unfolding with_warning evolve apply_all apply_change
with_warnings_all [] iec =
    ap₂ (λ n ws. ok (record iec { revision = n; warnings = ws })) (omega arith)
      (sym (append-nil iec.warnings))
with_warnings_all (w ∷ ws) iec =
    with_warnings_all ws
      (record iec { revision = iec.revision + 1; warnings = iec.warnings ++ w ∷ [] })
    ∙ ap₂ (λ n all_of. ok (record iec { revision = n; warnings = all_of })) (omega arith)
        (append_assoc iec.warnings (w ∷ []) ws)

-- The context after a successful validation.
abbrev pub annotated :
    ResponseValidator
    → (ValidationReport → List String)
    → ModelResponse
    → InferenceExecutionContext
    → InferenceExecutionContext
annotated v describe response iec =
    let report = validate v response iec.evidence (codes iec.question) in
    record iec {
      revision = iec.revision + 1 + length report.warnings;
      validation = some report;
      trace = put_entry "validation" (describe report) iec.trace;
      warnings = iec.warnings ++ report.warnings;
    }

annotate-eq-ok :
    (v : ResponseValidator) (describe : ValidationReport → List String) (has_bus : Bool)
    (response : ModelResponse) (iec : InferenceExecutionContext)
    → annotate v describe has_bus response iec ≡ ok (annotated v describe response iec)
unfolding annotate evolve apply_all apply_change
annotate-eq-ok v describe has_bus response iec = with_warnings_all _ _

accept-eq-ok :
    (v : ResponseValidator) (describe : ValidationReport → List String) (has_bus : Bool)
    (response : ModelResponse) (iec : InferenceExecutionContext)
    → accept
        (response_validation_capability v describe has_bus)
        iec
        response_validation
        (some (annotated v describe response iec))
      ≡ ok (annotated v describe response iec)
unfolding response_validation_capability
accept-eq-ok v describe has_bus response iec =
    accept_enriched (response_validation_capability v describe has_bus) iec
      (annotated v describe response iec) response_validation (omega arith) refl

run_validation-eq-ok :
    (v : ResponseValidator) (describe : ValidationReport → List String) (has_bus : Bool)
    (response : ModelResponse) (iec : InferenceExecutionContext) (stage : PipelineStage)
    (bus : EventBus)
    → iec.response ≡ some response
    → (run_validation v describe has_bus iec stage bus).0
      ≡ ok (some (annotated v describe response iec))
unfolding run_validation
run_validation-eq-ok v describe has_bus response iec stage bus e =
    let Q = λ (out : Result (Option InferenceExecutionContext) × EventBus).
      out.0 ≡ ok (some (annotated v describe response iec)) in
    Option-ind Q iec.response
      (λ given held.
        let same : given ≡ response = cc (e, held) in
        ap
          (λ r.
            (published v describe has_bus (validate v given iec.evidence (codes iec.question))
              iec.session_id bus r).0)
          (annotate-eq-ok v describe has_bus given iec)
        ∙ ap (λ r. ok (some (annotated v describe r iec))) same)
      (λ missing. absurd (cc (e, missing)))

check-eq-ok :
    (v : ResponseValidator) (describe : ValidationReport → List String) (has_bus : Bool)
    (response : ModelResponse) (iec : InferenceExecutionContext) (stage : PipelineStage)
    → iec.response ≡ some response
    → (response_validation_capability v describe has_bus).check_preconditions iec stage ≡ ok tt
unfolding response_validation_capability
check-eq-ok v describe has_bus response iec stage e = rw e refl

-- What the stage returns, by the response of the context.
abbrev pub validated :
    ResponseValidator
    → (ValidationReport → List String)
    → InferenceExecutionContext
    → Option ModelResponse
    → Result InferenceExecutionContext
validated v describe iec none = raise (
    contract_error "VAL-001" "validation requires a model response" "Response Validation"
      "response_validation" "run the model_inference stage first")
validated v describe iec (some response) = ok (annotated v describe response iec)

-- The validation stage never edits the answer: with a response in the context it succeeds, and
-- only adds the report, its entry of the trace and its warnings behind those there are; every other
-- field, the response among them, is as before. Without a response it is refused with VAL-001.
pub execute-validated :
    (v : ResponseValidator) (describe : ValidationReport → List String) (has_bus : Bool)
    (iec : InferenceExecutionContext) (bus : EventBus)
    → (execute (response_validation_capability v describe has_bus) iec response_validation bus).0
      ≡ validated v describe iec iec.response
unfolding execute owns response_validation_capability
execute-validated v describe has_bus iec bus = elim (Option-cases iec.response) [
  | inl e ↦ rw e refl
  | inr (response, e) ↦
      execute_accepts (response_validation_capability v describe has_bus) iec
        (annotated v describe response iec) response_validation bus refl
        (check-eq-ok v describe has_bus response iec response_validation e)
        (run_validation-eq-ok v describe has_bus response iec response_validation bus e)
        (accept-eq-ok v describe has_bus response iec)
      ∙ ap (validated v describe iec) (sym e)
]
