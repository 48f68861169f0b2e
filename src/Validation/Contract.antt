-- ===== src/Validation/Contract.antt =====
-- The capability CAP-006 (packages/validation/contracts.py). `describe` gives the entry of the trace,
-- a dictionary of the report's fields, as a list of texts, and `has_bus` says whether there is a bus.
pub mod Annotation
use leanlm.Common.{String, Bool, Option, none, some, List, [], ◌∷◌, str_eq, if◌then◌else◌}
use leanlm.Shared.Errors.{Result, ok, raise, ◌>>=◌, contract_error, unexpected}
use leanlm.Shared.Events.{EventBus, Value, text, EventName, validation_completed, emit}
use leanlm.Shared.Text.{codes}
use leanlm.Contracts.Dto.{
  ModelResponse, ValidationReport, ConfidenceLevel, high, medium, low, insufficient,
}
use leanlm.Contracts.Iec.{
  put_entry, InferenceExecutionContext, PipelineStage, response_validation, stage_value, evolve,
  set_validation, set_trace, with_warning,
}
use leanlm.Contracts.Capability.{Capability, CapabilitySpec}
use leanlm.Validation.Response.{ResponseValidator, validate}

abbrev confidence_value : ConfidenceLevel → String
confidence_value high = "high"
confidence_value medium = "medium"
confidence_value low = "low"
confidence_value insufficient = "insufficient"

abbrev pub validation_spec : CapabilitySpec
validation_spec = record {
  capability_id = "CAP-006";
  name = "Response Validation";
  package_path = "packages/validation";
  pipeline = "inference";
  stages = stage_value response_validation ∷ [];
}

abbrev pub with_warnings :
    List String → InferenceExecutionContext → Result InferenceExecutionContext
with_warnings [] iec = ok iec
with_warnings (w ∷ ws) iec = with_warning w iec >>= with_warnings ws

module _ (v : ResponseValidator) (describe : ValidationReport → List String) (has_bus : Bool) where
  unfoldable pub annotate :
      ModelResponse → InferenceExecutionContext → Result InferenceExecutionContext
  unfolding validate evolve with_warning
  annotate response iec =
      let report = validate v response iec.evidence (codes iec.question) in
      evolve
        (set_validation report
          ∷ set_trace (put_entry "validation" (describe report) iec.trace)
          ∷ [])
        iec
      >>= with_warnings report.warnings

  -- The Boolean of the payload is given by its text.
  abbrev pub announce : ValidationReport → String → EventBus → EventBus
  announce report session bus =
      if has_bus
      then emit validation_completed session "validation"
          (("passed", text (if report.passed then "True" else "False"))
            ∷ ("confidence", text (confidence_value report.confidence))
            ∷ [])
          bus
      else bus

  abbrev validation_missing : InferenceExecutionContext → PipelineStage → Result (Unit {0})
  validation_missing iec stage = elim iec.response [
    | none ↦ raise (
        contract_error "VAL-001" "validation requires a model response" validation_spec.name
          (stage_value stage) "run the model_inference stage first")
    | some response ↦ ok tt
  ]

  abbrev pub published :
      ValidationReport
      → String
      → EventBus
      → Result InferenceExecutionContext
      → Result (Option InferenceExecutionContext) × EventBus
  published report session bus (ok result) = (ok (some result), announce report session bus)
  published report session bus (raise e) = (raise e, bus)

  unfoldable pub run_validation :
      InferenceExecutionContext
      → PipelineStage
      → EventBus
      → Result (Option InferenceExecutionContext) × EventBus
  unfolding annotate emit
  run_validation iec stage bus = elim iec.response [
    | none ↦ (raise (unexpected "AttributeError"), bus)
    | some response ↦
        published (validate v response iec.evidence (codes iec.question)) iec.session_id bus
          (annotate response iec)
  ]

  unfoldable pub response_validation_capability : Capability
  unfolding run_validation
  response_validation_capability = record {
    spec = validation_spec;
    check_preconditions = validation_missing;
    run = run_validation;
    check_postconditions = λ iec stage. ok tt;
  }
