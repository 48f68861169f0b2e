-- ===== src/Inference/Contract.antt =====
-- The capability CAP-005 (packages/inference/contracts.py): the prompt and the call of the model.
-- What a backend does is a parameter: the calls of the hook for the first token, and how
-- `generate` ends. The figures in milliseconds are left out, and `describe_prompt` and
-- `describe_generation` give the entries of the trace as lists of texts.
pub mod Answering
use leanlm.Common.{
  ℕ, zero, suc, ltb, ◌-◌, String, str_append, Bool, true, false, not, ◌&&◌, ◌||◌, Option, none,
  some, List, [], ◌∷◌, is_empty, if◌then◌else◌,
}
use mathlib.Core.Logic.{ite}
use leanlm.Shared.Errors.{
  Exception, leanlm_error, value_error, type_error, unexpected, contract_error, Result, ok, raise,
  ◌>>=◌,
}
use leanlm.Shared.Events.{
  EventBus, prompt_built, inference_started, first_token, inference_finished, text, number, emit,
}
use leanlm.Shared.Text.{Text, codes}
use leanlm.Contracts.Dto.{ContextBudget, OptimizedContext, PromptPackage, ModelResponse}
use leanlm.Contracts.Iec.{
  InferenceExecutionContext, PipelineStage, PipelineStage-discrete, prompt_assembly,
  model_inference, stage_value, evolve, with_warning, set_prompt, set_response, set_trace,
  put_entry,
}
use leanlm.Contracts.Capability.{Capability, CapabilitySpec}
use leanlm.Inference.Prompt.{PromptBuilder, build}

pub record GenerationResult : Type 0 where
  pub text : Text
  pub backend : String
  pub generated_tokens : ℕ
  pub prompt_tokens : ℕ
  pub stop_reason : String
  pub is_simulated : Bool
  pub truncated : Bool

-- One call of `generate`: how often it calls the hook, and how it ends.
pub record Generation : Type 0 where
  pub first_tokens : ℕ
  pub result : Result GenerationResult

pub record InferenceBackend : Type 0 where
  pub name : String
  -- with or without the hooks for the output
  pub generate : Bool → Text → Generation

pub record InferenceStage : Type 0 where
  pub backend : InferenceBackend
  pub builder : PromptBuilder
  pub has_bus : Bool
  -- a hook for the tokens or for the progress is installed
  pub has_hooks : Bool
  pub describe_prompt : PromptPackage → List String
  pub describe_generation : GenerationResult → List String
  pub ceiling_note : ℕ → ℕ → String

abbrev pub inference_spec : CapabilitySpec
inference_spec = record {
  capability_id = "CAP-005";
  name = "Inference Execution";
  package_path = "packages/inference";
  pipeline = "inference";
  stages = stage_value prompt_assembly ∷ stage_value model_inference ∷ [];
}

abbrev pub is_stage : PipelineStage → PipelineStage → Bool
is_stage a b = ite (PipelineStage-discrete a b) true false

abbrev prompt_missing : InferenceExecutionContext → PipelineStage → Result (Unit {0})
prompt_missing iec stage = elim iec.prompt [
  | some prompt ↦ ok tt
  | none ↦
      if is_stage stage model_inference
      then raise (
          contract_error "INF-001" "inference requires an assembled prompt" inference_spec.name
            (stage_value stage) "run the prompt_assembly stage first")
      else ok tt
]

-- `check_postconditions`
abbrev pub response_missing : Option ModelResponse → PipelineStage → Result (Unit {0})
response_missing (some response) stage = ok tt
response_missing none stage =
    if is_stage stage model_inference
    then raise (
        contract_error "INF-002" "inference produced no response" inference_spec.name
          (stage_value stage) "")
    else ok tt

-- The usable window; `none` is a negative number.
abbrev pub ceiling_of : ContextBudget → Option ℕ
ceiling_of b =
    if ltb b.max_context_tokens b.reserved_output_tokens
    then none
    else some (b.max_context_tokens - b.reserved_output_tokens)

abbrev pub is_over : ℕ → Option ℕ → Bool
is_over tokens none = true
is_over tokens (some ceiling) = ltb ceiling tokens

abbrev pub simulated_note : String
simulated_note =
    "SIMULATED BACKEND: no GGUF model was loaded; this answer is an extract of the top passage and these timings are not model timings"

abbrev pub response_of : GenerationResult → ModelResponse
response_of g = record {
  text = g.text;
  generated_tokens = g.generated_tokens;
  prompt_tokens = g.prompt_tokens;
  stop_reason = g.stop_reason;
  is_simulated = g.is_simulated;
  truncated = g.truncated;
}

module _ (c : InferenceStage) where
  abbrev budget_of : Option OptimizedContext → Option ContextBudget
  budget_of none = none
  budget_of (some optimized) = optimized.budget

  abbrev ceiling_number : Option ℕ → ℕ
  ceiling_number none = 0
  ceiling_number (some n) = n

  -- The warning for a prompt that is too long.
  abbrev pub warn_long :
      PromptPackage
      → Option ContextBudget
      → InferenceExecutionContext
      → Result InferenceExecutionContext
  warn_long prompt none iec = ok iec
  warn_long prompt (some b) iec =
      if is_over prompt.prompt_tokens (ceiling_of b)
      then with_warning (c.ceiling_note prompt.prompt_tokens (ceiling_number (ceiling_of b))) iec
      else ok iec

  -- `_assemble`
  unfoldable pub assemble : InferenceExecutionContext → Result InferenceExecutionContext
  unfolding build evolve with_warning
  assemble iec =
      let prompt = build c.builder (codes iec.question) iec.evidence in
      evolve
        (set_prompt prompt
          ∷ set_trace (put_entry "prompt" (c.describe_prompt prompt) iec.trace)
          ∷ [])
        iec
      >>= warn_long prompt (budget_of iec.optimized_context)

  abbrev pub announce_prompt : InferenceExecutionContext → EventBus → EventBus
  announce_prompt iec bus =
      let prompt = build c.builder (codes iec.question) iec.evidence in
      if c.has_bus
      then emit prompt_built iec.session_id "inference"
          (("prompt_tokens", number prompt.prompt_tokens) ∷ []) bus
      else bus

  -- The calls of `on_first_token`.
  unfoldable pub emit_first : ℕ → String → EventBus → EventBus
  unfolding emit
  emit_first zero session bus = bus
  emit_first (suc n) session bus =
      emit_first n session (emit first_token session "inference" [] bus)

  abbrev note_first : ℕ → String → EventBus → EventBus
  note_first n session bus = if c.has_bus then emit_first n session bus else bus

  -- One call of `generate`.
  abbrev pub attempt : Bool → Text → String → EventBus → Result GenerationResult × EventBus
  attempt hooks prompt session bus =
      let g = c.backend.generate hooks prompt in (g.result, note_first g.first_tokens session bus)

  -- `except TypeError`: once more, without the hooks.
  abbrev pub retry :
      Text → String → Result GenerationResult × EventBus → Result GenerationResult × EventBus
  retry prompt session (ok g, bus) = (ok g, bus)
  retry prompt session (raise (type_error m), bus) = attempt false prompt session bus
  retry prompt session (raise e, bus) = (raise e, bus)

  unfoldable pub generate : Text → String → EventBus → Result GenerationResult × EventBus
  unfolding emit_first
  generate prompt session bus = retry prompt session (attempt c.has_hooks prompt session bus)

  -- What `_infer` makes of a generation.
  unfoldable pub record_response :
      GenerationResult → InferenceExecutionContext → Result InferenceExecutionContext
  unfolding evolve with_warning
  record_response g iec =
      evolve
        (set_response (response_of g)
          ∷ set_trace (put_entry "inference" (c.describe_generation g) iec.trace)
          ∷ [])
        iec
      >>= λ result. if g.is_simulated then with_warning simulated_note result else ok result

  abbrev pub returned :
      Result InferenceExecutionContext
      → EventBus
      → Result (Option InferenceExecutionContext) × EventBus
  returned (ok result) bus = (ok (some result), bus)
  returned (raise e) bus = (raise e, bus)

  abbrev pub announce_end : GenerationResult → String → EventBus → EventBus
  announce_end g session bus =
      if c.has_bus
      then emit inference_finished session "inference" (("tokens", number g.generated_tokens) ∷ [])
          bus
      else bus

  abbrev pub conclude :
      InferenceExecutionContext
      → Result GenerationResult × EventBus
      → Result (Option InferenceExecutionContext) × EventBus
  conclude iec (raise e, bus) = (raise e, bus)
  conclude iec (ok g, bus) = returned (record_response g iec) (announce_end g iec.session_id bus)

  abbrev pub announce_start : String → EventBus → EventBus
  announce_start session bus =
      if c.has_bus
      then emit inference_started session "inference" (("backend", text c.backend.name) ∷ []) bus
      else bus

  -- `_infer`
  unfoldable pub infer :
      PromptPackage
      → InferenceExecutionContext
      → EventBus
      → Result (Option InferenceExecutionContext) × EventBus
  unfolding generate record_response emit
  infer prompt iec bus =
      conclude iec (generate prompt.rendered iec.session_id (announce_start iec.session_id bus))

  unfoldable pub run_inference :
      InferenceExecutionContext
      → PipelineStage
      → EventBus
      → Result (Option InferenceExecutionContext) × EventBus
  unfolding assemble infer emit build PipelineStage-discrete
  run_inference iec stage bus =
      if is_stage stage prompt_assembly
      then returned (assemble iec) (announce_prompt iec bus)
      else elim iec.prompt [
        | none ↦ (raise (unexpected "AttributeError"), announce_start iec.session_id bus)
        | some prompt ↦ infer prompt iec bus
      ]

  unfoldable pub inference_capability : Capability
  unfolding run_inference PipelineStage-discrete
  inference_capability = record {
    spec = inference_spec;
    check_preconditions = prompt_missing;
    run = run_inference;
    check_postconditions = λ iec stage. response_missing iec.response stage;
  }
