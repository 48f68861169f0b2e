-- ===== src/Scenarios/Answering.antt =====
-- An inference stage whose backend does not take the hooks for the output.
use leanlm.Common.{◌≡◌, refl, true, false, some, [], ◌∷◌, if◌then◌else◌}
use leanlm.Shared.Errors.{ok, raise, type_error}
use leanlm.Shared.Text.{codes}
use leanlm.Shared.Text.Counter.{count}
use leanlm.Contracts.Dto.{PromptPackage}
use leanlm.Contracts.Iec.{InferenceExecutionContext, model_inference}
use leanlm.Contracts.Capability.{execute}
use leanlm.Inference.Contract.{GenerationResult, InferenceStage, generate, inference_capability}
use leanlm.Inference.Contract.Answering.{Ends, generated, execute-answered}
use leanlm.Runtime.Asking.{new_context}
use leanlm.Scenarios.Documents.{small_library}
use leanlm.Scenarios.Wiring.{bus}

abbrev answer : GenerationResult
answer = record {
  text = codes "30 jours [S1]";
  backend = "b";
  generated_tokens = 4;
  prompt_tokens = 9;
  stop_reason = "eos";
  is_simulated = true;
  truncated = false;
}

abbrev pub inference_stage : InferenceStage
inference_stage = record {
  backend = record {
    name = "b";
    generate = λ hooks prompt.
        if hooks
        then record { first_tokens = 1; result = raise (type_error "on_token") }
        else record { first_tokens = 1; result = ok answer };
  };
  builder = record {
    policy = record {
      thinking_suffix = [];
      evidence_separator = [];
      max_evidence_chars = 100;
      include_section_path = false;
    };
    count = count small_library;
    lib = small_library;
  };
  has_bus = true;
  has_hooks = true;
  describe_prompt = λ p. [];
  describe_generation = λ g. g.backend ∷ [];
  ceiling_note = λ tokens ceiling. "";
}

abbrev prompt : PromptPackage
prompt = record {
  rendered = codes "Question";
  prompt_tokens = 9;
  context_tokens = 4;
  evidence_labels = "S1" ∷ [];
}

abbrev prompted : InferenceExecutionContext
prompted = record (new_context "s" "r" "combien" "p") { prompt = some prompt }

-- The first token is announced twice.
generated_again : (generated inference_stage prompt prompted bus).0 ≡ ok answer
unfolding generate
generated_again = refl

execute-answered_example :
    Ends inference_stage
      (inference_stage.backend.generate inference_stage.has_hooks prompt.rendered).result
      (inference_stage.backend.generate false prompt.rendered).result
      prompted
      (execute (inference_capability inference_stage) prompted model_inference bus).0
execute-answered_example = execute-answered inference_stage prompt prompted bus refl
