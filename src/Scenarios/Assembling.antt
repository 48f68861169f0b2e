-- ===== src/Scenarios/Assembling.antt =====
-- A runtime with the capabilities of the other scenarios, and its run after one that has stopped half-way.
use leanlm.Common.{◌+◌, ◌≡◌, refl, sym, ap, ◌∙◌, none, some, []}
use leanlm.Shared.Errors.{ok, raise}
use leanlm.Contracts.Iec.{
  session_creation, resource_assessment, document_discovery, context_optimization, model_inference,
  evolve,
}
use leanlm.Contracts.Capability.{CapabilityRegistry, for_stage}
use leanlm.Context.Contract.{context_capability}
use leanlm.Retrieval.Contract.{retrieval_capability}
use leanlm.Inference.Contract.{inference_capability}
use leanlm.Validation.Contract.{response_validation_capability}
use leanlm.Runtime.Pipeline.{InferencePipeline, handler_for, capability_name, run}
use leanlm.Runtime.Pipeline.Stuck.{Answers, IsFound, Raises, run_stuck}
use leanlm.Runtime.StateMachine.{is_in, allowed}
use leanlm.Runtime.Assembly.{
  Parts, stage_session, stage_resources, stage_discovery, discovered, build_registry, pipeline_with,
}
use leanlm.Runtime.Assembly.Wiring.{registry_of, duty, handler_for-duty, build_registry-serves}
use leanlm.Scenarios.Planning.{context_stage, warm}
use leanlm.Scenarios.Retrieving.{retrieval_stage}
use leanlm.Scenarios.Answering.{inference_stage}
use leanlm.Scenarios.Judging.{validator, describe}
use leanlm.Scenarios.Storing.{library, filled, filled-package}
use leanlm.Scenarios.Wiring.{blank, left_inferencing, bus}

abbrev parts : Parts
parts = record {
  context_stage = context_stage;
  retrieval_stage = retrieval_stage;
  inference_stage = inference_stage;
  validator = validator;
  describe_report = describe;
  measure = λ iec stage bus. (ok (some (record iec { revision = iec.revision + 1 })), bus);
  library = library;
  corpus = filled;
  document_ids = [];
  observation = warm;
  session_entry = [];
  slug = λ name. name;
}

build_registry-serves_example :
    (r : CapabilityRegistry) × (build_registry parts ≡ ok r)
    × (handler_for (pipeline_with parts r) "t" none model_inference
        ≡ ok (some (duty parts model_inference)))
build_registry-serves_example = build_registry-serves parts "t" none model_inference

-- The pipeline of that runtime.
abbrev assembled : InferencePipeline
assembled = pipeline_with parts (registry_of parts)

assembled-session : Answers assembled "t" session_creation
unfolding capability_name stage_session evolve
assembled-session = record {
  handler = duty parts session_creation;
  handled = handler_for-duty parts "t" none session_creation;
  name = "runtime";
  named = refl;
  returns = λ iec b e h. cc h;
}

assembled-resources : Answers assembled "t" resource_assessment
unfolding capability_name stage_resources evolve
assembled-resources = record {
  handler = duty parts resource_assessment;
  handled = handler_for-duty parts "t" none resource_assessment;
  name = "runtime";
  named = refl;
  returns = λ iec b e h. cc h;
}

assembled-discovery : Answers assembled "t" document_discovery
unfolding capability_name stage_discovery evolve
assembled-discovery = record {
  handler = duty parts document_discovery;
  handled = handler_for-duty parts "t" none document_discovery;
  name = "runtime";
  named = refl;
  returns = λ iec b e h.
      let (loaded, found) = filled-package in
      let returned : (discovered parts (ok loaded) iec b).0 ≡ raise e =
        ap (λ r. (discovered parts r iec b).0) (sym found) ∙ h in
      cc returned;
}

assembled-IsFound : IsFound assembled "t" context_optimization
unfolding capability_name pipeline_with for_stage context_capability retrieval_capability
    inference_capability response_validation_capability
assembled-IsFound = record {
  handler = duty parts context_optimization;
  handled = handler_for-duty parts "t" none context_optimization;
  name = "Context Optimization";
  named = refl;
}

run_stuck_example :
    Raises assembled "t" left_inferencing (run assembled "t" none blank left_inferencing bus)
unfolding is_in allowed
run_stuck_example =
    run_stuck assembled "t" blank left_inferencing bus assembled-session assembled-resources
      assembled-discovery assembled-IsFound refl
