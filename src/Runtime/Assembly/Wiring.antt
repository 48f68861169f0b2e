-- ===== src/Runtime/Assembly/Wiring.antt =====
-- Which handler each stage of the assembled pipeline gets (runtime/runtime.py, runtime/pipeline.py).
use leanlm.Common.{◌≡◌, refl, String, true, Option, some, [], ◌∷◌}
use leanlm.Shared.Errors.{ok}
use leanlm.Contracts.Iec.{
  PipelineStage, session_creation, resource_assessment, document_discovery, context_optimization,
  evidence_retrieval, prompt_assembly, model_inference, response_validation, metrics_finalization,
  session_cleanup,
}
use leanlm.Contracts.Capability.{
  CapabilityRegistry, register, lookup, owns, owners, for_stage, execute,
}
use leanlm.Context.Contract.{context_capability}
use leanlm.Retrieval.Contract.{retrieval_capability}
use leanlm.Inference.Contract.{inference_capability}
use leanlm.Validation.Contract.{response_validation_capability}
use leanlm.Runtime.Pipeline.{Handler, handler_for}
use leanlm.Runtime.Assembly.{
  Parts, performance, build_registry, stage_session, stage_resources, stage_discovery,
  stage_cleanup, pipeline_with,
}

module _ (p : Parts) where
  -- The five capabilities under their identifiers.
  abbrev pub registry_of : CapabilityRegistry
  registry_of = record {
    by_id =
        ("CAP-003", context_capability p.context_stage)
        ∷ ("CAP-004", retrieval_capability p.retrieval_stage)
        ∷ ("CAP-005", inference_capability p.inference_stage)
        ∷ ("CAP-006", response_validation_capability p.validator p.describe_report true)
        ∷ ("CAP-007", performance p)
        ∷ [];
    order = "CAP-003" ∷ "CAP-004" ∷ "CAP-005" ∷ "CAP-006" ∷ "CAP-007" ∷ [];
  }

  -- The handler that the design gives to a stage.
  abbrev pub duty : PipelineStage → Handler
  duty session_creation = stage_session p
  duty resource_assessment = stage_resources p
  duty document_discovery = stage_discovery p
  duty context_optimization =
      λ iec bus. execute (context_capability p.context_stage) iec context_optimization bus
  duty evidence_retrieval =
      λ iec bus. execute (retrieval_capability p.retrieval_stage) iec evidence_retrieval bus
  duty prompt_assembly =
      λ iec bus. execute (inference_capability p.inference_stage) iec prompt_assembly bus
  duty model_inference =
      λ iec bus. execute (inference_capability p.inference_stage) iec model_inference bus
  duty response_validation = λ iec bus.
      execute (response_validation_capability p.validator p.describe_report true) iec
        response_validation bus
  duty metrics_finalization = λ iec bus. execute (performance p) iec metrics_finalization bus
  duty session_cleanup = stage_cleanup p

  build_registry-eq-ok : build_registry p ≡ ok registry_of
  unfolding build_registry register lookup context_capability retrieval_capability
      inference_capability response_validation_capability
  build_registry-eq-ok = refl

  pub handler_for-duty :
      (now : String) (stop : Option PipelineStage) (stage : PipelineStage)
      → handler_for (pipeline_with p registry_of) now stop stage ≡ ok (some (duty stage))
  unfolding handler_for pipeline_with for_stage owners owns context_capability retrieval_capability
      inference_capability response_validation_capability
  handler_for-duty now stop session_creation = refl
  handler_for-duty now stop resource_assessment = refl
  handler_for-duty now stop document_discovery = refl
  handler_for-duty now stop context_optimization = refl
  handler_for-duty now stop evidence_retrieval = refl
  handler_for-duty now stop prompt_assembly = refl
  handler_for-duty now stop model_inference = refl
  handler_for-duty now stop response_validation = refl
  handler_for-duty now stop metrics_finalization = refl
  handler_for-duty now stop session_cleanup = refl

  -- Whatever the settings of the capabilities, the runtime registers all five of them without an
  -- error, and the pipeline made of that registry and of the runtime's own handlers finds for every
  -- stage exactly the handler that the stage is meant for: no stage is claimed twice, and none is
  -- left without a handler.
  pub build_registry-serves :
      (now : String) (stop : Option PipelineStage) (stage : PipelineStage)
      → (r : CapabilityRegistry) × (build_registry p ≡ ok r)
        × (handler_for (pipeline_with p r) now stop stage ≡ ok (some (duty stage)))
  build_registry-serves now stop stage =
      (registry_of, build_registry-eq-ok, handler_for-duty now stop stage)
