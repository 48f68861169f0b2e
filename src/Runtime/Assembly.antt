-- ===== src/Runtime/Assembly.antt =====
-- The pipeline as the runtime sets it up (runtime/runtime.py, `_build_registry`, the handlers of
-- the runtime's own stages and `use_documents`). A handler reads the corpus as it is at the start
-- of the run; the performance capability, the entries of the trace and the observation of the
-- sampler are parameters, and the figures of that observation are left out of its event.
pub mod Wiring
use leanlm.Common.{String, Bool, true, Option, none, some, List, [], ◌∷◌}
use leanlm.Shared.Errors.{Result, ok, raise, ◌>>=◌}
use leanlm.Shared.Events.{EventBus, resources_assessed, context_loaded, number, emit}
use leanlm.Contracts.Dto.{ResourceObservation, ContextPackage, ValidationReport}
use leanlm.Contracts.Iec.{
  InferenceExecutionContext, PipelineStage, session_creation, resource_assessment,
  document_discovery, metrics_finalization, session_cleanup, stage_value, evolve, set_trace,
  set_resources, set_context_package, put_entry,
}
use leanlm.Contracts.Capability.{
  Capability, CapabilitySpec, CapabilityRegistry, empty_registry, register,
}
use leanlm.Context.Contract.{ContextStage, context_capability}
use leanlm.Retrieval.Contract.{RetrievalStage, retrieval_capability}
use leanlm.Inference.Contract.{InferenceStage, inference_capability}
use leanlm.Validation.Response.{ResponseValidator}
use leanlm.Validation.Contract.{response_validation_capability}
use leanlm.Runtime.Corpus.{CorpusLibrary, CorpusStore, context_package}
use leanlm.Runtime.Pipeline.{InferencePipeline, Handler}

-- What a runtime is made of.
pub record Parts : Type 0 where
  pub context_stage : ContextStage
  pub retrieval_stage : RetrievalStage
  pub inference_stage : InferenceStage
  pub validator : ResponseValidator
  pub describe_report : ValidationReport → List String
  -- `run` of CAP-007
  pub measure :
      InferenceExecutionContext
      → PipelineStage
      → EventBus
      → Result (Option InferenceExecutionContext) × EventBus
  pub library : CorpusLibrary
  pub corpus : CorpusStore
  -- `_document_ids`, with no identifier for all documents
  pub document_ids : List String
  pub observation : ResourceObservation
  pub session_entry : List String
  pub slug : String → String

abbrev pub performance_spec : CapabilitySpec
performance_spec = record {
  capability_id = "CAP-007";
  name = "Performance Engineering";
  package_path = "packages/performance";
  pipeline = "inference";
  stages = stage_value metrics_finalization ∷ [];
}

module _ (p : Parts) where
  abbrev pub performance : Capability
  performance = record {
    spec = performance_spec;
    check_preconditions = λ iec stage. ok tt;
    run = p.measure;
    check_postconditions = λ iec stage. ok tt;
  }

  abbrev pub capabilities : List Capability
  capabilities =
      context_capability p.context_stage
      ∷ retrieval_capability p.retrieval_stage
      ∷ inference_capability p.inference_stage
      ∷ response_validation_capability p.validator p.describe_report true
      ∷ performance
      ∷ []

  abbrev register_all : List Capability → CapabilityRegistry → Result CapabilityRegistry
  register_all [] r = ok r
  register_all (c ∷ cs) r = register c r >>= register_all cs

  unfoldable pub build_registry : Result CapabilityRegistry
  unfolding register context_capability retrieval_capability inference_capability
      response_validation_capability
  build_registry = register_all capabilities empty_registry

  unfoldable pub stage_session : Handler
  unfolding evolve
  stage_session iec bus =
      (evolve (set_trace (put_entry "session" p.session_entry iec.trace) ∷ []) iec, bus)

  unfoldable pub stage_resources : Handler
  unfolding evolve emit
  stage_resources iec bus = (
    evolve (set_resources p.observation ∷ []) iec,
    emit resources_assessed iec.session_id "runtime" [] bus,
  )

  abbrev pub discovered : Result ContextPackage → Handler
  discovered (raise e) iec bus = (raise e, bus)
  discovered (ok loaded) iec bus = (
    evolve (set_context_package loaded ∷ []) iec,
    emit context_loaded iec.session_id "runtime"
        (("units", number loaded.total_units) ∷ ("tokens", number loaded.total_tokens) ∷ []) bus,
  )

  unfoldable pub stage_discovery : Handler
  unfolding context_package evolve emit
  stage_discovery = discovered (context_package p.library p.document_ids p.corpus).0

  unfoldable pub stage_cleanup : Handler
  unfolding evolve
  stage_cleanup iec bus = (
    evolve
        (set_trace (
            put_entry "cleanup" ("temporary_artifacts_released: True" ∷ "iec_persisted: False" ∷ [])
              iec.trace)
          ∷ [])
        iec,
    bus,
  )

  abbrev pub runtime_handlers : PipelineStage → Option Handler
  runtime_handlers session_creation = some stage_session
  runtime_handlers resource_assessment = some stage_resources
  runtime_handlers document_discovery = some stage_discovery
  runtime_handlers session_cleanup = some stage_cleanup
  runtime_handlers _ = none

  unfoldable pub pipeline_with : CapabilityRegistry → InferencePipeline
  unfolding stage_session stage_resources stage_discovery stage_cleanup
  pipeline_with registry = record {
    registry = registry;
    runtime_handlers = runtime_handlers;
    slug = p.slug;
  }

abbrev pub after_use : Option (List String) → List String
after_use none = []
after_use (some ids) = ids

-- `use_documents`
abbrev pub use_documents : Option (List String) → Parts → Parts
use_documents ids p = record p { document_ids = after_use ids }
