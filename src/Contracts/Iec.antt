-- ===== src/Contracts/Iec.antt =====
-- The inference execution context (contracts/iec.py): enriched by `evolve`, never rewritten.
-- The creation time and the resource sample, which no modelled code reads, are left out.
pub mod Evolution
use leanlm.Common.{
  ℕ, ◌+◌, String, Bool, true, false, Option, none, some, List, [], ◌∷◌, ◌++◌, map, ◌||◌,
  if◌then◌else◌, any, str_eq,
}
use leanlm.Shared.Errors.{ErrorRecord, Result, ok, raise, value_error, type_error}
use leanlm.Shared.Telemetry.{StageRecord, name_of}
use leanlm.Contracts.Dto.{
  IntentClassification, ContextPackage, OptimizedContext, SelectedEvidence, PromptPackage,
  ModelResponse, ValidationReport, MetricsSnapshot, ResourceObservation,
}

-- `PipelineStage`, in the order of `STAGE_ORDER`.
pub data PipelineStage : Type 0 where
  session_creation resource_assessment document_discovery context_optimization : PipelineStage
  evidence_retrieval prompt_assembly model_inference response_validation : PipelineStage
  metrics_finalization session_cleanup : PipelineStage

unfoldable pub PipelineStage-discrete : Discrete PipelineStage
PipelineStage-discrete = hlevel

abbrev pub stage_value : PipelineStage → String
stage_value session_creation = "session_creation"
stage_value resource_assessment = "resource_assessment"
stage_value document_discovery = "document_discovery"
stage_value context_optimization = "context_optimization"
stage_value evidence_retrieval = "evidence_retrieval"
stage_value prompt_assembly = "prompt_assembly"
stage_value model_inference = "model_inference"
stage_value response_validation = "response_validation"
stage_value metrics_finalization = "metrics_finalization"
stage_value session_cleanup = "session_cleanup"

abbrev pub stage_order : List PipelineStage
stage_order =
    session_creation ∷ resource_assessment ∷ document_discovery ∷ context_optimization
    ∷ evidence_retrieval ∷ prompt_assembly ∷ model_inference ∷ response_validation
    ∷ metrics_finalization ∷ session_cleanup ∷ []

pub record InferenceExecutionContext : Type 0 where
  pub session_id : String
  pub request_id : String
  pub question : String
  pub profile_id : String
  pub revision : ℕ
  pub resources : Option ResourceObservation
  pub intent : Option IntentClassification
  pub context_package : Option ContextPackage
  pub optimized_context : Option OptimizedContext
  pub evidence : List SelectedEvidence
  pub prompt : Option PromptPackage
  pub response : Option ModelResponse
  pub validation : Option ValidationReport
  pub metrics : Option MetricsSnapshot
  pub stages : List StageRecord
  pub warnings : List String
  pub errors : List ErrorRecord
  -- the entries of `trace` by their key, each a list of texts
  pub trace : List (String × List String)

-- One keyword argument of `evolve`. The last five are the ones that `evolve` refuses.
pub data Change : Type 0 where
  set_profile_id : String → Change
  set_resources : ResourceObservation → Change
  set_intent : IntentClassification → Change
  set_context_package : ContextPackage → Change
  set_optimized_context : OptimizedContext → Change
  set_evidence : List SelectedEvidence → Change
  set_prompt : PromptPackage → Change
  set_response : ModelResponse → Change
  set_validation : ValidationReport → Change
  set_metrics : MetricsSnapshot → Change
  set_stages : List StageRecord → Change
  set_warnings : List String → Change
  set_errors : List ErrorRecord → Change
  set_trace : List (String × List String) → Change
  set_session_id : String → Change
  set_request_id : String → Change
  set_question : String → Change
  set_created_at : String → Change
  set_revision : ℕ → Change

-- `protected & set(changes)`.
abbrev pub is_protected : Change → Bool
is_protected (set_session_id _) = true
is_protected (set_request_id _) = true
is_protected (set_question _) = true
is_protected (set_created_at _) = true
is_protected _ = false

-- `replace(self, revision=…, **changes)` is given `revision` twice.
abbrev pub repeats_revision : Change → Bool
repeats_revision (set_revision _) = true
repeats_revision _ = false

unfoldable pub apply_change : Change → InferenceExecutionContext → InferenceExecutionContext
apply_change (set_profile_id v) c = record c { profile_id = v }
apply_change (set_resources v) c = record c { resources = some v }
apply_change (set_intent v) c = record c { intent = some v }
apply_change (set_context_package v) c = record c { context_package = some v }
apply_change (set_optimized_context v) c = record c { optimized_context = some v }
apply_change (set_evidence v) c = record c { evidence = v }
apply_change (set_prompt v) c = record c { prompt = some v }
apply_change (set_response v) c = record c { response = some v }
apply_change (set_validation v) c = record c { validation = some v }
apply_change (set_metrics v) c = record c { metrics = some v }
apply_change (set_stages v) c = record c { stages = v }
apply_change (set_warnings v) c = record c { warnings = v }
apply_change (set_errors v) c = record c { errors = v }
apply_change (set_trace v) c = record c { trace = v }
apply_change _ c = c

unfoldable pub apply_all : List Change → InferenceExecutionContext → InferenceExecutionContext
unfolding apply_change
apply_all [] c = c
apply_all (x ∷ xs) c = apply_all xs (apply_change x c)

unfoldable pub evolve : List Change → InferenceExecutionContext → Result InferenceExecutionContext
unfolding apply_all
evolve changes c =
    if any is_protected changes
    then raise (value_error "IEC identity fields are immutable")
    else if any repeats_revision changes
    then raise (type_error "multiple values for keyword argument 'revision'")
    else ok (apply_all changes (record c { revision = c.revision + 1 }))

unfoldable pub with_stage :
    StageRecord → InferenceExecutionContext → Result InferenceExecutionContext
unfolding evolve
with_stage r c = evolve (set_stages (c.stages ++ r ∷ []) ∷ []) c

unfoldable pub with_warning : String → InferenceExecutionContext → Result InferenceExecutionContext
unfolding evolve
with_warning w c = evolve (set_warnings (c.warnings ++ w ∷ []) ∷ []) c

unfoldable pub with_error :
    ErrorRecord → InferenceExecutionContext → Result InferenceExecutionContext
unfolding evolve
with_error e c = evolve (set_errors (c.errors ++ e ∷ []) ∷ []) c

unfoldable pub completed_stages : InferenceExecutionContext → List String
completed_stages c = map name_of c.stages

-- The property `failed`.
unfoldable pub has_failed : InferenceExecutionContext → Bool
has_failed c = any (λ r. str_eq r.status "failed") c.stages

-- `trace[key] = value`
abbrev pub put_entry :
    String → List String → List (String × List String) → List (String × List String)
put_entry key value [] = (key, value) ∷ []
put_entry key value ((k, x) ∷ rest) =
    let more = put_entry key value rest in if str_eq k key then (k, value) ∷ rest else (k, x) ∷ more
