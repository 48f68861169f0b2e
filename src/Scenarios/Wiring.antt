-- ===== src/Scenarios/Wiring.antt =====
-- A pipeline in which one capability owns every stage that is not the runtime's, and its runs.
use leanlm.Common.{
  Bool-cases, inl, inr, sym, ◌≢◌, ◌+◌, String, ◌≡◌, refl, ap, ◌∙◌, true, none, some, [], ◌∷◌, arith,
  ◌⊎◌,
}
use leanlm.Shared.Errors.{Exception, ok, raise}
use leanlm.Shared.Events.{EventBus}
use leanlm.Contracts.Iec.{
  PipelineStage, context_optimization, stage_value, InferenceExecutionContext, completed_stages,
}
use leanlm.Contracts.Capability.{Capability, owns, accept, execute, for_stage, owners}
use leanlm.Runtime.StateMachine.{ready, completed, failed, inferencing, StateMachine}
use leanlm.Runtime.Pipeline.{
  Handler, InferencePipeline, Run, returned, flow_run, handler_for, capability_name,
  finalize_on_failure, run,
}
use leanlm.Runtime.Pipeline.Order.{KeepsStages}
use leanlm.Runtime.Pipeline.Endings.{IsWired, run_returns}
use leanlm.Runtime.Dic.{check_lifecycle}
use leanlm.Runtime.Dic.Conformance.{run-check_lifecycle}

abbrev pub blank : InferenceExecutionContext
blank = record {
  session_id = "s1";
  request_id = "r1";
  question = "Quel est le taux ?";
  profile_id = "balanced";
  revision = 1;
  resources = none;
  intent = none;
  context_package = none;
  optimized_context = none;
  evidence = [];
  prompt = none;
  response = none;
  validation = none;
  metrics = none;
  stages = [];
  warnings = [];
  errors = [];
  trace = [];
}

-- It raises the revision and does nothing else.
abbrev pub worker : Capability
worker = record {
  spec = record {
    capability_id = "c1";
    name = "Worker";
    package_path = "packages/worker";
    pipeline = "inference";
    stages =
        "context_optimization" ∷ "evidence_retrieval" ∷ "prompt_assembly" ∷ "model_inference"
        ∷ "response_validation" ∷ "metrics_finalization" ∷ [];
  };
  check_preconditions = λ iec stage. ok tt;
  run = λ iec stage bus. (ok (some (record iec { revision = iec.revision + 1 })), bus);
  check_postconditions = λ iec stage. ok tt;
}

abbrev pub wiring : InferencePipeline
wiring = record {
  registry = record { by_id = ("c1", worker) ∷ []; order = "c1" ∷ [] };
  runtime_handlers = λ stage. some (λ iec bus. (ok iec, bus));
  slug = λ s. s;
}

abbrev pub ready_machine : StateMachine
ready_machine = record { state = ready; history = [] }

abbrev pub left_inferencing : StateMachine
left_inferencing = record { state = inferencing; history = [] }

abbrev pub bus : EventBus
bus = record { subscribers = []; events = []; keep_last = 100; delivered = [] }

worker-quiet :
    (stage : PipelineStage) (iec : InferenceExecutionContext) (b : EventBus) (e : Exception)
    → owns worker.spec (stage_value stage) ≡ true
    → (execute worker iec stage b).0 ≡ raise e
    → ⊥
unfolding execute accept
worker-quiet stage iec b e mine h = ground arith

wiring-handled :
    (stage : PipelineStage) → (h : Handler) × (handler_for wiring "t" none stage ≡ ok (some h))
unfolding handler_for for_stage owners owns
wiring-handled PipelineStage.session_creation = (_, refl)
wiring-handled PipelineStage.resource_assessment = (_, refl)
wiring-handled PipelineStage.document_discovery = (_, refl)
wiring-handled PipelineStage.session_cleanup = (_, refl)
wiring-handled PipelineStage.context_optimization = (_, refl)
wiring-handled PipelineStage.evidence_retrieval = (_, refl)
wiring-handled PipelineStage.prompt_assembly = (_, refl)
wiring-handled PipelineStage.model_inference = (_, refl)
wiring-handled PipelineStage.response_validation = (_, refl)
wiring-handled PipelineStage.metrics_finalization = (_, refl)

wiring-named :
    (stage : PipelineStage) → (n : String) × (capability_name wiring "t" none stage ≡ ok n)
unfolding capability_name for_stage owners owns
wiring-named PipelineStage.session_creation = (_, refl)
wiring-named PipelineStage.resource_assessment = (_, refl)
wiring-named PipelineStage.document_discovery = (_, refl)
wiring-named PipelineStage.session_cleanup = (_, refl)
wiring-named PipelineStage.context_optimization = (_, refl)
wiring-named PipelineStage.evidence_retrieval = (_, refl)
wiring-named PipelineStage.prompt_assembly = (_, refl)
wiring-named PipelineStage.model_inference = (_, refl)
wiring-named PipelineStage.response_validation = (_, refl)
wiring-named PipelineStage.metrics_finalization = (_, refl)

worker-ok :
    (stage : PipelineStage) (iec : InferenceExecutionContext) (b : EventBus)
    → owns worker.spec (stage_value stage) ≡ true
    → (execute worker iec stage b).0 ≡ ok (record iec { revision = iec.revision + 1 })
unfolding execute accept
worker-ok stage iec b mine = ground arith

wiring-closes :
    (iec : InferenceExecutionContext) (b : EventBus)
    → (c : InferenceExecutionContext) × ((finalize_on_failure wiring "t" none iec b).0 ≡ ok c)
unfolding finalize_on_failure for_stage owners owns execute accept
wiring-closes iec b = (record iec { revision = iec.revision + 1 }, ground arith)

-- A handler that is found is the one that was put there, and returns what that one returns.
answers :
    (g h : Handler) (iec out : InferenceExecutionContext) (b : EventBus) (e : Exception)
    → (g iec b).0 ≡ ok out
    → some g ≡ some h
    → (h iec b).0 ≢ raise e
answers g h iec out b e fine found bad =
    let same : g ≡ h = cc found in cc (sym fine ∙ ap (λ (f : Handler). (f iec b).0) same ∙ bad)

abbrev by_execute : PipelineStage → Handler
by_execute stage iec b = execute worker iec stage b

by_worker :
    (stage : PipelineStage) (h : Handler) (iec : InferenceExecutionContext) (b : EventBus)
    (e : Exception)
    → owns worker.spec (stage_value stage) ≡ true
    → some (by_execute stage) ≡ some h
    → (h iec b).0 ≢ raise e
by_worker stage h iec b e mine found =
    answers (by_execute stage) h iec _ b e (worker-ok stage iec b mine) found

wiring-quiet :
    (stage : PipelineStage) (h : Handler) (iec : InferenceExecutionContext) (b : EventBus)
    (e : Exception)
    → handler_for wiring "t" none stage ≡ ok (some h)
    → (h iec b).0 ≢ raise e
unfolding handler_for for_stage owners owns
wiring-quiet PipelineStage.session_creation h iec b e found =
    answers (λ x y. (ok x, y)) h iec iec b e refl (cc found)
wiring-quiet PipelineStage.resource_assessment h iec b e found =
    answers (λ x y. (ok x, y)) h iec iec b e refl (cc found)
wiring-quiet PipelineStage.document_discovery h iec b e found =
    answers (λ x y. (ok x, y)) h iec iec b e refl (cc found)
wiring-quiet PipelineStage.session_cleanup h iec b e found =
    answers (λ x y. (ok x, y)) h iec iec b e refl (cc found)
wiring-quiet PipelineStage.context_optimization h iec b e found =
    by_worker context_optimization h iec b e refl (cc found)
wiring-quiet PipelineStage.evidence_retrieval h iec b e found =
    by_worker PipelineStage.evidence_retrieval h iec b e refl (cc found)
wiring-quiet PipelineStage.prompt_assembly h iec b e found =
    by_worker PipelineStage.prompt_assembly h iec b e refl (cc found)
wiring-quiet PipelineStage.model_inference h iec b e found =
    by_worker PipelineStage.model_inference h iec b e refl (cc found)
wiring-quiet PipelineStage.response_validation h iec b e found =
    by_worker PipelineStage.response_validation h iec b e refl (cc found)
wiring-quiet PipelineStage.metrics_finalization h iec b e found =
    by_worker PipelineStage.metrics_finalization h iec b e refl (cc found)

pub wiring-IsWired : IsWired wiring "t" none
wiring-IsWired = record {
  handled = wiring-handled;
  named = wiring-named;
  closes = wiring-closes;
  disciplined = λ stage h iec b e found bad. absurd (wiring-quiet stage h iec b e found bad);
}

wiring-owner :
    (stage : PipelineStage) (c : Capability)
    → for_stage (stage_value stage) wiring.registry ≡ ok (some c)
    → worker ≡ c
unfolding for_stage owners
wiring-owner stage c h = elim (Bool-cases (owns worker.spec (stage_value stage))) [
  | inl mine ↦ ground arith
  | inr other ↦ ground arith
]

wiring-KeepsStages : KeepsStages wiring
wiring-KeepsStages = record {
  by_runtime = λ stage h iec after b found e.
      let same : h ≡ (λ x y. (ok x, y)) = sym (cc found) in
      let back : ok iec ≡ ok after = sym (ap (λ (f : Handler). (f iec b).0) same) ∙ e in cc back;
  by_capability = λ stage c iec after b found e.
      let same : worker ≡ c = wiring-owner stage c found in
      let back : ok (some (record iec { revision = iec.revision + 1 })) ≡ ok (some after) =
        ap (λ (x : Capability). (x.run iec stage b).0) same ∙ e in
      let it : after ≡ record iec { revision = iec.revision + 1 } = cc back in
      ap (λ (x : InferenceExecutionContext). x.stages) it;
}

run_returns_example :
    (r : Run) × (run wiring "t" none blank ready_machine bus ≡ returned r)
    × ((r.machine.state ≡ completed) ⊎ (r.machine.state ≡ failed))
run_returns_example = run_returns wiring "t" blank ready_machine bus wiring-IsWired refl

run-check_lifecycle_example :
    check_lifecycle (completed_stages (flow_run (run wiring "t" none blank ready_machine bus)).iec)
    ≡ []
run-check_lifecycle_example =
    run-check_lifecycle wiring "t" none blank ready_machine bus wiring-KeepsStages refl
