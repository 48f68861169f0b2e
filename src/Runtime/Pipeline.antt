-- ===== src/Runtime/Pipeline.antt =====
-- The inference pipeline (runtime/pipeline.py). Its run is a fold over `stage_order`, with the
-- state machine, the event bus and the telemetry records passed along.
pub mod Order
pub mod Endings
pub mod Stuck
use leanlm.Common.{
  ℕ, String, Bool, true, false, Option, none, some, List, [], ◌∷◌, if◌then◌else◌, length,
}
use mathlib.Core.Logic.{ite}
use leanlm.Shared.Errors.{ErrorRecord, Exception, leanlm_error, Result, ok, raise}
use leanlm.Shared.Events.{EventBus, capability_failed, pipeline_completed, text, number, emit}
use leanlm.Shared.Telemetry.{StageRecord, Telemetry, record_of, span}
use leanlm.Contracts.Iec.{
  PipelineStage, PipelineStage-discrete, session_creation, resource_assessment, document_discovery,
  context_optimization, evidence_retrieval, prompt_assembly, model_inference, response_validation,
  metrics_finalization, session_cleanup, stage_value, stage_order, InferenceExecutionContext,
  with_stage, with_error,
}
use leanlm.Contracts.Capability.{Capability, CapabilityRegistry, execute, for_stage}
use leanlm.Runtime.StateMachine.{
  RuntimeState, optimizing, retrieving, prompt_ready, inferencing, validating, completed, failed,
  StateMachine, transition,
}

abbrev pub Handler : Type 0
Handler = InferenceExecutionContext → EventBus → Result InferenceExecutionContext × EventBus

-- `_RUNTIME_STAGES`.
abbrev pub is_runtime_stage : PipelineStage → Bool
is_runtime_stage session_creation = true
is_runtime_stage resource_assessment = true
is_runtime_stage document_discovery = true
is_runtime_stage session_cleanup = true
is_runtime_stage _ = false

-- `_STATE_BY_STAGE`.
abbrev pub state_by_stage : PipelineStage → Option RuntimeState
state_by_stage context_optimization = some optimizing
state_by_stage evidence_retrieval = some retrieving
state_by_stage prompt_assembly = some prompt_ready
state_by_stage model_inference = some inferencing
state_by_stage response_validation = some validating
state_by_stage _ = none

-- What is set up once: the registry, the handlers of the runtime, and `lower().replace(" ", "_")`
-- on a capability's name.
pub record InferencePipeline : Type 0 where
  pub registry : CapabilityRegistry
  pub runtime_handlers : PipelineStage → Option Handler
  pub slug : String → String

-- What a run changes.
pub record Run : Type 0 where
  pub iec : InferenceExecutionContext
  pub machine : StateMachine
  pub telemetry : Telemetry

-- The run goes on, has returned its context, or has raised.
pub data Flow : Type 0 where
  next : Run → Flow
  returned : Run → Flow
  raised : Exception → Run → Flow

abbrev pub flow_run : Flow → Run
flow_run (next r) = r
flow_run (returned r) = r
flow_run (raised e r) = r

-- One pipeline, the clock reading of its transitions, and the stage to stop after.
module _ (p : InferencePipeline) (now : String) (stop_after : Option PipelineStage) where
  unfoldable pub handler_for : PipelineStage → Result (Option Handler)
  handler_for stage =
      if is_runtime_stage stage
      then ok (p.runtime_handlers stage)
      else elim (for_stage (stage_value stage) p.registry) [
        | raise e ↦ raise e
        | ok owner ↦ elim owner [
          | none ↦ ok none
          | some c ↦ ok (some (λ iec bus. execute c iec stage bus))
        ]
      ]

  unfoldable pub capability_name : PipelineStage → Result String
  capability_name stage =
      if is_runtime_stage stage
      then ok "runtime"
      else elim (for_stage (stage_value stage) p.registry) [
        | raise e ↦ raise e
        | ok owner ↦ elim owner [ none ↦ ok "runtime" | some c ↦ ok (p.slug c.spec.name) ]
      ]

  -- `_finalize_on_failure`: the metrics stage runs once more, outside of any span.
  unfoldable pub finalize_on_failure :
      InferenceExecutionContext → EventBus → Result InferenceExecutionContext × EventBus
  finalize_on_failure iec bus = elim (for_stage (stage_value metrics_finalization) p.registry) [
    | raise e ↦ (raise e, bus)
    | ok owner ↦ elim owner [
      | none ↦ (ok iec, bus)
      | some c ↦
          let (result, bus') = execute c iec metrics_finalization bus in
          elim result [ ok iec' ↦ (ok iec', bus') | raise _ ↦ (ok iec, bus') ]
    ]
  ]

  -- The end of the `except` block: the context that a failed run returns.
  unfoldable pub give_up :
      PipelineStage → String → ErrorRecord → InferenceExecutionContext → Run → Flow
  unfolding finalize_on_failure
  give_up stage name error iec r =
      let (result, bus) = finalize_on_failure iec r.telemetry.bus in
      elim result [
        | raise e ↦ raised e (record r { telemetry = record r.telemetry { bus = bus } })
        | ok iec' ↦ returned (record r {
          iec = iec';
          telemetry = record r.telemetry {
            bus =
                emit capability_failed iec'.session_id name
                  (("stage", text (stage_value stage)) ∷ ("code", text error.code) ∷ []) bus;
          };
        })
      ]

  -- The `except` block: `recorded` is `telemetry.records[-1]`, which the span has just appended.
  unfoldable pub fail_stage : PipelineStage → String → ErrorRecord → StageRecord → Run → Flow
  unfolding give_up
  fail_stage stage name error recorded r = elim (transition now failed r.machine) [
    | raise e ↦ raised e r
    | ok m ↦ elim (with_stage recorded r.iec) [
      | raise e ↦ raised e (record r { machine = m })
      | ok iec1 ↦ elim (with_error error iec1) [
        | raise e ↦ raised e (record r { machine = m })
        | ok iec2 ↦ give_up stage name error iec2 (record r { machine = m })
      ]
    ]
  ]

  -- The early exit: `stop_after is not None and stage is stop_after`.
  unfoldable pub stop_or_go : PipelineStage → Run → Flow
  unfolding PipelineStage-discrete
  stop_or_go stage r = elim stop_after [
    | none ↦ next r
    | some last ↦ ite (PipelineStage-discrete last stage) (returned r) (next r)
  ]

  -- What follows the span, by how its body ended.
  unfoldable pub after_span :
      PipelineStage → String → Result InferenceExecutionContext → StageRecord → Run → Flow
  unfolding fail_stage stop_or_go
  after_span stage name (raise (leanlm_error error)) recorded r =
      fail_stage stage name error recorded r
  after_span stage name (ok iec) recorded r = elim (with_stage recorded iec) [
    | raise e ↦ raised e (record r { iec = iec })
    | ok iec' ↦ stop_or_go stage (record r { iec = iec' })
  ]
  after_span stage name (raise e) recorded r = raised e r

  -- The span and what follows it.
  unfoldable pub perform : PipelineStage → String → Handler → Run → Flow
  unfolding after_span span
  perform stage name handler r =
      let (result, t) = span (stage_value stage) name (handler r.iec) r.telemetry in
      after_span stage name result (record_of (stage_value stage) name result)
        (record r { telemetry = t })

  -- The transition that a stage begins with, if it has one.
  unfoldable pub enter : PipelineStage → StateMachine → Result StateMachine
  enter stage m = elim (state_by_stage stage) [
    | none ↦ ok m
    | some target ↦ transition now target m
  ]

  -- The body of the loop.
  unfoldable pub run_stage : PipelineStage → Run → Flow
  unfolding handler_for capability_name enter perform
  run_stage stage r = elim (handler_for stage) [
    | raise e ↦ raised e r
    | ok found ↦ elim found [
      | none ↦ next r
      | some handler ↦ elim (capability_name stage) [
        | raise e ↦ raised e r
        | ok name ↦ elim (enter stage r.machine) [
          | raise e ↦ raised e r
          | ok m ↦ perform stage name handler (record r { machine = m })
        ]
      ]
    ]
  ]

  -- The loop over the stages that are left.
  unfoldable pub run_stages : List PipelineStage → Run → Flow
  unfolding run_stage
  run_stages [] r = next r
  run_stages (stage ∷ stages) r = elim (run_stage stage r) [
    | next r' ↦ run_stages stages r'
    | returned r' ↦ returned r'
    | raised e r' ↦ raised e r'
  ]

  -- After the loop.
  unfoldable pub complete : Run → Flow
  complete r = elim (transition now completed r.machine) [
    | raise e ↦ raised e r
    | ok m ↦ returned (record r {
      machine = m;
      telemetry = record r.telemetry {
        bus =
            emit pipeline_completed r.iec.session_id "runtime"
              (("stages", number (length r.iec.stages)) ∷ []) r.telemetry.bus;
      };
    })
  ]

  unfoldable pub run : InferenceExecutionContext → StateMachine → EventBus → Flow
  unfolding run_stages complete
  run iec machine bus =
      let start : Run = record {
        iec = iec;
        machine = machine;
        telemetry = record { bus = bus; session_id = iec.session_id; records = [] };
      } in
      elim (run_stages stage_order start) [
        | next r ↦ complete r
        | returned r ↦ returned r
        | raised e r ↦ raised e r
      ]
