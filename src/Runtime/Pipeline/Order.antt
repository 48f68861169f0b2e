-- ===== src/Runtime/Pipeline/Order.antt =====
-- A run records the stages in the canonical order (runtime/pipeline.py, DIC-01).

use leanlm.Common.{
  String, ◌+◌, ◌≡◌, refl, sym, ap, ◌∙◌, Option, some, List, [], ◌∷◌, ◌++◌, map, arith, append-nil,
  append_assoc, map-append, ◌⊎◌, inl, inr, Bool-cases, Option-cases,
}
use leanlm.Shared.Errors.{
  ErrorRecord, leanlm_error, value_error, type_error, unexpected, Result, ok, raise, Result-cases,
  Result-ind, Option-ind,
}
use leanlm.Shared.Events.{EventBus}
use leanlm.Shared.Telemetry.{StageRecord, name_of, record_of, span}
use leanlm.Contracts.Iec.{
  PipelineStage, metrics_finalization, stage_value, stage_order, InferenceExecutionContext,
  with_stage, with_error, completed_stages,
}
use leanlm.Contracts.Capability.{Capability, for_stage, execute}
use leanlm.Contracts.Capability.Laws.{execute-IsEnriched}
use leanlm.Runtime.StateMachine.{StateMachine, transition, failed, completed}
use leanlm.Runtime.Pipeline.{
  Handler, InferencePipeline, Run, Flow, next, returned, raised, flow_run, is_runtime_stage,
  handler_for, capability_name, finalize_on_failure, give_up, fail_stage, after_span, stop_or_go,
  perform, enter, run_stage, run_stages, complete, run,
}

-- Handlers and capabilities leave the list of stages to the pipeline.
pub record KeepsStages (p : InferencePipeline) : Type 0 where
  pub by_runtime :
      (stage : PipelineStage) (h : Handler) (iec after : InferenceExecutionContext) (bus : EventBus)
      → p.runtime_handlers stage ≡ some h
      → (h iec bus).0 ≡ ok after
      → after.stages ≡ iec.stages
  pub by_capability :
      (stage : PipelineStage) (c : Capability) (iec after : InferenceExecutionContext)
      (bus : EventBus)
      → for_stage (stage_value stage) p.registry ≡ ok (some c)
      → (c.run iec stage bus).0 ≡ ok (some after)
      → after.stages ≡ iec.stages

module _ (p : InferencePipeline) (now : String) (stop : Option PipelineStage)
    (keeps : KeepsStages p) where
  execute-stages :
      (stage : PipelineStage) (c : Capability) (iec after : InferenceExecutionContext)
      (bus : EventBus)
      → for_stage (stage_value stage) p.registry ≡ ok (some c)
      → (execute c iec stage bus).0 ≡ ok after
      → after.stages ≡ iec.stages
  execute-stages stage c iec after bus found h =
      keeps.by_capability stage c iec after bus found (execute-IsEnriched c iec after stage bus h).1

  handler-stages :
      (stage : PipelineStage) (h : Handler) (iec after : InferenceExecutionContext) (bus : EventBus)
      → handler_for p now stop stage ≡ ok (some h)
      → (h iec bus).0 ≡ ok after
      → after.stages ≡ iec.stages
  unfolding handler_for
  handler-stages stage h iec after bus found e = elim (Bool-cases (is_runtime_stage stage)) [
    | inl mine ↦ keeps.by_runtime stage h iec after bus (cc (rw mine at found)) e
    | inr other ↦ elim (Result-cases (for_stage (stage_value stage) p.registry)) [
      | inr (x, broken) ↦ ground arith
      | inl (owner, looked) ↦ elim (Option-cases owner) [
        | inl absent ↦ ground arith
        | inr (c, there) ↦
            let owned = looked ∙ ap ok there in
            let same : Handler = λ i b. execute c i stage b in
            let is_it : same ≡ h = cc (rw (other, owned) at found) in
            execute-stages stage c iec after bus owned
              (ap (λ (f : Handler). (f iec bus).0) is_it ∙ e)
      ]
    ]
  ]

  finalize-stages :
      (iec after : InferenceExecutionContext) (bus : EventBus)
      → (finalize_on_failure p now stop iec bus).0 ≡ ok after
      → after.stages ≡ iec.stages
  unfolding finalize_on_failure
  finalize-stages iec after bus h =
      elim (Result-cases (for_stage (stage_value metrics_finalization) p.registry)) [
        | inr (x, broken) ↦ ground arith
        | inl (owner, looked) ↦ elim (Option-cases owner) [
          | inl absent ↦ ground arith
          | inr (c, there) ↦
              let owned = looked ∙ ap ok there in
              elim (Result-cases (execute c iec metrics_finalization bus).0) [
                | inl (x, ran) ↦
                    let e : x ≡ after = ground arith in
                    ap (λ (y : InferenceExecutionContext). y.stages) (sym e)
                    ∙ execute-stages metrics_finalization c iec x bus owned ran
                | inr (x, broken) ↦ ground arith
              ]
        ]
      ]

  -- What one stage adds to the stages that the context records: nothing, or its own record.
  abbrev Adds : PipelineStage → InferenceExecutionContext → Flow → Type 0
  Adds stage iec f =
      ((flow_run f).iec.stages ≡ iec.stages)
      ⊎ ((x : StageRecord) × (x.stage ≡ stage_value stage)
          × ((flow_run f).iec.stages ≡ iec.stages ++ x ∷ []))

  give_up-Adds :
      (stage : PipelineStage) (name : String) (error : ErrorRecord) (x : StageRecord)
      (iec : InferenceExecutionContext) (r : Run)
      → x.stage ≡ stage_value stage
      → iec.stages ≡ r.iec.stages ++ x ∷ []
      → Adds stage r.iec (give_up p now stop stage name error iec r)
  unfolding give_up
  give_up-Adds stage name error x iec r e grown =
      Result-ind (Adds stage r.iec) (finalize_on_failure p now stop iec r.telemetry.bus).0
        (λ after ran. inr (x, e, finalize-stages iec after r.telemetry.bus ran ∙ grown))
        (λ y broken. inl refl)

  fail_stage-Adds :
      (stage : PipelineStage) (name : String) (error : ErrorRecord) (x : StageRecord) (r : Run)
      → x.stage ≡ stage_value stage
      → Adds stage r.iec (fail_stage p now stop stage name error x r)
  unfolding fail_stage with_stage with_error
  fail_stage-Adds stage name error x r e =
      Result-ind (Adds stage r.iec) (transition now failed r.machine)
        (λ m moved. give_up-Adds stage name error x _ (record r { machine = m }) e refl)
        (λ y refused. inl refl)

  flow_run-stop_or_go :
      (stage : PipelineStage) (r : Run) → flow_run (stop_or_go p now stop stage r) ≡ r
  unfolding stop_or_go
  flow_run-stop_or_go stage r = ground arith

  after_span-Adds :
      (stage : PipelineStage) (name : String) (result : Result InferenceExecutionContext)
      (x : StageRecord) (r : Run)
      → x.stage ≡ stage_value stage
      → ((after : InferenceExecutionContext) → result ≡ ok after → after.stages ≡ r.iec.stages)
      → Adds stage r.iec (after_span p now stop stage name result x r)
  unfolding after_span with_stage
  after_span-Adds stage name (ok iec) x r e same =
      let r' : Run = record r {
        iec = record iec { revision = iec.revision + 1; stages = iec.stages ++ x ∷ [] };
      } in
      inr (
        x,
        e,
        ap (λ (q : Run). q.iec.stages) (flow_run-stop_or_go stage r')
            ∙ ap (λ l. l ++ x ∷ []) (same iec refl),
      )
  after_span-Adds stage name (raise (leanlm_error error)) x r e same =
      fail_stage-Adds stage name error x r e
  after_span-Adds stage name (raise (value_error m)) x r e same = inl refl
  after_span-Adds stage name (raise (type_error m)) x r e same = inl refl
  after_span-Adds stage name (raise (unexpected m)) x r e same = inl refl

  record_of-stage :
      (stage : PipelineStage) (name : String) (result : Result InferenceExecutionContext)
      → (record_of (stage_value stage) name result).stage ≡ stage_value stage
  record_of-stage stage name (ok iec) = refl
  record_of-stage stage name (raise e) = refl

  run_stage-Adds :
      (stage : PipelineStage) (r : Run) → Adds stage r.iec (run_stage p now stop stage r)
  unfolding run_stage
  run_stage-Adds stage r =
      Result-ind (Adds stage r.iec) (handler_for p now stop stage)
        (λ found looked.
          Option-ind (Adds stage r.iec) found
            (λ h there.
              Result-ind (Adds stage r.iec) (capability_name p now stop stage)
                (λ name _.
                  Result-ind (Adds stage r.iec) (enter p now stop stage r.machine)
                    (λ m _.
                      unfold perform span in
                      after_span-Adds stage name (h r.iec _).0 _ _
                        (record_of-stage stage name (h r.iec _).0)
                        (λ after ran.
                          handler-stages stage h r.iec after _ (looked ∙ ap ok there) ran))
                    (λ e _. inl refl))
                (λ e _. inl refl))
            (λ _. inl refl))
        (λ e _. inl refl)

-- A list that keeps some items of another, in their order.
pub data Sub {ℓ} {A : Type ℓ} : List A → List A → Type ℓ where
  nil : Sub [] []
  take : {xs ys : List A} (a : A) → Sub xs ys → Sub (a ∷ xs) (a ∷ ys)
  skip : {xs ys : List A} (a : A) → Sub xs ys → Sub xs (a ∷ ys)

Sub-none {ℓ} : {A : Type ℓ} (ys : List A) → Sub [] ys
Sub-none [] = nil
Sub-none (y ∷ ys) = skip y (Sub-none ys)

-- The stages that the context records are the earlier ones and then some of `stages`.
abbrev pub Records : List PipelineStage → InferenceExecutionContext → Run → Type 0
Records stages iec r =
    (done : List PipelineStage) × Sub done stages
    × (completed_stages r.iec ≡ completed_stages iec ++ map stage_value done)

module _ (p : InferencePipeline) (now : String) (stop : Option PipelineStage)
    (keeps : KeepsStages p) where
  Adds→Records :
      (stage : PipelineStage) (stages : List PipelineStage) (iec : InferenceExecutionContext)
      (f : Flow)
      → Adds p now stop keeps stage iec f
      → Records (stage ∷ stages) iec (flow_run f)
  unfolding completed_stages
  Adds→Records stage stages iec f (inl same) = (
    [],
    Sub-none (stage ∷ stages),
    ap (map name_of) same ∙ sym (append-nil (completed_stages iec)),
  )
  Adds→Records stage stages iec f (inr (x, name, grown)) = (
    stage ∷ [],
    take stage (Sub-none stages),
    ap (map name_of) grown
        ∙ map-append name_of iec.stages (x ∷ [])
        ∙ ap (λ n. completed_stages iec ++ n ∷ []) name,
  )

  continue-Records :
      (stage : PipelineStage) (stages : List PipelineStage) (iec : InferenceExecutionContext)
      (f : Flow) (go : Run → Flow)
      → Adds p now stop keeps stage iec f
      → ((r : Run) → Records stages r.iec (flow_run (go r)))
      → Records
          (stage ∷ stages)
          iec
          (flow_run (elim f [ next r ↦ go r | returned r ↦ returned r | raised e r ↦ raised e r ]))
  unfolding completed_stages
  continue-Records stage stages iec (returned r) go adds rest =
      Adds→Records stage stages iec (returned r) adds
  continue-Records stage stages iec (raised e r) go adds rest =
      Adds→Records stage stages iec (raised e r) adds
  continue-Records stage stages iec (next r) go (inl same) rest =
      let (done, sub, names) = rest r in
      (done, skip stage sub, names ∙ ap (λ l. map name_of l ++ map stage_value done) same)
  continue-Records stage stages iec (next r) go (inr (x, name, grown)) rest =
      let (done, sub, names) = rest r in
      (
        stage ∷ done,
        take stage sub,
        names
            ∙ ap (λ l. map name_of l ++ map stage_value done) grown
            ∙ ap (λ l. l ++ map stage_value done) (map-append name_of iec.stages (x ∷ []))
            ∙ append_assoc (completed_stages iec) (x.stage ∷ []) (map stage_value done)
            ∙ ap (λ n. completed_stages iec ++ n ∷ map stage_value done) name,
      )

  run_stages-Records :
      (stages : List PipelineStage) (r : Run)
      → Records stages r.iec (flow_run (run_stages p now stop stages r))
  unfolding run_stages completed_stages
  run_stages-Records [] r = ([], nil, sym (append-nil (completed_stages r.iec)))
  run_stages-Records (stage ∷ stages) r =
      continue-Records stage stages r.iec (run_stage p now stop stage r)
        (run_stages p now stop stages) (run_stage-Adds p now stop keeps stage r)
        (run_stages-Records stages)

  complete-Records :
      (r : Run) → completed_stages (flow_run (complete p now stop r)).iec ≡ completed_stages r.iec
  unfolding complete
  complete-Records r =
      Result-ind (λ f. completed_stages (flow_run f).iec ≡ completed_stages r.iec)
        (transition now completed r.machine) (λ m _. refl) (λ e _. refl)

  finish-Records :
      (stages : List PipelineStage) (iec : InferenceExecutionContext) (f : Flow)
      → Records stages iec (flow_run f)
      → Records stages iec (
          flow_run (elim f [
            | next r ↦ complete p now stop r
            | returned r ↦ returned r
            | raised e r ↦ raised e r
          ]))
  finish-Records stages iec (next r) (done, sub, names) = (done, sub, complete-Records r ∙ names)
  finish-Records stages iec (returned r) h = h
  finish-Records stages iec (raised e r) h = h

  -- However a run ends (completed, stopped early, failed or with an exception that leaves it), the
  -- stages that its context has gained are stages of the canonical order, each at most once and in
  -- that order, if no handler and no capability writes the list of stages itself.
  pub run-Records :
      (iec : InferenceExecutionContext) (machine : StateMachine) (bus : EventBus)
      → Records stage_order iec (flow_run (run p now stop iec machine bus))
  unfolding run
  run-Records iec machine bus =
      finish-Records stage_order iec (run_stages p now stop stage_order _)
        (run_stages-Records stage_order _)
