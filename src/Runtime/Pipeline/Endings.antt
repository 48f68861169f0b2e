-- ===== src/Runtime/Pipeline/Endings.antt =====
-- How a run of the pipeline (runtime/pipeline.py) ends.
use leanlm.Common.{
  String, ite-ind, ◌++◌, ◌≡◌, ◌≢◌, refl, sym, ap, ◌∙◌, Option, none, some, List, [], ◌∷◌, ◌⊎◌, inl,
  inr, true,
}
use leanlm.Shared.Errors.{
  ErrorRecord, Exception, leanlm_error, value_error, type_error, unexpected, Result, ok, raise,
  Result-ind, Option-ind,
}
use leanlm.Shared.Events.{EventBus}
use leanlm.Shared.Telemetry.{StageRecord, span}
use leanlm.Contracts.Iec.{
  PipelineStage, PipelineStage-discrete, session_creation, resource_assessment, document_discovery,
  context_optimization, evidence_retrieval, prompt_assembly, model_inference, response_validation,
  metrics_finalization, session_cleanup, stage_order, InferenceExecutionContext, with_stage,
  with_error,
}
use leanlm.Runtime.StateMachine.{
  RuntimeState, ready, optimizing, retrieving, prompt_ready, inferencing, validating, completed,
  failed, StateMachine, transition, allowed, is_in, arrow, arrow,
}
use leanlm.Runtime.Pipeline.{
  Handler, InferencePipeline, Run, Flow, next, returned, raised, handler_for, capability_name,
  finalize_on_failure, give_up, fail_stage, stop_or_go, after_span, perform, enter, run_stage,
  run_stages, complete, run,
}

-- Every stage has a handler and a name, the metrics stage has an owner that can be looked up, and
-- no handler raises anything but a LeanLM error.
pub record IsWired (p : InferencePipeline) (now : String) (stop : Option PipelineStage)
    : Type 0 where
  pub handled :
      (stage : PipelineStage) → (h : Handler) × (handler_for p now stop stage ≡ ok (some h))
  pub named : (stage : PipelineStage) → (n : String) × (capability_name p now stop stage ≡ ok n)
  pub closes :
      (iec : InferenceExecutionContext) (bus : EventBus)
      → (c : InferenceExecutionContext) × ((finalize_on_failure p now stop iec bus).0 ≡ ok c)
  pub disciplined :
      (stage : PipelineStage) (h : Handler) (iec : InferenceExecutionContext) (bus : EventBus)
      (e : Exception)
      → handler_for p now stop stage ≡ ok (some h)
      → (h iec bus).0 ≡ raise e
      → (x : ErrorRecord) × (e ≡ leanlm_error x)

-- The state of the machine while a stage runs, and before it.
during : PipelineStage → RuntimeState
during session_creation = ready
during resource_assessment = ready
during document_discovery = ready
during context_optimization = optimizing
during evidence_retrieval = retrieving
during prompt_assembly = prompt_ready
during model_inference = inferencing
during response_validation = validating
during metrics_finalization = validating
during session_cleanup = validating

before : PipelineStage → RuntimeState
before session_creation = ready
before resource_assessment = ready
before document_discovery = ready
before context_optimization = ready
before evidence_retrieval = optimizing
before prompt_assembly = retrieving
before model_inference = prompt_ready
before response_validation = inferencing
before metrics_finalization = validating
before session_cleanup = validating

transition-moves :
    (now : String) (t s : RuntimeState) (m : StateMachine)
    → m.state ≡ s
    → is_in t (allowed s) ≡ true
    → (m' : StateMachine) × (transition now t m ≡ ok m') × (m'.state ≡ t)
unfolding transition
transition-moves now t s m e legal =
    let here : is_in t (allowed m.state) ≡ true = ap (λ x. is_in t (allowed x)) e ∙ legal in
    (record { state = t; history = m.history ++ (now, arrow "->" m.state t) ∷ [] }, rw here, refl)

may_fail : (stage : PipelineStage) → is_in failed (allowed (during stage)) ≡ true
unfolding during is_in allowed
may_fail session_creation = refl
may_fail _ = refl

module _ (p : InferencePipeline) (now : String) (stop : Option PipelineStage)
    (wired : IsWired p now stop) where
  enter-during :
      (stage : PipelineStage) (m : StateMachine)
      → m.state ≡ before stage
      → (m' : StateMachine) × (enter p now stop stage m ≡ ok m') × (m'.state ≡ during stage)
  unfolding enter before during is_in allowed
  enter-during session_creation m e = (m, refl, e)
  enter-during resource_assessment m e = (m, refl, e)
  enter-during document_discovery m e = (m, refl, e)
  enter-during metrics_finalization m e = (m, refl, e)
  enter-during session_cleanup m e = (m, refl, e)
  enter-during context_optimization m e = transition-moves now optimizing ready m e refl
  enter-during evidence_retrieval m e = transition-moves now retrieving optimizing m e refl
  enter-during prompt_assembly m e = transition-moves now prompt_ready retrieving m e refl
  enter-during model_inference m e = transition-moves now inferencing prompt_ready m e refl
  enter-during response_validation m e = transition-moves now validating inferencing m e refl

  -- A stage ends in its state, or the run is over with the machine in `failed`, or it is stopped.
  abbrev EndsStage : PipelineStage → Flow → Type 0
  EndsStage stage (next r) = r.machine.state ≡ during stage
  EndsStage stage (returned r) = (r.machine.state ≡ failed) ⊎ (stop ≡ some stage)
  EndsStage stage (raised e r) = ⊥

  give_up-EndsStage :
      (stage : PipelineStage) (name : String) (error : ErrorRecord)
      (iec : InferenceExecutionContext) (r : Run)
      → r.machine.state ≡ failed
      → EndsStage stage (give_up p now stop stage name error iec r)
  unfolding give_up
  give_up-EndsStage stage name error iec r e =
      let (c, closed) = wired.closes iec r.telemetry.bus in
      Result-ind (EndsStage stage) (finalize_on_failure p now stop iec r.telemetry.bus).0
        (λ after ran. inl e) (λ y broken. cc (closed, broken))

  fail_stage-EndsStage :
      (stage : PipelineStage) (name : String) (error : ErrorRecord) (x : StageRecord) (r : Run)
      → r.machine.state ≡ during stage
      → EndsStage stage (fail_stage p now stop stage name error x r)
  unfolding fail_stage with_stage with_error
  fail_stage-EndsStage stage name error x r e =
      let (m', moves, is_failed) =
        transition-moves now failed (during stage) r.machine e (may_fail stage) in
      Result-ind (EndsStage stage) (transition now failed r.machine)
        (λ m moved.
          let same : m' ≡ m = cc (moves, moved) in
          give_up-EndsStage stage name error _ (record r { machine = m })
            (ap (λ (y : StateMachine). y.state) (sym same) ∙ is_failed))
        (λ y refused. cc (moves, refused))

  stop_or_go-EndsStage :
      (stage : PipelineStage) (r : Run)
      → r.machine.state ≡ during stage
      → EndsStage stage (stop_or_go p now stop stage r)
  unfolding stop_or_go
  stop_or_go-EndsStage stage r e =
      Option-ind (EndsStage stage) stop
        (λ last is.
          ite-ind (EndsStage stage) (PipelineStage-discrete last stage)
            (λ same. inr (is ∙ ap some same)) (λ _. e))
        (λ _. e)

  after_span-EndsStage :
      (stage : PipelineStage) (name : String) (result : Result InferenceExecutionContext)
      (x : StageRecord) (r : Run)
      → r.machine.state ≡ during stage
      → ((e : Exception) → result ≡ raise e → (y : ErrorRecord) × (e ≡ leanlm_error y))
      → EndsStage stage (after_span p now stop stage name result x r)
  unfolding after_span with_stage
  after_span-EndsStage stage name (ok iec) x r e known =
      stop_or_go-EndsStage stage (record r { iec = _ }) e
  after_span-EndsStage stage name (raise (leanlm_error error)) x r e known =
      fail_stage-EndsStage stage name error x r e
  after_span-EndsStage stage name (raise (value_error m)) x r e known = cc ((known _ refl).1)
  after_span-EndsStage stage name (raise (type_error m)) x r e known = cc ((known _ refl).1)
  after_span-EndsStage stage name (raise (unexpected m)) x r e known = cc ((known _ refl).1)

  run_stage-EndsStage :
      (stage : PipelineStage) (r : Run)
      → r.machine.state ≡ before stage
      → EndsStage stage (run_stage p now stop stage r)
  unfolding run_stage perform span
  run_stage-EndsStage stage r e =
      let (h, has) = wired.handled stage in
      let (name, called) = wired.named stage in
      let (m, enters, inside) = enter-during stage r.machine e in
      Result-ind (EndsStage stage) (handler_for p now stop stage)
        (λ found looked.
          let there : some h ≡ found = cc (has, looked) in
          Option-ind (EndsStage stage) found
            (λ k is.
              Result-ind (EndsStage stage) (capability_name p now stop stage)
                (λ n _.
                  Result-ind (EndsStage stage) (enter p now stop stage r.machine)
                    (λ m' entered.
                      let same : m ≡ m' = cc (enters, entered) in
                      after_span-EndsStage stage n (k r.iec _).0 _ _
                        (ap (λ (y : StateMachine). y.state) (sym same) ∙ inside)
                        (λ x raises.
                          wired.disciplined stage k r.iec _ x (looked ∙ ap ok is) raises))
                    (λ x refused. cc (enters, refused)))
                (λ x refused. cc (called, refused)))
            (λ absent. cc (there, absent)))
        (λ x refused. cc (has, refused))

  -- The stages can run one after the other from state `s`, and the last one ends in `validating`.
  abbrev Chained : RuntimeState → List PipelineStage → Type 0
  Chained s [] = s ≡ validating
  Chained s (x ∷ xs) = (s ≡ before x) × Chained (during x) xs

  abbrev EndsLoop : Flow → Type 0
  EndsLoop (next r) = r.machine.state ≡ validating
  EndsLoop (returned r) = (r.machine.state ≡ failed) ⊎ (stop ≢ none)
  EndsLoop (raised e r) = ⊥

  continue-EndsLoop :
      (stage : PipelineStage) (stages : List PipelineStage) (f : Flow) (go : Run → Flow)
      → EndsStage stage f
      → ((r : Run) → r.machine.state ≡ during stage → EndsLoop (go r))
      → EndsLoop (elim f [ next r ↦ go r | returned r ↦ returned r | raised e r ↦ raised e r ])
  continue-EndsLoop stage stages (next r) go h rest = rest r h
  continue-EndsLoop stage stages (returned r) go (inl f) rest = inl f
  continue-EndsLoop stage stages (returned r) go (inr s) rest = inr (λ e. cc (s, e))
  continue-EndsLoop stage stages (raised e r) go h rest = h

  run_stages-EndsLoop :
      (stages : List PipelineStage) (s : RuntimeState) (r : Run)
      → Chained s stages
      → r.machine.state ≡ s
      → EndsLoop (run_stages p now stop stages r)
  unfolding run_stages
  run_stages-EndsLoop [] s r c e = e ∙ c
  run_stages-EndsLoop (stage ∷ stages) s r c e =
      continue-EndsLoop stage stages (run_stage p now stop stage r) (run_stages p now stop stages)
        (run_stage-EndsStage stage r (e ∙ c.0))
        (λ r' at. run_stages-EndsLoop stages (during stage) r' c.1 at)

  -- A run that returns, completed or failed, or stopped where the caller asked for it.
  abbrev EndsRun : Flow → Type 0
  EndsRun (returned r) =
      (r.machine.state ≡ completed) ⊎ ((r.machine.state ≡ failed) ⊎ (stop ≢ none))
  EndsRun _ = ⊥

  finish-EndsRun :
      (f : Flow)
      → EndsLoop f
      → EndsRun (elim f [
        | next r ↦ complete p now stop r
        | returned r ↦ returned r
        | raised e r ↦ raised e r
      ])
  unfolding complete is_in allowed
  finish-EndsRun (next r) h =
      let (m', moves, done) = transition-moves now completed validating r.machine h refl in
      Result-ind EndsRun (transition now completed r.machine)
        (λ m moved.
          let same : m ≡ m' = cc (moves, moved) in
          inl (ap (λ (y : StateMachine). y.state) same ∙ done))
        (λ e refused. cc (moves, refused))
  finish-EndsRun (returned r) h = inr h
  finish-EndsRun (raised e r) h = h

  run-EndsRun :
      (iec : InferenceExecutionContext) (machine : StateMachine) (bus : EventBus)
      → machine.state ≡ ready
      → EndsRun (run p now stop iec machine bus)
  unfolding run before during
  run-EndsRun iec machine bus e = finish-EndsRun (run_stages p now stop stage_order _) (
      run_stages-EndsLoop stage_order ready _
        (refl, (refl, (refl, (refl, (refl, (refl, (refl, (refl, (refl, (refl, refl)))))))))) e)

EndsRun-returned :
    (p : InferencePipeline) (now : String) (wired : IsWired p now none) (f : Flow)
    → EndsRun p now none wired f
    → (r : Run) × (f ≡ returned r) × ((r.machine.state ≡ completed) ⊎ (r.machine.state ≡ failed))
EndsRun-returned p now wired (returned r) (inl c) = (r, refl, inl c)
EndsRun-returned p now wired (returned r) (inr (inl f)) = (r, refl, inr f)
EndsRun-returned p now wired (returned r) (inr (inr s)) = absurd (s refl)
EndsRun-returned p now wired (next r) h = absurd h
EndsRun-returned p now wired (raised e r) h = absurd h

-- With a pipeline whose stages all have handlers that raise nothing but LeanLM errors, a run that
-- starts in `ready` and is not told to stop early always returns a context, whichever stages fail,
-- and leaves the machine in `completed` or in `failed`: no transition is refused on the way.
pub run_returns :
    (p : InferencePipeline) (now : String) (iec : InferenceExecutionContext)
    (machine : StateMachine) (bus : EventBus)
    → IsWired p now none
    → machine.state ≡ ready
    → (r : Run) × (run p now none iec machine bus ≡ returned r)
      × ((r.machine.state ≡ completed) ⊎ (r.machine.state ≡ failed))
run_returns p now iec machine bus wired e =
    EndsRun-returned p now wired (run p now none iec machine bus)
      (run-EndsRun p now none wired iec machine bus e)
