-- ===== src/Runtime/Pipeline/Stuck.antt =====
-- A run of the pipeline (runtime/pipeline.py) on a machine that an earlier run left behind.
use leanlm.Common.{
  String, drop, str_append, ◌≡◌, ◌≢◌, refl, ap, ◌∙◌, subst, none, some, List, ◌∷◌, false,
}
use leanlm.Shared.Errors.{Exception, Result, ok, raise, contract_error, Result-ind, Option-ind}
use leanlm.Shared.Events.{EventBus}
use leanlm.Shared.Telemetry.{StageRecord, span}
use leanlm.Contracts.Iec.{
  PipelineStage, session_creation, resource_assessment, document_discovery, context_optimization,
  stage_order, InferenceExecutionContext, with_stage,
}
use leanlm.Runtime.StateMachine.{optimizing, StateMachine, transition, allowed, is_in, arrow}
use leanlm.Runtime.Pipeline.{
  Handler, InferencePipeline, Run, Flow, next, returned, raised, handler_for, capability_name,
  stop_or_go, after_span, perform, enter, run_stage, run_stages, complete, run, state_by_stage,
}

-- A stage that has a handler and a name, and whose handler returns.
pub record Answers (p : InferencePipeline) (now : String) (stage : PipelineStage) : Type 0 where
  pub handler : Handler
  pub handled : handler_for p now none stage ≡ ok (some handler)
  pub name : String
  pub named : capability_name p now none stage ≡ ok name
  pub returns :
      (iec : InferenceExecutionContext) (bus : EventBus) (e : Exception)
      → (handler iec bus).0 ≢ raise e

-- A stage that has a handler and a name; the handler may raise.
pub record IsFound (p : InferencePipeline) (now : String) (stage : PipelineStage) : Type 0 where
  pub handler : Handler
  pub handled : handler_for p now none stage ≡ ok (some handler)
  pub name : String
  pub named : capability_name p now none stage ≡ ok name

abbrev pub out_of_order : String → Exception
out_of_order message =
    contract_error "RTS-001" message "runtime" "unknown"
      "a stage ran out of order; DIC-01 fixes the lifecycle"

module _ (p : InferencePipeline) (now : String) where
  -- The flow goes on with the machine as it was.
  abbrev Passes : StateMachine → Flow → Type 0
  Passes m (next r) = r.machine ≡ m
  Passes m _ = ⊥

  never_raises :
      {stage : PipelineStage} (a : Answers p now stage) (k : Handler)
      → a.handler ≡ k
      → (iec : InferenceExecutionContext) (bus : EventBus) (e : Exception) → (k iec bus).0 ≢ raise e
  never_raises a k it iec bus e =
      subst (λ (f : Handler). (f iec bus).0 ≢ raise e) it (a.returns iec bus e)

  -- The run raises RTS-001 with the machine as it was.
  abbrev pub Raises : StateMachine → Flow → Type 0
  Raises m (raised e r) = (message : String) × ((e ≡ out_of_order message) × (r.machine ≡ m))
  Raises m _ = ⊥

  after_span-Passes :
      (stage : PipelineStage) (name : String) (result : Result InferenceExecutionContext)
      (x : StageRecord) (r : Run)
      → ((e : Exception) → result ≢ raise e)
      → Passes r.machine (after_span p now none stage name result x r)
  unfolding after_span with_stage stop_or_go
  after_span-Passes stage name (ok iec) x r quiet = refl
  after_span-Passes stage name (raise y) x r quiet = absurd (quiet y refl)

  enter-quiet :
      (stage : PipelineStage) (m : StateMachine)
      → state_by_stage stage ≡ none
      → enter p now none stage m ≡ ok m
  unfolding enter
  enter-quiet stage m quiet = rw (enter, quiet)

  -- A runtime stage: it has no state of its own.
  run_stage-Passes :
      (stage : PipelineStage) (r : Run)
      → Answers p now stage
      → state_by_stage stage ≡ none
      → Passes r.machine (run_stage p now none stage r)
  unfolding run_stage perform span
  run_stage-Passes stage r a quiet =
      Result-ind (Passes r.machine) (handler_for p now none stage)
        (λ found looked.
          let there : some a.handler ≡ found = cc (a.handled, looked) in
          Option-ind (Passes r.machine) found
            (λ k is.
              Result-ind (Passes r.machine) (capability_name p now none stage)
                (λ n _.
                  Result-ind (Passes r.machine) (enter p now none stage r.machine)
                    (λ m entered.
                      let same : m ≡ r.machine = cc (enter-quiet stage r.machine quiet, entered) in
                      let it : a.handler ≡ k = cc (there, is) in
                      subst
                        (λ x. Passes x (perform p now none stage n k (record r { machine = m })))
                        same
                        (after_span-Passes stage n (k r.iec _).0 _ _
                          (λ e. never_raises a k it r.iec _ e)))
                    (λ x refused. cc (enter-quiet stage r.machine quiet, refused)))
                (λ x refused. cc (a.named, refused)))
            (λ absent. cc (there, absent)))
        (λ x refused. cc (a.handled, refused))

  -- A stage that cannot be entered.
  run_stage-refused :
      (stage : PipelineStage) (r : Run) (message : String)
      → IsFound p now stage
      → enter p now none stage r.machine ≡ raise (out_of_order message)
      → Raises r.machine (run_stage p now none stage r)
  unfolding run_stage
  run_stage-refused stage r message a barred =
      Result-ind (Raises r.machine) (handler_for p now none stage)
        (λ found looked.
          let there : some a.handler ≡ found = cc (a.handled, looked) in
          Option-ind (Raises r.machine) found
            (λ k is.
              Result-ind (Raises r.machine) (capability_name p now none stage)
                (λ n _.
                  Result-ind (Raises r.machine) (enter p now none stage r.machine)
                    (λ m entered. cc (barred, entered))
                    (λ x refused. (message, (cc (barred, refused), refl))))
                (λ x refused. cc (a.named, refused)))
            (λ absent. cc (there, absent)))
        (λ x refused. cc (a.handled, refused))

  enter-refused :
      (m : StateMachine)
      → is_in optimizing (allowed m.state) ≡ false
      → enter p now none context_optimization m
        ≡ raise (
            out_of_order
              (str_append "illegal runtime transition " (arrow " -> " m.state optimizing)))
  unfolding enter transition
  enter-refused m barred = rw barred

  -- What the loop does once a stage has passed.
  then-Raises :
      (f : Flow) (go : Run → Flow) (m : StateMachine)
      → Passes m f
      → ((r : Run) → r.machine ≡ m → Raises m (go r))
      → Raises m (elim f [ next r ↦ go r | returned r ↦ returned r | raised e r ↦ raised e r ])
  then-Raises (next r) go m h rest = rest r h
  then-Raises (returned r) go m h rest = absurd h
  then-Raises (raised e r) go m h rest = absurd h

  Raises-on :
      (f : Flow) (go : Run → Flow) (m : StateMachine)
      → Raises m f
      → Raises m (elim f [ next r ↦ go r | returned r ↦ returned r | raised e r ↦ raised e r ])
  Raises-on (next r) go m h = absurd h
  Raises-on (returned r) go m h = absurd h
  Raises-on (raised e r) go m h = h

  refused-Raises :
      (stages : List PipelineStage) (r : Run) (m : StateMachine)
      → IsFound p now context_optimization
      → is_in optimizing (allowed m.state) ≡ false
      → r.machine ≡ m
      → Raises m (run_stages p now none (context_optimization ∷ stages) r)
  unfolding run_stages
  refused-Raises stages r m a barred e =
      let here : is_in optimizing (allowed r.machine.state) ≡ false =
        ap (λ (x : StateMachine). is_in optimizing (allowed x.state)) e ∙ barred in
      let out = run_stage-refused context_optimization r _ a (enter-refused r.machine here) in
      Raises-on (run_stage p now none context_optimization r) (run_stages p now none stages) m
        (subst (λ x. Raises x (run_stage p now none context_optimization r)) e out)

  quiet-Raises :
      (stage : PipelineStage) (stages : List PipelineStage) (m : StateMachine)
      → Answers p now stage
      → state_by_stage stage ≡ none
      → ((r : Run) → r.machine ≡ m → Raises m (run_stages p now none stages r))
      → (r : Run) → r.machine ≡ m
      → Raises m (run_stages p now none (stage ∷ stages) r)
  unfolding run_stages
  quiet-Raises stage stages m a quiet rest r e =
      then-Raises (run_stage p now none stage r) (run_stages p now none stages) m
        (subst (λ x. Passes x (run_stage p now none stage r)) e (run_stage-Passes stage r a quiet))
        rest

  Raises-finish :
      (f : Flow) (m : StateMachine)
      → Raises m f
      → Raises m (elim f [
        | next r ↦ complete p now none r
        | returned r ↦ returned r
        | raised e r ↦ raised e r
      ])
  Raises-finish (next r) m h = absurd h
  Raises-finish (returned r) m h = absurd h
  Raises-finish (raised e r) m h = h

  -- On a machine whose state has no edge to `optimizing`, and with a pipeline in which the handlers
  -- of the first three stages always return and the context stage has a handler and a name, every
  -- run without an early stop raises the contract error RTS-001 and leaves the machine as it was,
  -- whatever the context stage's handler does: a machine that one run leaves in such a state refuses
  -- every run after it.
  pub run_stuck :
      (iec : InferenceExecutionContext) (machine : StateMachine) (bus : EventBus)
      → Answers p now session_creation
      → Answers p now resource_assessment
      → Answers p now document_discovery
      → IsFound p now context_optimization
      → is_in optimizing (allowed machine.state) ≡ false
      → Raises machine (run p now none iec machine bus)
  unfolding run
  run_stuck iec machine bus a1 a2 a3 a4 barred =
      Raises-finish (run_stages p now none stage_order _) machine (
        quiet-Raises session_creation (drop 1 stage_order) machine a1 refl
          (quiet-Raises resource_assessment (drop 2 stage_order) machine a2 refl (
            quiet-Raises document_discovery (drop 3 stage_order) machine a3 refl
              (λ r e. refused-Raises (drop 4 stage_order) r machine a4 barred e)))
          _ refl)
