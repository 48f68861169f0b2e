-- ===== src/Runtime/Asking.antt =====
-- One question to the runtime (runtime/runtime.py, `ask` and `open_session`). A session object is
-- known by its identifier in the manager; the resource sampler, which is only reset, and the log
-- are left out, and the dictionaries of the trace are given as lists of texts; of the
-- report of the guard, the trace gets the violations. What a handler of a stage tries on the network
-- is known before the run: where the guard refuses it, the stage raises `OfflineBreach`.
pub mod Serving
use mathlib.Core.Logic.{ite}
use leanlm.Common.{
  ℕ, String, str_append, str_eq, Bool, true, false, not, ◌||◌, Option, none, some, List, [], ◌∷◌,
  is_empty, if◌then◌else◌, ◌==◌, ◌&&◌, ◌++◌, map, any,
}
use leanlm.Shared.Errors.{Exception, unexpected, input_error, Result, ok, raise}
use leanlm.Shared.Events.{EventBus, session_started, session_closed, text, number, emit}
use leanlm.Shared.Text.{Text, codes}
use leanlm.Contracts.Dto.{MetricsSnapshot}
use leanlm.Contracts.Iec.{
  stage_order, stage_value, metrics_finalization, InferenceExecutionContext, PipelineStage, evolve,
  set_trace, put_entry,
}
use leanlm.Trust.OfflineGuard.{
  OfflineGuard, OfflineViolation, is_refused, is_loopback, host_of, Sockets, Attempt, enter, exit,
  attempt_all,
}
use leanlm.Runtime.StateMachine.{
  RuntimeState, RuntimeState-discrete, ready, completed, failed, StateMachine, transition,
}
use leanlm.Runtime.Dic.{Violation, verify}
use leanlm.Runtime.Loading.{LeanlmRuntime, Backend, load}
use leanlm.Runtime.Session.{Session, SessionManager, create, get, close, put, next_request_id}
use leanlm.Runtime.Corpus
use leanlm.Runtime.Corpus.{CorpusLibrary, CorpusStore, record_session, record_metrics}
use leanlm.Runtime.Pipeline.{
  Handler, InferencePipeline, Run, Flow, next, returned, raised, flow_run, run,
}
use leanlm.Contracts.Capability.{Capability}

-- What the runtime keeps between two questions.
pub record Service : Type 0 where
  pub core : LeanlmRuntime
  pub corpus : CorpusStore
  pub sessions : SessionManager
  -- `_session`
  pub current : Option String
  pub sockets : Sockets

-- What is fixed at construction, and what the standard library and the clock give.
pub record Setting : Type 0 where
  pub pipeline : InferencePipeline
  pub backend : Backend
  pub library : CorpusLibrary
  pub profile_id : String
  pub enforce_offline : Bool
  pub now : String
  pub strip : String → String
  pub format : ℕ → String
  pub report : OfflineViolation → String
  pub runtime_entry : List String
  pub payload : MetricsSnapshot → String
  pub violations_entry : List Violation → List String

-- One call of `ask`: the identifier that a new session would get, and the attempts on the network
-- that the handler of each stage makes. No handler of the program catches what a refused attempt
-- raises.
pub record Call : Type 0 where
  pub question : String
  pub session : Option String
  pub check_contract : Bool
  pub stop_after : Option PipelineStage
  pub fresh_id : String
  pub attempts : PipelineStage → List Attempt

abbrev pub new_context : String → String → String → String → InferenceExecutionContext
new_context sid rid question profile = record {
  session_id = sid;
  request_id = rid;
  question = question;
  profile_id = profile;
  revision = 1;
  resources = none;
  intent = none;
  context_package = none;
  optimized_context = none;
  evidence = [];
  prompt = none;
  response = none;
  validation = none;
  metrics = none;
  stages = [];
  warnings = [];
  errors = [];
  trace = [];
}

abbrev pub is_blank : String → Bool
is_blank s = is_empty (codes s)

abbrev pub is_state : RuntimeState → RuntimeState → Bool
is_state a b = ite (RuntimeState-discrete a b) true false

abbrev pub first_of {ℓ} : {A : Type ℓ} → Option A → Option A → Option A
first_of none b = b
first_of (some a) b = some a

-- The pipeline whose handlers raise, before they do anything, in the stages of the test.
module _ (breaches : PipelineStage → Bool) where
  abbrev pub guarded_runtime : PipelineStage → Option Handler → Option Handler
  guarded_runtime stage none = none
  guarded_runtime stage (some h) =
      some
        (λ iec bus. if breaches stage then (raise (unexpected "OfflineBreach"), bus) else h iec bus)

  abbrev pub guarded_capability : Capability → Capability
  guarded_capability c = record c {
    run = λ iec stage bus.
        if breaches stage then (raise (unexpected "OfflineBreach"), bus) else c.run iec stage bus;
  }

  abbrev pub guarded_pipeline : InferencePipeline → InferencePipeline
  guarded_pipeline p = record p {
    registry = record p.registry {
      by_id = map (λ entry. (entry.0, guarded_capability entry.1)) p.registry.by_id;
    };
    runtime_handlers = λ stage. guarded_runtime stage (p.runtime_handlers stage);
  }

-- The guard refuses one of the attempts, which raises `OfflineBreach`, a `RuntimeError`.
unfoldable pub is_breached : OfflineGuard → List Attempt → Bool
unfolding attempt_all
is_breached g tries = any (λ t. is_refused t.1) (attempt_all tries g).0

-- The attempts of a stage, up to one that is refused.
abbrev pub made : List Attempt → List Attempt
made [] = []
made (a ∷ rest) = let others = made rest in if is_loopback (host_of a) then a ∷ others else a ∷ []

-- The stages that a run has recorded, and the metrics stage of a failed run, which runs outside of
-- any span.
abbrev pub is_reached : PipelineStage → Run → Bool
is_reached stage r = any (λ x. str_eq x.stage (stage_value stage)) r.iec.stages

abbrev attempts_in : List PipelineStage → (PipelineStage → List Attempt) → Run → List Attempt
attempts_in [] attempts r = []
attempts_in (stage ∷ stages) attempts r =
    let rest = attempts_in stages attempts r in
    if is_reached stage r then made (attempts stage) ++ rest else rest

unfoldable pub attempts_of : (PipelineStage → List Attempt) → Run → List Attempt
unfolding RuntimeState-discrete is_loopback
attempts_of attempts r =
    attempts_in stage_order attempts r
    ++ (if is_state r.machine.state failed then made (attempts metrics_finalization) else [])

module _ (s : Setting) where
  unfoldable pub open_session : String → Service → String × Service
  unfolding create record_session emit
  open_session sid v = (
    sid,
    record v {
      sessions = create sid s.profile_id v.sessions;
      corpus = record_session s.library sid s.profile_id s.now v.corpus;
      core = record v.core {
        bus = emit session_started sid "runtime" (("profile", text s.profile_id) ∷ []) v.core.bus;
      };
      current = some sid;
    },
  )

  -- `session or self._session or self.open_session()`
  unfoldable pub session_for : Call → Service → String × Service
  unfolding open_session
  session_for c v = elim (first_of c.session v.current) [
    | none ↦ open_session c.fresh_id v
    | some sid ↦ (sid, v)
  ]

  abbrev pub set_machine : StateMachine → Service → Service
  set_machine m v = record v { core = record v.core { machine = m } }

  -- The transition back to `ready`, after a run that was stopped or has ended.
  unfoldable pub settle :
      Bool → InferenceExecutionContext → Service → Result InferenceExecutionContext × Service
  settle wanted iec v =
      if wanted
      then elim (transition s.now ready v.core.machine) [
        | raise e ↦ (raise e, v)
        | ok m ↦ (ok iec, set_machine m v)
      ]
      else (ok iec, v)

  -- The contract check and the return.
  unfoldable pub conclude :
      Call → InferenceExecutionContext → Service → Result InferenceExecutionContext × Service
  unfolding settle verify evolve RuntimeState-discrete
  conclude c iec v =
      let violations = verify true iec in
      let ended = is_state v.core.machine.state completed || is_state v.core.machine.state failed in
      elim c.stop_after [
        | some stage ↦ settle (not (is_state v.core.machine.state ready)) iec v
        | none ↦
            if c.check_contract
            then if is_empty violations
              then settle ended iec v
              else elim (evolve
                  (set_trace (put_entry "dic_violations" (s.violations_entry violations) iec.trace)
                    ∷ [])
                  iec) [ raise e ↦ (raise e, v) | ok checked ↦ settle ended checked v ]
            else settle ended iec v
      ]

  -- `finally` and what follows it, for a run that has returned.
  unfoldable pub record_run :
      Call
      → String
      → String
      → OfflineGuard
      → InferenceExecutionContext
      → Service
      → Result InferenceExecutionContext × Service
  unfolding conclude evolve record_metrics
  record_run c sid rid guard iec v =
      let trace =
        put_entry "runtime" s.runtime_entry
          (put_entry "offline" (map s.report guard.violations) iec.trace) in
      elim (evolve (set_trace trace ∷ []) iec) [
        | raise e ↦ (raise e, v)
        | ok traced ↦ elim traced.metrics [
          | none ↦ conclude c traced v
          | some metrics ↦ conclude c traced (record v {
            corpus = record_metrics s.library rid sid s.now (s.payload metrics) v.corpus;
          })
        ]
      ]

  abbrev pub after_run : Run → Sockets → Service → Service
  after_run r sockets v = record v {
    core = record v.core { machine = r.machine; bus = r.telemetry.bus };
    sockets = sockets;
  }

  -- How the guarded run ends; a run that has raised passes its exception on.
  unfoldable pub finish :
      Call
      → String
      → String
      → OfflineGuard
      → Sockets
      → Flow
      → Service
      → Result InferenceExecutionContext × Service
  unfolding record_run
  finish c sid rid guard sockets (returned r) v =
      record_run c sid rid guard r.iec (after_run r sockets v)
  finish c sid rid guard sockets (next r) v =
      record_run c sid rid guard r.iec (after_run r sockets v)
  finish c sid rid guard sockets (raised e r) v = (raise e, after_run r sockets v)

  -- From the request on.
  unfoldable pub serve :
      Call → String → String → Service → Result InferenceExecutionContext × Service
  unfolding finish run enter exit attempt_all is_breached attempts_of
  serve c sid rid v =
      let guard : OfflineGuard = record {
        enabled = s.enforce_offline;
        strict = true;
        violations = [];
        original_connect = none;
        original_getaddrinfo = none;
      } in
      let entered = enter guard v.sockets in
      let breaches =
        λ (stage : PipelineStage). s.enforce_offline && is_breached entered.0 (c.attempts stage) in
      let iec = new_context sid rid (s.strip c.question) s.profile_id in
      let flow =
        run (guarded_pipeline breaches s.pipeline) s.now c.stop_after iec v.core.machine
          v.core.bus in
      let tried =
        if s.enforce_offline
        then (attempt_all (attempts_of c.attempts (flow_run flow)) entered.0).1
        else entered.0 in
      let left = exit tried entered.1 in finish c sid rid left.0 left.1 flow v

  -- The next request of a session.
  unfoldable pub answer_in : Call → String → Service → Result InferenceExecutionContext × Service
  unfolding serve get next_request_id
  answer_in c sid v = elim (get sid v.sessions) [
    | none ↦ (raise (unexpected "no such session"), v)
    | some session ↦
        let (rid, counted) = next_request_id s.format session in
        serve c sid rid (record v { sessions = put sid counted v.sessions })
  ]

  unfoldable pub ask_loaded : Call → Service → Result InferenceExecutionContext × Service
  unfolding answer_in session_for
  ask_loaded c v = let (sid, opened) = session_for c v in answer_in c sid opened

  abbrev pub after_load :
      Call
      → Result (Unit {0}) × LeanlmRuntime
      → Service
      → Result InferenceExecutionContext × Service
  after_load c (raise e, core) v = (raise e, record v { core = core })
  after_load c (ok _, core) v = ask_loaded c (record v { core = core })

  unfoldable pub ask : Call → Service → Result InferenceExecutionContext × Service
  unfolding ask_loaded load
  ask c v =
      if is_blank c.question || is_blank (s.strip c.question)
      then (
        raise (
            input_error "RT-001" "the question is empty" "runtime" "session_creation"
              "type a question"),
        v,
      )
      else after_load c (load s.now s.backend v.core) v

  -- One call after the other, each with what it returns.
  abbrev pub ask_all : List Call → Service → List (Result InferenceExecutionContext) × Service
  ask_all [] v = ([], v)
  ask_all (c ∷ cs) v =
      let (result, later) = ask c v in
      let (results, last) = ask_all cs later in (result ∷ results, last)

  abbrev requests_of : Option Session → ℕ
  requests_of none = 0
  requests_of (some session) = session.request_count

  abbrev is_current : String → Option String → Bool
  is_current sid none = false
  is_current sid (some current) = str_eq sid current

  unfoldable pub close_session : Option String → Service → Service
  unfolding close get emit
  close_session given v = elim (first_of given v.current) [
    | none ↦ v
    | some sid ↦
        let requests = requests_of (get sid v.sessions) in
        record v {
          sessions = close sid v.sessions;
          corpus = Corpus.close_session s.library sid s.now requests v.corpus;
          core = record v.core {
            bus = emit session_closed sid "runtime" (("requests", number requests) ∷ []) v.core.bus;
          };
          current = if is_current sid v.current then none else v.current;
        }
  ]
