-- ===== src/Runtime/Asking/Serving.antt =====
-- A runtime between two questions (runtime/runtime.py).
use mathlib.Core.Path.{fun_ext}
use leanlm.Common.{
  ◌+◌, ◌≡◌, refl, sym, ap, ap₂, ◌∙◌, subst, String, str_eq, eq_iff, Bool, true, false, ◌||◌, ◌&&◌,
  ◌⊎◌, inl, inr, Option, none, some, List, [], ◌∷◌, is_empty, map, if◌then◌else◌, if-ind,
  Bool-cases, All,
}
use leanlm.Shared.Errors.{Result, ok, Result-ind, Option-ind}
use leanlm.Contracts.Iec.{
  PipelineStage, InferenceExecutionContext, evolve, apply_all, apply_change, put_entry,
}
use leanlm.Trust.OfflineGuard.Blocking.{exit-enter}
use leanlm.Trust.OfflineGuard.{
  enter, exit, attempt, attempt_all, Attempt, host_of, is_loopback, Sockets, OfflineGuard,
}
use leanlm.Runtime.StateMachine.{
  RuntimeState, RuntimeState-discrete, ready, completed, failed, StateMachine, transition, is_in,
  allowed,
}
use leanlm.Runtime.Dic.{verify}
use leanlm.Runtime.Loading.{LeanlmRuntime, Backend, load}
use leanlm.Runtime.Session.{Session, SessionManager, create, get, put, next_request_id}
use leanlm.Runtime.Pipeline.Endings.{IsWired, run_returns}
use leanlm.Runtime.Pipeline.{Handler, InferencePipeline, Flow, returned, flow_run}
use leanlm.Contracts.Capability.{Capability}
use leanlm.Runtime.Corpus.{record_metrics}
use leanlm.Runtime.Asking.{
  guarded_runtime, guarded_capability, guarded_pipeline, is_breached, attempts_of, new_context,
  answer_in, after_load, ask_all, Service, Setting, Call, is_blank, is_state, open_session,
  session_for, settle, conclude, record_run, after_run, finish, serve, ask_loaded, ask,
}

-- A call without a session of its own and without an early stop.
abbrev pub plain_call : String → Bool → String → (PipelineStage → List Attempt) → Call
plain_call question check fresh attempts = record {
  question = question;
  session = none;
  check_contract = check;
  stop_after = none;
  fresh_id = fresh;
  attempts = attempts;
}

abbrev Known : String → SessionManager → Type 0
Known sid m = (session : Session) × (get sid m ≡ some session)

abbrev HasCurrent : Option String → SessionManager → Type 0
HasCurrent none m = Unit
HasCurrent (some sid) m = Known sid m

-- The model is loaded, the machine is ready, and the current session, if any, is known.
pub record IsServing (v : Service) : Type 0 where
  pub loaded : v.core.loaded ≡ true
  pub ready_state : v.core.machine.state ≡ ready
  pub session : HasCurrent v.current v.sessions

get-put : (sid : String) (x : Session) (m : SessionManager) → get sid (put sid x m) ≡ some x
unfolding get
get-put sid x [] = rw ((eq_iff sid sid).1 refl) refl
get-put sid x ((k, y) ∷ m) =
    if-ind (λ l. get sid l ≡ some x) (str_eq k sid) (λ same. rw same refl)
      (λ other. rw other (get-put sid x m))

Known-cons :
    (k j : String) (x y : Session) (m later : SessionManager)
    → Known k ((j, y) ∷ m)
    → (Known k m → Known k later)
    → Known k ((j, x) ∷ later)
unfolding get
Known-cons k j x y m later h further = elim (Bool-cases (str_eq j k)) [
  | inl same ↦ (x, rw same refl)
  | inr other ↦ let found = further (h.0, rw other at h.1) in (found.0, rw other found.1)
]

Known-put : (k sid : String) (x : Session) (m : SessionManager) → Known k m → Known k (put sid x m)
unfolding get
Known-put k sid x [] h = absurd (cc (h.1))
Known-put k sid x ((j, y) ∷ m) h =
    if-ind (Known k) (str_eq j sid) (λ _. Known-cons k j x y m m h (λ again. again))
      (λ _. Known-cons k j y y m (put sid x m) h (Known-put k sid x m))

-- Both ends of a run lead back to `ready`.
ready_again :
    (now : String) (st : RuntimeState) (h : List (String × String))
    → (st ≡ completed) ⊎ (st ≡ failed)
    → (m : StateMachine) × (transition now ready (record { state = st; history = h }) ≡ ok m)
      × (m.state ≡ ready)
unfolding transition is_in allowed RuntimeState-discrete
ready_again now st h (inl e) = rw e (_, refl, refl)
ready_again now st h (inr e) = rw e (_, refl, refl)

ended :
    (st : RuntimeState)
    → (st ≡ completed) ⊎ (st ≡ failed)
    → (is_state st completed || is_state st failed) ≡ true
unfolding RuntimeState-discrete
ended st (inl e) = rw e refl
ended st (inr e) = rw e refl

create-Known : (sid profile : String) (m : SessionManager) → Known sid (create sid profile m)
unfolding create
create-Known sid profile m = (_, get-put sid _ m)

HasCurrent-put :
    (current : Option String) (sid : String) (x : Session) (m : SessionManager)
    → HasCurrent current m
    → HasCurrent current (put sid x m)
HasCurrent-put none sid x m h = tt
HasCurrent-put (some k) sid x m h = Known-put k sid x m h

-- A call that has returned a context and left the runtime serving, with the sockets as they were.
abbrev IsServed : Sockets → Result InferenceExecutionContext × Service → Type 0
IsServed sockets out =
    ((iec : InferenceExecutionContext) × (out.0 ≡ ok iec))
    × IsServing out.1
    × (out.1.sockets ≡ sockets)

-- A runtime whose run has just ended.
record HasEnded (sockets : Sockets) (v : Service) : Type 0 where
  loaded : v.core.loaded ≡ true
  at_end : (v.core.machine.state ≡ completed) ⊎ (v.core.machine.state ≡ failed)
  session : HasCurrent v.current v.sessions
  restored : v.sockets ≡ sockets

module _ (s : Setting) (question fresh : String) (check : Bool)
    (attempts : PipelineStage → List Attempt) where
  abbrev call : Call
  call = plain_call question check fresh attempts

  settle-IsServed :
      (sockets : Sockets) (iec : InferenceExecutionContext) (v : Service)
      → HasEnded sockets v
      → IsServed sockets (settle s true iec v)
  unfolding settle
  settle-IsServed sockets iec v h =
      let (m, moved, arrived) =
        ready_again s.now v.core.machine.state v.core.machine.history h.at_end in
      Result-ind (IsServed sockets) (transition s.now ready v.core.machine)
        (λ m' held.
          let same : m' ≡ m = cc (held, moved) in
          (
            (iec, refl),
            record {
              loaded = h.loaded;
              ready_state = ap (λ (x : StateMachine). x.state) same ∙ arrived;
              session = h.session;
            },
            h.restored,
          ))
        (λ e held. absurd (cc (held, moved)))

  conclude-IsServed :
      (sockets : Sockets) (iec : InferenceExecutionContext) (v : Service)
      → HasEnded sockets v
      → IsServed sockets (conclude s call iec v)
  unfolding conclude evolve apply_all apply_change
  conclude-IsServed sockets iec v h =
      let st = v.core.machine.state in
      let all_ended = ended st h.at_end in
      let settled = λ (later : InferenceExecutionContext).
        subst (λ b. IsServed sockets (settle s b later v)) (sym all_ended)
          (settle-IsServed sockets later v h) in
      if-ind (IsServed sockets) check
        (λ _.
          if-ind (IsServed sockets) (is_empty (verify true iec)) (λ _. settled iec)
            (λ _. settled _))
        (λ _. settled iec)

  record_run-IsServed :
      (sid rid : String) (guard : OfflineGuard) (sockets : Sockets)
      (iec : InferenceExecutionContext) (v : Service)
      → HasEnded sockets v
      → IsServed sockets (record_run s call sid rid guard iec v)
  unfolding record_run evolve apply_all apply_change record_metrics
  record_run-IsServed sid rid guard sockets iec v h =
      let traced : InferenceExecutionContext = record iec {
        revision = iec.revision + 1;
        trace =
            put_entry "runtime" s.runtime_entry
              (put_entry "offline" (map s.report guard.violations) iec.trace);
      } in
      Option-ind (IsServed sockets) iec.metrics
        (λ metrics _.
          conclude-IsServed sockets traced
            (record v {
              corpus = record_metrics s.library rid sid s.now (s.payload metrics) v.corpus;
            })
            (record {
              loaded = h.loaded;
              at_end = h.at_end;
              session = h.session;
              restored = h.restored;
            }))
        (λ _. conclude-IsServed sockets traced v h)

  -- The guard has left the sockets as they were.
  left_restored :
      (sockets : Sockets) (guard : OfflineGuard) (tries : List Attempt)
      → guard.original_connect ≡ none
      → guard.original_getaddrinfo ≡ none
      → (exit
          (if s.enforce_offline
            then (attempt_all tries (enter guard sockets).0).1
            else (enter guard sockets).0)
          (enter guard sockets).1).1
        ≡ sockets
  unfolding enter attempt_all
  left_restored sockets guard tries c d =
      if-ind (λ g. (exit g (enter guard sockets).1).1 ≡ sockets) s.enforce_offline
        (λ _. exit-enter guard sockets tries c d) (λ _. exit-enter guard sockets [] c d)

-- No attempt is refused: the guard is off, or every attempt is on a host that it takes for local.
abbrev pub IsPermitted : Setting → (PipelineStage → List Attempt) → Type 0
IsPermitted s attempts =
    (s.enforce_offline ≡ false)
    ⊎ ((stage : PipelineStage) → All (λ a. is_loopback (host_of a) ≡ true) (attempts stage))

is_breached-local :
    (g : OfflineGuard) (tries : List Attempt)
    → All (λ a. is_loopback (host_of a) ≡ true) tries
    → is_breached g tries ≡ false
unfolding is_breached attempt_all attempt
is_breached-local g [] h = refl
is_breached-local g (a ∷ tries) h = rw (h.0) (is_breached-local g tries h.1)

guarded_by_nothing : (p : InferencePipeline) → guarded_pipeline (λ stage. false) p ≡ p
guarded_by_nothing p =
    ap₂
      (λ entries handlers. record p {
        registry = record p.registry { by_id = entries };
        runtime_handlers = handlers;
      })
      (same_entries p.registry.by_id)
      (fun_ext (λ stage. same_handler stage (p.runtime_handlers stage)))
  where
    same_entries :
        (entries : List (String × Capability))
        → map (λ entry. (entry.0, guarded_capability (λ stage. false) entry.1)) entries ≡ entries
    same_entries [] = refl
    same_entries (e ∷ entries) = ap (λ es. e ∷ es) (same_entries entries)

    same_handler :
        (stage : PipelineStage) (h : Option Handler) → guarded_runtime (λ stage. false) stage h ≡ h
    same_handler stage none = refl
    same_handler stage (some h) = refl

-- A guard that refuses nothing leaves the pipeline wired.
guarded-IsWired :
    (p : InferencePipeline) (now : String) (breaches : PipelineStage → Bool)
    → ((stage : PipelineStage) → breaches stage ≡ false)
    → IsWired p now none
    → IsWired (guarded_pipeline breaches p) now none
guarded-IsWired p now breaches quiet wired =
    subst (λ q. IsWired q now none)
      (sym (ap (λ b. guarded_pipeline b p) (fun_ext quiet) ∙ guarded_by_nothing p)) wired

not_breached :
    (s : Setting) (g : OfflineGuard) (attempts : PipelineStage → List Attempt)
    → IsPermitted s attempts
    → (stage : PipelineStage) → (s.enforce_offline && is_breached g (attempts stage)) ≡ false
not_breached s g attempts (inl off) stage = rw off refl
not_breached s g attempts (inr local) stage =
    rw (is_breached-local g (attempts stage) (local stage)) (and_false s.enforce_offline)
  where
    and_false : (b : Bool) → (b && false) ≡ false
    and_false true = refl
    and_false false = refl

module _ (s : Setting) (wired : IsWired s.pipeline s.now none) where
  serve-IsServed :
      (question fresh : String) (check : Bool) (attempts : PipelineStage → List Attempt)
      (sid rid : String) (v : Service)
      → IsPermitted s attempts
      → IsServing v
      → IsServed v.sockets (serve s (plain_call question check fresh attempts) sid rid v)
  unfolding serve finish
  serve-IsServed question fresh check attempts sid rid v permitted h =
      let iec = new_context sid rid (s.strip question) s.profile_id in
      let call : Call = plain_call question check fresh attempts in
      let guard : OfflineGuard = record {
        enabled = s.enforce_offline;
        strict = true;
        violations = [];
        original_connect = none;
        original_getaddrinfo = none;
      } in
      let entered = enter guard v.sockets in
      let breaches =
        λ (stage : PipelineStage). s.enforce_offline && is_breached entered.0 (attempts stage) in
      let still =
        guarded-IsWired s.pipeline s.now breaches (not_breached s entered.0 attempts permitted)
          wired in
      let (r, back, at_end) =
        run_returns (guarded_pipeline breaches s.pipeline) s.now iec v.core.machine v.core.bus still
          h.ready_state in
      let left = λ (flow : Flow).
        exit
          (if s.enforce_offline
            then (attempt_all (attempts_of attempts (flow_run flow)) entered.0).1
            else entered.0)
          entered.1 in
      subst (λ flow. IsServed v.sockets (finish s call sid rid (left flow).0 (left flow).1 flow v))
        (sym back)
        (record_run-IsServed s question fresh check attempts sid rid (left (returned r)).0 v.sockets
          r.iec (after_run s r (left (returned r)).1 v)
          (record {
            loaded = h.loaded;
            at_end = at_end;
            session = h.session;
            restored =
                left_restored s question fresh check attempts v.sockets guard
                  (attempts_of attempts r) refl refl;
          }))

  answer_in-IsServed :
      (question fresh : String) (check : Bool) (attempts : PipelineStage → List Attempt)
      (sid : String) (v : Service)
      → IsPermitted s attempts
      → IsServing v
      → Known sid v.sessions
      → IsServed v.sockets (answer_in s (plain_call question check fresh attempts) sid v)
  unfolding answer_in next_request_id
  answer_in-IsServed question fresh check attempts sid v permitted h known =
      Option-ind (IsServed v.sockets) (get sid v.sessions)
        (λ session _.
          let (rid, counted) = next_request_id s.format session in
          serve-IsServed question fresh check attempts sid rid
            (record v { sessions = put sid counted v.sessions }) permitted
            (record {
              loaded = h.loaded;
              ready_state = h.ready_state;
              session = HasCurrent-put v.current sid counted v.sessions h.session;
            }))
        (λ missing. absurd (cc (known.1, missing)))

  ask_loaded-IsServed :
      (question fresh : String) (check : Bool) (attempts : PipelineStage → List Attempt)
      (v : Service)
      → IsPermitted s attempts
      → IsServing v
      → IsServed v.sockets (ask_loaded s (plain_call question check fresh attempts) v)
  unfolding ask_loaded session_for open_session create
  ask_loaded-IsServed question fresh check attempts v permitted h =
      let call : Call = plain_call question check fresh attempts in
      Option-ind (λ (p : String × Service). IsServed v.sockets (answer_in s call p.0 p.1)) v.current
        (λ sid held.
          answer_in-IsServed question fresh check attempts sid v permitted h
            (subst (λ o. HasCurrent o v.sessions) held h.session))
        (λ _.
          let known = create-Known fresh s.profile_id v.sessions in
          answer_in-IsServed question fresh check attempts fresh (open_session s fresh v).1
            permitted (record { loaded = h.loaded; ready_state = h.ready_state; session = known })
            known)

load-loaded :
    (now : String) (backend : Backend) (r : LeanlmRuntime)
    → r.loaded ≡ true
    → load now backend r ≡ (ok tt, r)
unfolding load
load-loaded now backend r e = rw e refl

-- A question with what a call of its own brings along.
pub record Asked : Type 0 where
  pub question : String
  pub check : Bool
  pub fresh : String
  pub attempts : PipelineStage → List Attempt

abbrev pub call_of : Asked → Call
call_of q = plain_call q.question q.check q.fresh q.attempts

-- Neither the question nor what is left of it without the white space around it is empty, and no
-- attempt on the network is refused.
abbrev pub IsPosed : Setting → Asked → Type 0
IsPosed s q =
    ((is_blank q.question || is_blank (s.strip q.question)) ≡ false) × IsPermitted s q.attempts

module _ (s : Setting) (wired : IsWired s.pipeline s.now none) where
  ask-IsServed :
      (q : Asked) (v : Service)
      → IsPosed s q
      → IsServing v
      → IsServed v.sockets (ask s (call_of q) v)
  unfolding ask
  ask-IsServed q v posed h =
      if-ind (IsServed v.sockets) (is_blank q.question || is_blank (s.strip q.question))
        (λ blank. absurd (cc (blank, posed.0)))
        (λ _.
          subst (λ out. IsServed v.sockets (after_load s (call_of q) out v))
            (sym (load-loaded s.now s.backend v.core h.loaded))
            (ask_loaded-IsServed s wired q.question q.fresh q.check q.attempts v posed.1 h))

  all_served :
      (qs : List Asked) (v : Service)
      → All (IsPosed s) qs
      → IsServing v
      → let out = ask_all s (map call_of qs) v in
        All (λ r. (iec : InferenceExecutionContext) × (r ≡ ok iec)) out.0
        × IsServing out.1
        × (out.1.sockets ≡ v.sockets)
  all_served [] v posed h = (tt, h, refl)
  all_served (q ∷ qs) v posed h =
      let (answered, serving, restored) = ask-IsServed q v posed.0 h in
      let (others, still, unchanged) = all_served qs (ask s (call_of q) v).1 posed.1 serving in
      ((answered, others), still, unchanged ∙ restored)

-- A runtime whose model is loaded and whose pipeline is wired answers any number of questions, one
-- after the other, none of them empty, whose handlers make no attempt on the network that the guard
-- refuses: each call returns a context, also where a stage has failed, and in the end the machine is
-- `ready` again, the model is loaded, the current session is known, and the socket module has the
-- functions it had before.
pub ask_all-IsServing :
    (s : Setting) (qs : List Asked) (v : Service)
    → IsWired s.pipeline s.now none
    → All (IsPosed s) qs
    → IsServing v
    → let out = ask_all s (map call_of qs) v in
      All (λ r. (iec : InferenceExecutionContext) × (r ≡ ok iec)) out.0
      × IsServing out.1
      × (out.1.sockets ≡ v.sockets)
ask_all-IsServing s qs v wired posed h = all_served s wired qs v posed h
