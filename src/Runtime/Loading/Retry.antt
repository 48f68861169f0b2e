-- ===== src/Runtime/Loading/Retry.antt =====
-- Loading, and loading again after a failure (runtime/runtime.py).
use leanlm.Common.{sym, subst, [], ◌∷◌, ◌++◌, String, ◌≡◌, refl, true, false, arith}
use leanlm.Shared.Errors.{Exception, Result, ok, raise, contract_error}
use leanlm.Shared.Events.{model_loaded, text, emit}
use leanlm.Runtime.StateMachine.{
  RuntimeState, StateMachine, transition, loading, ready, is_in, allowed, arrow,
}
use leanlm.Runtime.Loading.{LeanlmRuntime, Backend, finish_load, load}

-- The error of a transition from `loading` to itself.
abbrev pub loading_refused : Exception
loading_refused =
    contract_error "RTS-001" "illegal runtime transition loading -> loading" "runtime" "unknown"
      "a stage ran out of order; DIC-01 fixes the lifecycle"

-- The machine after a transition.
abbrev moved : String → RuntimeState → StateMachine → StateMachine
moved now t m = record { state = t; history = m.history ++ (now, arrow "->" m.state t) ∷ [] }

transition-moved :
    (now : String) (t : RuntimeState) (m : StateMachine)
    → is_in t (allowed m.state) ≡ true
    → transition now t m ≡ ok (moved now t m)
unfolding transition
transition-moved now t m h = rw h refl

load_fails :
    (now : String) (backend : Backend) (r : LeanlmRuntime) (e : Exception)
    → r.loaded ≡ false
    → is_in loading (allowed r.machine.state) ≡ true
    → backend.load ≡ raise e
    → load now backend r ≡ (raise e, record r { machine = moved now loading r.machine })
unfolding load
load_fails now backend r e fresh may fails =
    ground (arith, transition-moved now loading r.machine may)

-- The runtime once it is loaded.
abbrev loaded_by : String → Backend → LeanlmRuntime → LeanlmRuntime
loaded_by now backend r = record {
  machine = moved now ready (moved now loading r.machine);
  loaded = true;
  bus =
      emit model_loaded "-" "runtime"
        (("backend", text backend.name) ∷ ("model_id", text backend.model_id) ∷ []) r.bus;
}

finish_load-moved :
    (now : String) (backend : Backend) (r : LeanlmRuntime)
    → is_in ready (allowed r.machine.state) ≡ true
    → finish_load now backend r ≡ (
      ok tt,
      record {
        machine = moved now ready r.machine;
        loaded = true;
        bus =
            emit model_loaded "-" "runtime"
              (("backend", text backend.name) ∷ ("model_id", text backend.model_id) ∷ [])
              r.bus;
      },
    )
unfolding finish_load
finish_load-moved now backend r h = rw (finish_load, transition-moved now ready r.machine h) refl

load_loads :
    (now : String) (backend : Backend) (r : LeanlmRuntime)
    → r.loaded ≡ false
    → is_in loading (allowed r.machine.state) ≡ true
    → backend.load ≡ ok tt
    → load now backend r ≡ (ok tt, loaded_by now backend r)
unfolding load is_in allowed
load_loads now backend r fresh may loads = ground (
  arith,
  transition-moved now loading r.machine may,
  finish_load-moved now backend (record r { machine = moved now loading r.machine }) refl,
)

loaded_again :
    (now : String) (again : Backend) (r : LeanlmRuntime)
    → r.loaded ≡ true
    → load now again r ≡ (ok tt, r)
unfolding load
loaded_again now again r h = rw h refl

transition_refused :
    (now : String) (m : StateMachine)
    → m.state ≡ loading
    → transition now loading m ≡ raise loading_refused
unfolding transition is_in allowed
transition_refused now m h = rw h refl

refused_again :
    (now : String) (again : Backend) (r : LeanlmRuntime)
    → r.loaded ≡ false
    → r.machine.state ≡ loading
    → load now again r ≡ (raise loading_refused, r)
unfolding load
refused_again now again r fresh h = ground (arith, transition_refused now r.machine h)

-- A runtime that is not loaded, whose machine may go to `loading`, is loaded and `ready` after a
-- backend that loads, and any further `load`, with any backend, then changes nothing.
load-ready :
    (now : String) (backend again : Backend) (r : LeanlmRuntime)
    → r.loaded ≡ false
    → is_in loading (allowed r.machine.state) ≡ true
    → backend.load ≡ ok tt
    → let after = (load now backend r).1 in
      (after.machine.state ≡ ready)
      × (after.loaded ≡ true)
      × (load now again after ≡ (ok tt, after))
load-ready now backend again r fresh may loads =
    subst
      (λ (p : Result (Unit {0}) × LeanlmRuntime).
        (p.1.machine.state ≡ ready) × (p.1.loaded ≡ true) × (load now again p.1 ≡ (ok tt, p.1)))
      (sym (load_loads now backend r fresh may loads))
      (refl, refl, loaded_again now again (loaded_by now backend r) refl)

-- When the backend's `load` fails, the machine stays in `loading`, and the next `load`, with any
-- backend, is refused with RTS-001 and changes nothing.
pub load_refused :
    (now : String) (backend again : Backend) (r : LeanlmRuntime) (e : Exception)
    → r.loaded ≡ false
    → is_in loading (allowed r.machine.state) ≡ true
    → backend.load ≡ raise e
    → let after = (load now backend r).1 in
      (after.machine.state ≡ loading) × (load now again after ≡ (raise loading_refused, after))
load_refused now backend again r e fresh may fails =
    subst
      (λ (p : Result (Unit {0}) × LeanlmRuntime).
        (p.1.machine.state ≡ loading) × (load now again p.1 ≡ (raise loading_refused, p.1)))
      (sym (load_fails now backend r e fresh may fails))
      (
        refl,
        refused_again now again (record r { machine = moved now loading r.machine }) fresh refl,
      )
