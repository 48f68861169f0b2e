-- ===== src/Runtime/Loading.antt =====
-- Loading the model (runtime/runtime.py, `load`). The swap of the token counter is left out; what
-- the backend's own `load` does is an argument.
pub mod Retry
use leanlm.Common.{String, Bool, true, false, List, [], ◌∷◌, if◌then◌else◌}
use leanlm.Shared.Errors.{Result, ok, raise}
use leanlm.Shared.Events.{EventBus, model_loaded, text, emit}
use leanlm.Runtime.StateMachine.{StateMachine, transition, loading, ready}

pub record LeanlmRuntime : Type 0 where
  pub machine : StateMachine
  pub loaded : Bool
  pub bus : EventBus

-- The model backend: its name, the model, and how its `load` ends.
pub record Backend : Type 0 where
  pub name : String
  pub model_id : String
  pub load : Result (Unit {0})

-- What follows the backend's `load`.
unfoldable pub finish_load : String → Backend → LeanlmRuntime → Result (Unit {0}) × LeanlmRuntime
finish_load now backend r = elim (transition now ready r.machine) [
  | raise e ↦ (raise e, record r { loaded = true })
  | ok m ↦ (
    ok tt,
    record {
      machine = m;
      loaded = true;
      bus =
          emit model_loaded "-" "runtime"
            (("backend", text backend.name) ∷ ("model_id", text backend.model_id) ∷ []) r.bus;
    },
  )
]

unfoldable pub load : String → Backend → LeanlmRuntime → Result (Unit {0}) × LeanlmRuntime
unfolding finish_load
load now backend r = if r.loaded then (ok tt, r) else elim (transition now loading r.machine) [
  | raise e ↦ (raise e, r)
  | ok m ↦ elim backend.load [
    | raise e ↦ (raise e, record r { machine = m })
    | ok _ ↦ finish_load now backend (record r { machine = m })
  ]
]
