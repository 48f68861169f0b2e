-- ===== src/Runtime/StateMachine.antt =====
-- The runtime state machine (runtime/state_machine.py). The clock reading that `transition` puts
-- into the history is an argument.
pub mod Lifecycle
use mathlib.Core.Logic.{ite}
use leanlm.Common.{String, str_append, Bool, true, false, List, [], ◌∷◌, ◌++◌, if◌then◌else◌, ◌||◌}
use leanlm.Shared.Errors.{Result, ok, raise, contract_error}

pub data RuntimeState : Type 0 where
  idle loading ready optimizing retrieving prompt_ready inferencing validating : RuntimeState
  completed failed : RuntimeState

unfoldable pub RuntimeState-discrete : Discrete RuntimeState
RuntimeState-discrete = hlevel

-- The `str` value of a member.
abbrev pub state_value : RuntimeState → String
state_value idle = "idle"
state_value loading = "loading"
state_value ready = "ready"
state_value optimizing = "optimizing"
state_value retrieving = "retrieving"
state_value prompt_ready = "prompt_ready"
state_value inferencing = "inferencing"
state_value validating = "validating"
state_value completed = "completed"
state_value failed = "failed"

-- `_ALLOWED`.
unfoldable pub allowed : RuntimeState → List RuntimeState
allowed idle = loading ∷ failed ∷ []
allowed loading = ready ∷ failed ∷ []
allowed ready = optimizing ∷ loading ∷ idle ∷ failed ∷ []
allowed optimizing = retrieving ∷ ready ∷ failed ∷ []
allowed retrieving = prompt_ready ∷ ready ∷ failed ∷ []
allowed prompt_ready = inferencing ∷ ready ∷ failed ∷ []
allowed inferencing = validating ∷ failed ∷ []
allowed validating = completed ∷ failed ∷ []
allowed completed = ready ∷ idle ∷ failed ∷ []
allowed failed = ready ∷ idle ∷ []

-- `target in states`.
unfoldable pub is_in : RuntimeState → List RuntimeState → Bool
unfolding RuntimeState-discrete
is_in t [] = false
is_in t (s ∷ ss) = ite (RuntimeState-discrete t s) true false || is_in t ss

pub record StateMachine : Type 0 where
  pub state : RuntimeState
  pub history : List (String × String)

abbrev pub new_machine : StateMachine
new_machine = record { state = idle; history = [] }

-- The text of a step in the history and in the error.
abbrev pub arrow : String → RuntimeState → RuntimeState → String
arrow mark a b = str_append (state_value a) (str_append mark (state_value b))

unfoldable pub transition : String → RuntimeState → StateMachine → Result StateMachine
unfolding allowed is_in
transition now target m =
    if is_in target (allowed m.state)
    then ok
        (record { state = target; history = m.history ++ (now, arrow "->" m.state target) ∷ [] })
    else raise (
        contract_error "RTS-001"
          (str_append "illegal runtime transition " (arrow " -> " m.state target)) "runtime"
          "unknown" "a stage ran out of order; DIC-01 fixes the lifecycle")

unfoldable pub reset : StateMachine → StateMachine
reset m = record { state = idle; history = [] }
