-- ===== src/Scenarios/Calls.antt =====
-- Concrete sequences of calls on the state machine, the document state, the registry and the bus.
use leanlm.Common.{String, ◌≡◌, refl, true, some, List, [], ◌∷◌, ◌++◌, map}
use leanlm.Shared.Errors.{ok}
use leanlm.Shared.Events.{Event, session_started, session_closed}
use leanlm.Contracts.Iec.{InferenceExecutionContext}
use leanlm.Contracts.Capability.{CapabilityRegistry}
use leanlm.Contracts.Ddp
use leanlm.Contracts.Ddp.{
  DocumentPipelineState, new_state, validated, normalized, set_normalized_text, advance,
}
use leanlm.Contracts.Ddp.Progress.{Call, advance_all}
use leanlm.Runtime.StateMachine.{
  loading, ready, optimizing, retrieving, prompt_ready, inferencing, validating, completed,
  StateMachine, transition, is_in, allowed,
}
use leanlm.Runtime.StateMachine.Lifecycle.{
  Reached, start, move, text_of, completed_needs_every_phase,
}
use leanlm.Runtime.Dic.{verify}
use leanlm.Runtime.Dic.Soundness.{Conforms, verify-Conforms}
use leanlm.Scenarios.Wiring.{blank, worker}

abbrev at_completed : StateMachine
at_completed = record {
  state = completed;
  history =
      ("t", "idle->loading")
      ∷ ("t", "loading->ready")
      ∷ ("t", "ready->optimizing")
      ∷ ("t", "optimizing->retrieving")
      ∷ ("t", "retrieving->prompt_ready")
      ∷ ("t", "prompt_ready->inferencing")
      ∷ ("t", "inferencing->validating")
      ∷ ("t", "validating->completed")
      ∷ [];
}

at_completed-Reached : Reached at_completed
unfolding transition is_in allowed
at_completed-Reached =
    move "t" completed
      (move "t" validating
        (move "t" inferencing
          (move "t" prompt_ready
            (move "t" retrieving
              (move "t" optimizing (move "t" ready (move "t" loading start refl) refl) refl) refl)
            refl)
          refl)
        refl)
      refl

completed_needs_every_phase_example :
    (earlier : List String) × (map text_of at_completed.history
      ≡ earlier
        ++ "ready->optimizing" ∷ "optimizing->retrieving" ∷ "retrieving->prompt_ready"
          ∷ "prompt_ready->inferencing" ∷ "inferencing->validating" ∷ "validating->completed" ∷ [])
completed_needs_every_phase_example =
    completed_needs_every_phase at_completed at_completed-Reached refl

-- A context with what the verifier asks for.
abbrev measured : InferenceExecutionContext
measured = record blank {
  metrics =
      some (record { total_ms = some 900; prompt_tokens = some 120; peak_rss_mb = some 2048 });
}

verify-Conforms_example : Conforms true measured
unfolding verify
verify-Conforms_example = verify-Conforms true measured refl

abbrev document : DocumentPipelineState
document = new_state "data/a.txt"

abbrev steps : List Call
steps = (validated, []) ∷ (normalized, set_normalized_text (97 ∷ []) ∷ []) ∷ []

abbrev document_after : DocumentPipelineState
document_after = record document { revision = 3; state = normalized; normalized_text = 97 ∷ [] }

steps-accepted : advance_all steps document ≡ ok document_after
unfolding advance Ddp.evolve Ddp.apply_all Ddp.apply_change
steps-accepted = refl

abbrev one_worker : CapabilityRegistry
one_worker = record { by_id = ("c1", worker) ∷ []; order = "c1" ∷ [] }

abbrev opened : Event
opened = record { name = session_started; session_id = "s1"; capability = "runtime"; payload = [] }

abbrev closed : Event
closed = record { name = session_closed; session_id = "s1"; capability = "runtime"; payload = [] }
