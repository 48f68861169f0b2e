-- ===== src/Runtime/StateMachine/Lifecycle.antt =====
-- Which lives a runtime state machine (runtime/state_machine.py) can have.
use leanlm.Common.{
  true, map, map-append, append-nil, sym, subst, ap, ap₂, ◌∙◌, String, ◌≡◌, ◌≢◌, refl, List, [],
  ◌∷◌, ◌++◌, arith, append_assoc,
}
use leanlm.Shared.Errors.{ok}
use leanlm.Runtime.StateMachine.{
  RuntimeState, ready, optimizing, retrieving, prompt_ready, inferencing, validating, completed,
  StateMachine, new_machine, arrow, transition, allowed, reset, is_in,
}

-- The machines that a new one can become by accepted transitions and resets.
pub data Reached : StateMachine → Type 0 where
  start : Reached new_machine
  move :
      {m : StateMachine} {m' : StateMachine} (now : String) (target : RuntimeState)
      → Reached m
      → transition now target m ≡ ok m'
      → Reached m'
  restart : {m : StateMachine} → Reached m → Reached (reset m)

-- The only state with an edge into each state of the inference path.
abbrev source_of : RuntimeState → RuntimeState
source_of completed = validating
source_of validating = inferencing
source_of inferencing = prompt_ready
source_of prompt_ready = retrieving
source_of retrieving = optimizing
source_of optimizing = ready
source_of other = other

edge-source : (s t : RuntimeState) → is_in t (allowed s) ≡ true → source_of t ≢ t → s ≡ source_of t
unfolding is_in allowed
edge-source s t h fl = ground arith

pub transition-eq-ok :
    (now : String) (t : RuntimeState) (m : StateMachine) {m' : StateMachine}
    → transition now t m ≡ ok m'
    → (is_in t (allowed m.state) ≡ true)
      × (m' ≡ record { state = t; history = m.history ++ (now, arrow "->" m.state t) ∷ [] })
unfolding transition
transition-eq-ok now t m h = ground arith

-- The machine before the last transition.
record Last (m : StateMachine) (source : RuntimeState) : Type 0 where
  before : StateMachine
  reached : Reached before
  was : before.state ≡ source
  at : String
  grown : m.history ≡ before.history ++ (at, arrow "->" source m.state) ∷ []

Reached-Last :
    {m : StateMachine} → Reached m → source_of m.state ≢ m.state → Last m (source_of m.state)
unfolding reset
Reached-Last start fl = absurd (fl refl)
Reached-Last (restart r) fl = absurd (fl refl)
Reached-Last {m} (move {m = b} now t r h) fl =
    let (edge, e) = transition-eq-ok now t b h in
    subst (λ x. source_of x.state ≢ x.state → Last x (source_of x.state)) (sym e)
      (λ flight.
        let was = edge-source b.state t edge flight in
        record {
          before = b;
          reached = r;
          was = was;
          at = now;
          grown = ap (λ (a : RuntimeState). b.history ++ (now, arrow "->" a t) ∷ []) was;
        })
      fl

-- How a reached machine in a state of the inference path came to be there.
came_from :
    {m : StateMachine} (s t : RuntimeState)
    → Reached m
    → m.state ≡ t
    → source_of t ≡ s
    → s ≢ t
    → (b : StateMachine) × Reached b
      × (b.state ≡ s)
      × ((now : String) × (m.history ≡ b.history ++ (now, arrow "->" s t) ∷ []))
came_from {m} s t r e src ne =
    let h : source_of m.state ≡ s = ap source_of e ∙ src in
    let l : Last m (source_of m.state) = Reached-Last r (λ same. ne (sym h ∙ same ∙ e)) in
    (
      l.before,
      l.reached,
      l.was ∙ h,
      (l.at, l.grown ∙ ap₂ (λ a c. l.before.history ++ (l.at, arrow "->" a c) ∷ []) h e),
    )

abbrev pub text_of : String × String → String
text_of (at, text) = text

abbrev texts : StateMachine → List String
texts m = map text_of m.history

-- The history of a machine in state `s` ends with the given steps.
abbrev EndsWith : List String → RuntimeState → Type 0
EndsWith steps s =
    (m : StateMachine)
    → Reached m
    → m.state ≡ s
    → (earlier : List String) × (texts m ≡ earlier ++ steps)

EndsWith-nil : (s : RuntimeState) → EndsWith [] s
EndsWith-nil s m r e = (texts m, sym (append-nil (texts m)))

EndsWith-snoc :
    {steps : List String} (s t : RuntimeState)
    → source_of t ≡ s
    → s ≢ t
    → EndsWith steps s
    → EndsWith (steps ++ arrow "->" s t ∷ []) t
EndsWith-snoc {steps} s t src ne before m r e =
    let (b, reached, was, (now, grown)) = came_from s t r e src ne in
    let (earlier, old) = before b reached was in
    (
      earlier,
      ap (map text_of) grown
          ∙ map-append text_of b.history ((now, arrow "->" s t) ∷ [])
          ∙ ap (λ l. l ++ arrow "->" s t ∷ []) old
          ∙ append_assoc earlier steps (arrow "->" s t ∷ []),
    )

-- Whatever transitions are tried on a new machine, and however often it is reset, a machine that
-- is in `completed` has just gone through all the phases of one inference: its history ends with
-- the steps from `ready` through `optimizing`, `retrieving`, `prompt_ready`, `inferencing` and
-- `validating` to `completed`, with nothing between them.
pub completed_needs_every_phase :
    (m : StateMachine)
    → Reached m
    → m.state ≡ completed
    → (earlier : List String) × (map text_of m.history
        ≡ earlier
          ++ "ready->optimizing" ∷ "optimizing->retrieving" ∷ "retrieving->prompt_ready"
            ∷ "prompt_ready->inferencing" ∷ "inferencing->validating" ∷ "validating->completed"
            ∷ [])
completed_needs_every_phase =
    EndsWith-snoc validating completed refl (λ e. cc)
      (EndsWith-snoc inferencing validating refl (λ e. cc)
        (EndsWith-snoc prompt_ready inferencing refl (λ e. cc)
          (EndsWith-snoc retrieving prompt_ready refl (λ e. cc)
            (EndsWith-snoc optimizing retrieving refl (λ e. cc)
              (EndsWith-snoc ready optimizing refl (λ e. cc) (EndsWith-nil ready))))))
