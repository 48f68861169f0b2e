-- ===== src/Contracts/Ddp/Progress.antt =====
-- A document goes through the states of contracts/ddp.py one by one.
use native.Mathlib.Decide.{dec_lt}
use leanlm.Common.{
  length, ℕ, ◌+◌, ◌≤◌, ◌<◌, ◌≡◌, refl, ap, ◌∙◌, false, List, [], ◌∷◌, arith, any, ◌⊎◌, inl, inr,
}
use leanlm.Shared.Errors.{Result, ok, ◌>>=◌, Result-cases}
use leanlm.Contracts.Ddp.{
  DocumentState, state_index, DocumentPipelineState, DocumentChange, names_state, apply_change,
  apply_all, advance,
}

-- What no change but `state=` touches.
apply_all-state :
    (xs : List DocumentChange) (s : DocumentPipelineState)
    → any names_state xs ≡ false
    → ((apply_all xs s).state ≡ s.state)
      × ((apply_all xs s).source_path ≡ s.source_path)
      × ((apply_all xs s).revision ≡ s.revision)
unfolding apply_all
apply_all-state [] s h = (refl, refl, refl)
apply_all-state (x ∷ xs) s h =
    unfold apply_change in ground (arith, apply_all-state xs (apply_change x s))

-- A successful `advance`: the state asked for is reached, it is the present one or the next, the
-- document is the same, and the revision has grown by one.
pub record IsAdvanced (target : DocumentState) (s s' : DocumentPipelineState) : Type 0 where
  pub reached : s'.state ≡ target
  pub no_skip :
      (state_index target ≡ state_index s.state + 1) ⊎ (state_index target ≡ state_index s.state)
  pub same_source : s'.source_path ≡ s.source_path
  pub enriched : s'.revision ≡ s.revision + 1

pub advance-IsAdvanced :
    (target : DocumentState) (xs : List DocumentChange) (s s' : DocumentPipelineState)
    → advance target xs s ≡ ok s'
    → IsAdvanced target s s'
unfolding advance apply_change
advance-IsAdvanced target xs s s' h =
    ground (arith, apply_all-state xs (record s { revision = s.revision + 1; state = target }))

abbrev pub Call : Type 0
Call = DocumentState × List DocumentChange

abbrev pub advance_all : List Call → DocumentPipelineState → Result DocumentPipelineState
advance_all [] s = ok s
advance_all ((t, xs) ∷ calls) s = advance t xs s >>= advance_all calls

-- Some call asks for the state number `i`.
abbrev pub AsksFor : ℕ → List Call → Type 0
AsksFor i [] = ⊥
AsksFor i ((t, xs) ∷ calls) = (state_index t ≡ i) ⊎ AsksFor i calls

-- No state is skipped: when calls of `advance`, with any changes, take a document from one state
-- to another, then every state after the first up to the last is the target of one of the calls.
advance_all-no_skip :
    (calls : List Call) (s s' : DocumentPipelineState) (i : ℕ)
    → advance_all calls s ≡ ok s'
    → state_index s.state < i
    → i ≤ state_index s'.state
    → AsksFor i calls
advance_all-no_skip [] s s' i h lo hi = absurd (ground arith)
advance_all-no_skip ((t, xs) ∷ calls) s s' i h lo hi = elim (Result-cases (advance t xs s)) [
  | inr (e, refused) ↦ absurd (ground arith)
  | inl (s1, accepted) ↦
      let step = advance-IsAdvanced t xs s s1 accepted in
      let at = ap state_index step.reached in
      elim (dec_lt (state_index t) i) [
        | yes later ↦ inr (advance_all-no_skip calls s1 s' i (rw accepted at h) (omega arith) hi)
        | no here ↦ inl (elim step.no_skip [ inl up ↦ omega arith | inr stay ↦ omega arith ])
      ]
]

-- Calls of `advance` that succeed leave the document's path alone and add one revision each.
advance_all-enriches :
    (calls : List Call) (s s' : DocumentPipelineState)
    → advance_all calls s ≡ ok s'
    → (s'.source_path ≡ s.source_path) × (s'.revision ≡ s.revision + length calls)
advance_all-enriches [] s s' h = ground arith
advance_all-enriches ((t, xs) ∷ calls) s s' h = elim (Result-cases (advance t xs s)) [
  | inr (e, refused) ↦ absurd (ground arith)
  | inl (s1, accepted) ↦
      let step = advance-IsAdvanced t xs s s1 accepted in
      let rest = advance_all-enriches calls s1 s' (rw accepted at h) in
      (rest.0 ∙ step.same_source, omega (arith, rest.1, step.enriched))
]
