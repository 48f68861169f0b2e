-- ===== src/Contracts/Iec/Evolution.antt =====
-- What `evolve` keeps and what it refuses (contracts/iec.py).
use leanlm.Common.{◌+◌, ◌≡◌, refl, false, List, [], ◌∷◌, ◌++◌, arith, any, ◌||◌}
use leanlm.Shared.Errors.{ErrorRecord, ok}
use leanlm.Shared.Telemetry.{StageRecord}
use leanlm.Contracts.Iec.{
  InferenceExecutionContext, Change, is_protected, repeats_revision, apply_change, apply_all,
  evolve, with_stage, with_error, StageRecord,
}

-- Two contexts of one inference.
pub record SameIdentity (a b : InferenceExecutionContext) : Type 0 where
  pub session : a.session_id ≡ b.session_id
  pub request : a.request_id ≡ b.request_id
  pub asked : a.question ≡ b.question

apply_change-keeps :
    (x : Change) (c : InferenceExecutionContext)
    → SameIdentity (apply_change x c) c × ((apply_change x c).revision ≡ c.revision)
unfolding apply_change
apply_change-keeps x c = ground arith

apply_all-keeps :
    (xs : List Change) (c : InferenceExecutionContext)
    → SameIdentity (apply_all xs c) c × ((apply_all xs c).revision ≡ c.revision)
unfolding apply_all
apply_all-keeps [] c = ground arith
apply_all-keeps (x ∷ xs) c =
    unfold apply_change in
    ground (arith, apply_change-keeps x c, apply_all-keeps xs (apply_change x c))

-- `evolve` with arguments that are neither identity fields nor `revision` succeeds, and the new
-- context belongs to the same session, request and question, with a revision that is one higher.
evolve-keeps :
    (xs : List Change) (c : InferenceExecutionContext)
    → any is_protected xs || any repeats_revision xs ≡ false
    → (c' : InferenceExecutionContext) × (evolve xs c ≡ ok c')
      × SameIdentity c' c
      × (c'.revision ≡ c.revision + 1)
unfolding evolve
evolve-keeps xs c h =
    let next : InferenceExecutionContext = record c { revision = c.revision + 1 } in
    let kept = apply_all-keeps xs next in
    (
      apply_all xs next,
      ground arith,
      record { session = kept.0.session; request = kept.0.request; asked = kept.0.asked },
      kept.1,
    )

-- `evolve` never gives an argument that is an identity field or `revision` a result.
evolve-protects :
    (xs : List Change) (c c' : InferenceExecutionContext)
    → evolve xs c ≡ ok c'
    → any is_protected xs || any repeats_revision xs ≡ false
unfolding evolve
evolve-protects xs c c' h = ground arith

-- The context after `with_stage` and `with_error`, which never raise.
pub with_stage-eq-ok :
    (r : StageRecord) (c : InferenceExecutionContext)
    → with_stage r c ≡ ok (record c { revision = c.revision + 1; stages = c.stages ++ r ∷ [] })
unfolding with_stage
with_stage-eq-ok r c = refl

pub with_error-eq-ok :
    (e : ErrorRecord) (c : InferenceExecutionContext)
    → with_error e c ≡ ok (record c { revision = c.revision + 1; errors = c.errors ++ e ∷ [] })
unfolding with_error
with_error-eq-ok e c = refl
