-- ===== src/Contracts/Capability/Laws.antt =====
-- What `Capability.execute` and the registry guarantee (contracts/capability.py).

use leanlm.Common.{◌<◌, ◌≡◌, ap, ◌∙◌, true, Option, none, some, arith, Bool-cases, inl, inr}
use leanlm.Shared.Errors.{Exception, ok, raise, Result-cases}
use leanlm.Shared.Events.{EventBus}
use leanlm.Contracts.Iec.{InferenceExecutionContext, PipelineStage, stage_value}
use leanlm.Contracts.Capability.{Capability, owns, accept, execute}

-- What a caller of `execute` may rely on when it returns `after`.
pub record IsEnriched (c : Capability) (before after : InferenceExecutionContext)
    (stage : PipelineStage) : Type 0 where
  pub owned : owns c.spec (stage_value stage) ≡ true
  pub permitted : c.check_preconditions before stage ≡ ok tt
  pub grown : before.revision < after.revision
  pub confirmed : c.check_postconditions after stage ≡ ok tt

accept-eq-ok :
    (c : Capability) (iec after : InferenceExecutionContext) (stage : PipelineStage)
    (o : Option InferenceExecutionContext)
    → accept c iec stage o ≡ ok after
    → (o ≡ some after)
      × (iec.revision < after.revision)
      × (c.check_postconditions after stage ≡ ok tt)
unfolding accept
accept-eq-ok c iec after stage none h = cc
accept-eq-ok c iec after stage (some r) h = ground arith

-- A context that `execute` returns is one that the capability's own `run` made for a stage that it
-- owns, with a higher revision than the one it was given and both of its checks passed.
pub execute-IsEnriched :
    (c : Capability) (iec after : InferenceExecutionContext) (stage : PipelineStage)
    (bus : EventBus)
    → (execute c iec stage bus).0 ≡ ok after
    → IsEnriched c iec after stage × ((c.run iec stage bus).0 ≡ ok (some after))
unfolding execute
execute-IsEnriched c iec after stage bus h = elim (Bool-cases (owns c.spec (stage_value stage))) [
  | inr foreign ↦ ground arith
  | inl owned ↦ elim (Result-cases (c.check_preconditions iec stage)) [
    | inr (e, refused) ↦ ground arith
    | inl (u, permitted) ↦ elim (Result-cases (c.run iec stage bus).0) [
      | inr (e, failed) ↦ ground arith
      | inl (o, ran) ↦
          let (same, grown, confirmed) = accept-eq-ok c iec after stage o (ground arith) in
          (
            record { owned = owned; permitted = permitted; grown = grown; confirmed = confirmed },
            ran ∙ ap ok same,
          )
    ]
  ]
]

-- The checks and the run one after the other, where each goes well.
pub execute_accepts :
    (c : Capability) (iec after : InferenceExecutionContext) (stage : PipelineStage)
    (bus : EventBus)
    → owns c.spec (stage_value stage) ≡ true
    → c.check_preconditions iec stage ≡ ok tt
    → (c.run iec stage bus).0 ≡ ok (some after)
    → accept c iec stage (some after) ≡ ok after
    → (execute c iec stage bus).0 ≡ ok after
unfolding execute
execute_accepts c iec after stage bus owned permitted ran accepted = ground arith

-- What the acceptance raises, `execute` raises.
pub execute_refuses :
    (c : Capability) (iec after : InferenceExecutionContext) (stage : PipelineStage)
    (bus : EventBus) (e : Exception)
    → owns c.spec (stage_value stage) ≡ true
    → c.check_preconditions iec stage ≡ ok tt
    → (c.run iec stage bus).0 ≡ ok (some after)
    → accept c iec stage (some after) ≡ raise e
    → (execute c iec stage bus).0 ≡ raise e
unfolding execute
execute_refuses c iec after stage bus e owned permitted ran refused = ground arith

-- What the run raises, `execute` raises.
pub execute_raises :
    (c : Capability) (iec : InferenceExecutionContext) (stage : PipelineStage) (bus : EventBus)
    (e : Exception)
    → owns c.spec (stage_value stage) ≡ true
    → c.check_preconditions iec stage ≡ ok tt
    → (c.run iec stage bus).0 ≡ raise e
    → (execute c iec stage bus).0 ≡ raise e
unfolding execute
execute_raises c iec stage bus e owned permitted ran = ground arith

pub accept_refused :
    (c : Capability) (iec after : InferenceExecutionContext) (stage : PipelineStage) (e : Exception)
    → iec.revision < after.revision
    → c.check_postconditions after stage ≡ raise e
    → accept c iec stage (some after) ≡ raise e
unfolding accept
accept_refused c iec after stage e grown barred = ground arith

pub accept_enriched :
    (c : Capability) (iec after : InferenceExecutionContext) (stage : PipelineStage)
    → iec.revision < after.revision
    → c.check_postconditions after stage ≡ ok tt
    → accept c iec stage (some after) ≡ ok after
unfolding accept
accept_enriched c iec after stage grown confirmed = ground arith
