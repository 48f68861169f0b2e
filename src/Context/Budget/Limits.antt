-- ===== src/Context/Budget/Limits.antt =====
-- What a context budget (packages/context/services.py) leaves for the passages.
use leanlm.Common.{ℕ, ◌+◌, ◌-◌, ◌/◌, ◌≤◌, min, max, Bool, true, false, Option, arith, if◌then◌else◌}
use leanlm.Shared.Text.{Text, Ratio, ratio_gt}
use leanlm.Contracts.Dto.{IntentType, ContextBudget, ResourceObservation}
use leanlm.Context.Budget.{
  ContextBudgeter, budget_with, compute, factors_of, multiplier, scaled, percent,
}

clamp_within : (least base target : ℕ) → least ≤ base → max least (min base target) ≤ base
clamp_within least base target h = omega (arith, h)

-- What a budget keeps to, whatever the factors are.
pub record IsLimited (b : ContextBudgeter) (model output : ℕ) (question : Text)
    (budget : ContextBudget) : Type 0 where
  pub floor : b.policy.min_context_tokens ≤ budget.evidence_tokens
  pub ceiling :
      budget.evidence_tokens
      ≤ max b.policy.min_context_tokens
          (model - output - (b.policy.prompt_overhead_tokens + b.count question))
  pub fits :
      budget.evidence_tokens + budget.reserved_output_tokens + budget.reserved_prompt_overhead
      ≤ max budget.max_context_tokens (
          b.policy.min_context_tokens
          + output
          + (b.policy.prompt_overhead_tokens + b.count question))
  pub passages : budget.max_passages ≤ max 2 b.policy.max_passages_hard_cap

passages_capped :
    (cap wanted : ℕ) (q : Bool)
    → (if q then max 2 (min cap wanted / 2) else min cap wanted) ≤ max 2 cap
passages_capped cap wanted true = omega arith
passages_capped cap wanted false = omega arith

-- Whatever the machine's state and the kind of question, the evidence gets at least the policy's
-- minimum and at most the larger of that minimum and what the model's context leaves beside the
-- output, the prompt and the question; the three reserves together fit the model's context, unless the minimum, the output and
-- the prompt alone are more; and there are never more passages than the cap, or two.
pub compute-IsLimited :
    (b : ContextBudgeter) (model output : ℕ) (question : Text) (intent : IntentType)
    (resources : Option ResourceObservation) (footprint_mb : Ratio)
    → IsLimited b model output question
        (compute b model output question intent resources footprint_mb)
unfolding compute budget_with
compute-IsLimited b model output question intent resources footprint_mb =
    let factors = factors_of b intent resources footprint_mb in
    let overhead = b.policy.prompt_overhead_tokens + b.count question in
    let base = max b.policy.min_context_tokens (model - output - overhead) in
    let within =
      clamp_within b.policy.min_context_tokens base (scaled base (multiplier factors))
        (omega arith) in
    record {
      floor = omega arith;
      ceiling = within;
      fits = omega (arith, within);
      passages =
          passages_capped b.policy.max_passages_hard_cap _
            (ratio_gt (percent 50) (multiplier factors));
    }
