-- ===== src/Context/Budget.antt =====
-- The context budget (packages/context/services.py, models.py, policies.py). Floating-point numbers
-- are fractions, a difference stops at zero where the source compares it with zero, and the rounding
-- to four decimals is a parameter.
pub mod Limits
use leanlm.Common.{
  ℕ, ◌+◌, ◌-◌, ◌*◌, ◌/◌, min, max, String, str_eq, Bool, true, false, not, Option, none, some, List,
  [], ◌∷◌, if◌then◌else◌,
}
use leanlm.Shared.Text.{Text, Ratio, ratio_ge, ratio_gt, ratio_add, ratio_mul}
use leanlm.Contracts.Dto.{
  IntentType, factual, comparison, summary, extraction, explanation, drafting, ContextBudget,
  ResourceObservation,
}

abbrev percent : ℕ → Ratio
percent n = record { num = n; den = 100 }

abbrev whole : ℕ → Ratio
whole n = record { num = n; den = 1 }

-- `a - b`, or zero
abbrev ratio_sub : Ratio → Ratio → Ratio
ratio_sub a b = record { num = a.num * b.den - b.num * a.den; den = a.den * b.den }

abbrev ratio_div : Ratio → Ratio → Ratio
ratio_div a b = record { num = a.num * b.den; den = a.den * b.num }

abbrev ratio_largest : Ratio → Ratio → Ratio
ratio_largest a b = if ratio_gt b a then b else a

abbrev ratio_least : Ratio → Ratio → Ratio
ratio_least a b = if ratio_gt a b then b else a

abbrev intent_value : IntentType → String
intent_value factual = "factual"
intent_value comparison = "comparison"
intent_value summary = "summary"
intent_value extraction = "extraction"
intent_value explanation = "explanation"
intent_value drafting = "drafting"

-- `table.get(key, default)`
abbrev pub get_or {ℓ} : {A : Type ℓ} → String → A → List (String × A) → A
get_or key default [] = default
get_or key default ((k, x) ∷ rest) =
    let found = get_or key default rest in if str_eq k key then x else found

pub record BudgetPolicy : Type 0 where
  pub min_context_tokens : ℕ
  pub prompt_overhead_tokens : ℕ
  pub ram_headroom_mb : Ratio
  pub ram_soft_floor_mb : Ratio
  pub thermal_warn_c : Ratio
  pub thermal_critical_c : Ratio
  pub cpu_warn_percent : Ratio
  pub max_passages_hard_cap : ℕ
  pub intent_factors : List (String × Ratio)
  pub intent_passages : List (String × ℕ)

pub record BudgetFactors : Type 0 where
  pub ram : Ratio
  pub thermal : Ratio
  pub cpu : Ratio
  pub intent : Ratio

-- The first of the least ones.
unfoldable pub limiting : BudgetFactors → String
limiting f =
    let ram_least = ratio_ge f.thermal f.ram in
    let least = if ram_least then f.ram else f.thermal in
    let name = if ram_least then "ram" else "thermal" in
    let cpu_least = ratio_gt least f.cpu in
    if ratio_gt (whole 1) (if cpu_least then f.cpu else least)
    then if cpu_least then "cpu" else name
    else "model_context"

unfoldable pub multiplier : BudgetFactors → Ratio
multiplier f = ratio_mul (ratio_least (ratio_least f.ram f.thermal) f.cpu) f.intent

pub record ContextBudgeter : Type 0 where
  pub policy : BudgetPolicy
  pub count : Text → ℕ
  pub round : Ratio → Ratio

-- `int(base * factor)`
abbrev pub scaled : ℕ → Ratio → ℕ
scaled base factor = base * factor.num / factor.den

module _ (b : ContextBudgeter) where
  -- `_ram_factor`
  unfoldable pub ram_factor : Option ResourceObservation → Ratio → Ratio
  ram_factor none footprint_mb = whole 1
  ram_factor (some res) footprint_mb =
      let usable =
        ratio_sub (ratio_sub res.available_ram_mb b.policy.ram_headroom_mb) footprint_mb in
      if not (ratio_gt res.available_ram_mb (whole 0))
      then whole 1
      else if not (ratio_gt usable (whole 0))
      then percent 35
      else if ratio_ge usable b.policy.ram_soft_floor_mb
      then whole 1
      else b.round (
          ratio_largest (percent 35) (
            ratio_add (percent 35)
              (ratio_mul (percent 65) (ratio_div usable b.policy.ram_soft_floor_mb))))

  -- `_thermal_factor` at a temperature; `span` is never nearly zero between the two tests.
  abbrev thermal_at : Ratio → Ratio
  thermal_at temp =
      let warn = b.policy.thermal_warn_c in
      let critical = b.policy.thermal_critical_c in
      let least_span : Ratio = record { num = 1; den = 1000000 } in
      if ratio_gt warn temp
      then whole 1
      else if ratio_ge temp critical
      then percent 40
      else let span = ratio_largest least_span (ratio_sub critical warn) in
        b.round (
          ratio_largest (percent 40)
            (ratio_sub (whole 1) (ratio_mul (percent 60) (ratio_div (ratio_sub temp warn) span))))

  unfoldable pub thermal_factor : Option ResourceObservation → Ratio
  thermal_factor none = whole 1
  thermal_factor (some res) = elim res.temperature_c [
    | none ↦ whole 1
    | some temp ↦ thermal_at temp
  ]

  unfoldable pub cpu_factor : Option ResourceObservation → Ratio
  cpu_factor none = whole 1
  cpu_factor (some res) =
      let warn = b.policy.cpu_warn_percent in
      let least_span : Ratio = record { num = 1; den = 1000000 } in
      let over = ratio_least (whole 1) (
        ratio_div (ratio_sub res.cpu_percent warn)
          (ratio_largest least_span (ratio_sub (whole 100) warn))) in
      if not (ratio_gt res.cpu_percent (whole 0))
      then whole 1
      else if ratio_gt warn res.cpu_percent
      then whole 1
      else b.round (ratio_largest (percent 60) (ratio_sub (whole 1) (ratio_mul (percent 40) over)))

  unfoldable pub factors_of : IntentType → Option ResourceObservation → Ratio → BudgetFactors
  unfolding ram_factor thermal_factor cpu_factor
  factors_of intent resources footprint_mb = record {
    ram = ram_factor resources footprint_mb;
    thermal = thermal_factor resources;
    cpu = cpu_factor resources;
    intent = get_or (intent_value intent) (percent 80) b.policy.intent_factors;
  }

  -- The rest of `compute`, once the factors are known.
  unfoldable pub budget_with : BudgetFactors → ℕ → ℕ → Text → IntentType → ContextBudget
  unfolding limiting multiplier
  budget_with factors model_context_tokens max_output_tokens question intent =
      let overhead = b.policy.prompt_overhead_tokens + b.count question in
      let base =
        max b.policy.min_context_tokens (model_context_tokens - max_output_tokens - overhead) in
      let target = scaled base (multiplier factors) in
      let passages =
        min b.policy.max_passages_hard_cap
          (get_or (intent_value intent) 5 b.policy.intent_passages) in
      record {
        max_context_tokens = model_context_tokens;
        evidence_tokens = max b.policy.min_context_tokens (min base target);
        reserved_output_tokens = max_output_tokens;
        reserved_prompt_overhead = overhead;
        max_passages =
            if ratio_gt (percent 50) (multiplier factors) then max 2 (passages / 2) else passages;
        limiting_factor = limiting factors;
      }

  unfoldable pub compute :
      ℕ → ℕ → Text → IntentType → Option ResourceObservation → Ratio → ContextBudget
  unfolding budget_with factors_of
  compute model_context_tokens max_output_tokens question intent resources footprint_mb =
      budget_with (factors_of intent resources footprint_mb) model_context_tokens max_output_tokens
        question intent
