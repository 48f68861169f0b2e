-- ===== src/Context/Contract.antt =====
-- The capability CAP-003 (packages/context/contracts.py): the intent, the budget and the optimizer.
-- `describe` gives the entry of the trace, a dictionary of five figures, as a list of texts.
pub mod Compaction
use leanlm.Common.{ℕ, ltb, String, Bool, Option, none, some, List, [], ◌∷◌, if◌then◌else◌}
use leanlm.Shared.Errors.{Result, ok, raise, contract_error, unexpected}
use leanlm.Shared.Events.{EventBus}
use leanlm.Shared.Text.{TextLibrary, codes, Ratio}
use leanlm.Contracts.Dto.{ContextPackage, ContextBudget, OptimizedContext, IntentClassification}
use leanlm.Contracts.Iec.{
  InferenceExecutionContext, PipelineStage, context_optimization, stage_value, evolve, set_intent,
  set_optimized_context, set_trace, put_entry,
}
use leanlm.Contracts.Capability.{Capability, CapabilitySpec}
use leanlm.Context.Intent.{analyze}
use leanlm.Context.Budget.{ContextBudgeter, compute}
use leanlm.Context.Optimizer.{ContextOptimizer, optimize}

pub record ContextStage : Type 0 where
  pub lib : TextLibrary
  pub sorted : List String → List String
  pub budgeter : ContextBudgeter
  pub optimizer : ContextOptimizer
  pub model_context_tokens : ℕ
  pub max_output_tokens : ℕ
  pub model_footprint_mb : Ratio
  pub describe : IntentClassification → ContextBudget → OptimizedContext → List String

abbrev pub context_spec : CapabilitySpec
context_spec = record {
  capability_id = "CAP-003";
  name = "Context Optimization";
  package_path = "packages/context";
  pipeline = "inference";
  stages = stage_value context_optimization ∷ [];
}

abbrev package_missing : InferenceExecutionContext → PipelineStage → Result (Unit {0})
package_missing iec stage = elim iec.context_package [
  | none ↦ raise (
      contract_error "CTX-001" "context optimization requires a loaded ContextPackage"
        context_spec.name (stage_value context_optimization) "run document discovery first")
  | some loaded ↦ ok tt
]

abbrev budget_missing : Option ContextBudget → OptimizedContext → Result (Unit {0})
budget_missing none optimized =
    raise
      (contract_error "CTX-002" "optimization produced no budget" context_spec.name "unknown" "")
budget_missing (some budget) optimized =
    if ltb optimized.input_tokens optimized.output_tokens
    then raise (
        contract_error "CTX-003" "optimization increased the context size" context_spec.name
          "unknown" "review the merge policy; IP-01 forbids growth")
    else ok tt

-- `check_postconditions`
abbrev pub growth_refused : Option OptimizedContext → Result (Unit {0})
growth_refused none =
    raise
      (contract_error "CTX-002" "optimization produced no budget" context_spec.name "unknown" "")
growth_refused (some optimized) = budget_missing optimized.budget optimized

module _ (c : ContextStage) where
  abbrev pub intent_of : InferenceExecutionContext → IntentClassification
  intent_of iec = analyze c.lib c.sorted (codes iec.question)

  abbrev pub budget_of : InferenceExecutionContext → ContextBudget
  budget_of iec =
      compute c.budgeter c.model_context_tokens c.max_output_tokens (codes iec.question)
        (intent_of iec).intent iec.resources c.model_footprint_mb

  abbrev pub optimized_of : InferenceExecutionContext → ContextPackage → OptimizedContext
  optimized_of iec loaded = optimize c.optimizer loaded (budget_of iec)

  -- `run` with a package at hand.
  unfoldable pub compact :
      ContextPackage → InferenceExecutionContext → Result InferenceExecutionContext
  unfolding evolve optimize compute analyze
  compact loaded iec =
      let optimized = optimized_of iec loaded in
      evolve
        (set_intent (intent_of iec)
          ∷ set_optimized_context optimized
          ∷ set_trace
              (put_entry "context" (c.describe (intent_of iec) (budget_of iec) optimized) iec.trace)
          ∷ [])
        iec

  abbrev pub returned :
      Result InferenceExecutionContext
      → EventBus
      → Result (Option InferenceExecutionContext) × EventBus
  returned (ok result) bus = (ok (some result), bus)
  returned (raise e) bus = (raise e, bus)

  unfoldable pub run_context :
      InferenceExecutionContext
      → PipelineStage
      → EventBus
      → Result (Option InferenceExecutionContext) × EventBus
  unfolding compact
  run_context iec stage bus = elim iec.context_package [
    | none ↦ (raise (unexpected "AttributeError"), bus)
    | some loaded ↦ returned (compact loaded iec) bus
  ]

  unfoldable pub context_capability : Capability
  unfolding run_context
  context_capability = record {
    spec = context_spec;
    check_preconditions = package_missing;
    run = run_context;
    check_postconditions = λ iec stage. growth_refused iec.optimized_context;
  }
