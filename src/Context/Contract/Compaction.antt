-- ===== src/Context/Contract/Compaction.antt =====
-- What the context stage (packages/context/contracts.py) does to a context.
use leanlm.Common.{
  ℕ, zero, suc, ◌+◌, ◌*◌, ◌≤◌, ◌<◌, ◌≡◌, refl, ap, ◌∙◌, ◌⊎◌, inl, inr, Bool-cases, true, false,
  Option, some, ltb, arith,
}
use leanlm.Shared.Errors.{Exception, contract_error, Result, ok, raise, Option-ind}
use leanlm.Shared.Events.{EventBus}
use leanlm.Contracts.Dto.{ContextPackage, OptimizedContext, ContextBudget}
use leanlm.Contracts.Iec.{
  InferenceExecutionContext, PipelineStage, context_optimization, evolve, apply_all, apply_change,
  put_entry,
}
use leanlm.Contracts.Capability.{execute, accept, owns}
use leanlm.Contracts.Capability.Laws.{
  execute_accepts, execute_refuses, accept_enriched, accept_refused,
}
use leanlm.Context.Optimizer.{ContextOptimizer, optimize}
use leanlm.Context.Optimizer.Merging.{GrowsBy, AreCounted, optimize-tokens}
use leanlm.Context.Contract.{
  ContextStage, intent_of, budget_of, optimized_of, compact, returned, run_context,
  context_capability, growth_refused,
}

-- The context after a successful stage.
abbrev pub compacted :
    ContextStage → ContextPackage → InferenceExecutionContext → InferenceExecutionContext
compacted c loaded iec = record iec {
  revision = iec.revision + 1;
  intent = some (intent_of c iec);
  optimized_context = some (optimized_of c iec loaded);
  trace =
      put_entry "context"
        (c.describe (intent_of c iec) (budget_of c iec) (optimized_of c iec loaded)) iec.trace;
}

compact-eq-ok :
    (c : ContextStage) (loaded : ContextPackage) (iec : InferenceExecutionContext)
    → compact c loaded iec ≡ ok (compacted c loaded iec)
unfolding compact evolve apply_all apply_change
compact-eq-ok c loaded iec = refl

not_larger : (a b : ℕ) → a ≤ b → ltb b a ≡ false
not_larger a b h = ground (arith, h)

-- An optimized context that has its budget and has not grown is let through.
let_through :
    (optimized : OptimizedContext) (budget : ContextBudget)
    → optimized.budget ≡ some budget
    → optimized.output_tokens ≤ optimized.input_tokens
    → growth_refused (some optimized) ≡ ok tt
let_through optimized budget e h =
    rw e (rw (not_larger optimized.output_tokens optimized.input_tokens h) refl)

run_context-eq-ok :
    (c : ContextStage) (loaded : ContextPackage) (iec : InferenceExecutionContext)
    (stage : PipelineStage) (bus : EventBus)
    → iec.context_package ≡ some loaded
    → (run_context c iec stage bus).0 ≡ ok (some (compacted c loaded iec))
unfolding run_context
run_context-eq-ok c loaded iec stage bus e =
    let Q = λ (out : Result (Option InferenceExecutionContext) × EventBus).
      out.0 ≡ ok (some (compacted c loaded iec)) in
    Option-ind Q iec.context_package
      (λ given held.
        let same : given ≡ loaded = cc (e, held) in
        ap (λ r. (returned c r bus).0) (compact-eq-ok c given iec)
        ∙ ap (λ r. ok (some (compacted c r iec))) same)
      (λ missing. absurd (cc (e, missing)))

check-eq-ok :
    (c : ContextStage) (loaded : ContextPackage) (iec : InferenceExecutionContext)
    (stage : PipelineStage)
    → iec.context_package ≡ some loaded
    → (context_capability c).check_preconditions iec stage ≡ ok tt
unfolding context_capability
check-eq-ok c loaded iec stage e = rw e refl

optimized-budget :
    (o : ContextOptimizer) (loaded : ContextPackage) (budget : ContextBudget)
    → (optimize o loaded budget).budget ≡ some budget
unfolding optimize
optimized-budget o loaded budget = refl

-- `check_postconditions` on an optimized context that has grown.
abbrev pub growth_error : Exception
growth_error =
    contract_error "CTX-003" "optimization increased the context size" "Context Optimization"
      "unknown" "review the merge policy; IP-01 forbids growth"

held_back :
    (optimized : OptimizedContext) (budget : ContextBudget)
    → optimized.budget ≡ some budget
    → ltb optimized.input_tokens optimized.output_tokens ≡ true
    → growth_refused (some optimized) ≡ raise growth_error
held_back optimized budget e h = rw e (rw h refl)

accept-eq-ok :
    (c : ContextStage) (loaded : ContextPackage) (iec : InferenceExecutionContext)
    → (optimized_of c iec loaded).output_tokens ≤ (optimized_of c iec loaded).input_tokens
    → accept (context_capability c) iec context_optimization (some (compacted c loaded iec))
      ≡ ok (compacted c loaded iec)
unfolding context_capability
accept-eq-ok c loaded iec small =
    accept_enriched (context_capability c) iec (compacted c loaded iec) context_optimization
      (omega arith)
      (let_through (optimized_of c iec loaded) (budget_of c iec)
        (optimized-budget c.optimizer loaded (budget_of c iec)) small)

accept-eq-raise :
    (c : ContextStage) (loaded : ContextPackage) (iec : InferenceExecutionContext)
    → ltb (optimized_of c iec loaded).input_tokens (optimized_of c iec loaded).output_tokens ≡ true
    → accept (context_capability c) iec context_optimization (some (compacted c loaded iec))
      ≡ raise growth_error
unfolding context_capability
accept-eq-raise c loaded iec large =
    accept_refused (context_capability c) iec (compacted c loaded iec) context_optimization
      growth_error (omega arith)
      (held_back (optimized_of c iec loaded) (budget_of c iec)
        (optimized-budget c.optimizer loaded (budget_of c iec)) large)

-- Either the stage lets a context through that has not grown, or it raises CTX-003, and then
-- fragments have been merged.
abbrev pub IsWeighed :
    OptimizedContext → InferenceExecutionContext → Result InferenceExecutionContext → Type 0
IsWeighed optimized after out =
    ((optimized.output_tokens ≤ optimized.input_tokens) × (out ≡ ok after))
    ⊎ ((optimized.input_tokens < optimized.output_tokens)
        × (0 < optimized.merged_units)
        × (out ≡ raise growth_error))

small_enough : (a b : ℕ) → ltb b a ≡ false → a ≤ b
small_enough a b h = ground (arith, h)

too_large : (a b : ℕ) → ltb b a ≡ true → b < a
too_large a b h = ground (arith, h)

has_merged : (a b slack merged : ℕ) → b < a → a ≤ b + slack * merged → 0 < merged
has_merged a b slack zero h le = absurd (omega (arith, h, le))
has_merged a b slack (suc n) h le = omega arith

-- On a loaded package whose units carry the counter's estimates, and with a counter that counts two
-- texts joined by a line break at most some fixed number of tokens more than the two, the context
-- stage ends in one of two ways: the optimized context is not larger than the package, and the stage
-- succeeds and only adds the intent, the optimized context, which has the budget, and its entry of
-- the trace; or it is larger, and the stage raises CTX-003, which happens only where fragments have
-- been merged.
pub execute-IsWeighed :
    (c : ContextStage) (slack : ℕ) (loaded : ContextPackage) (iec : InferenceExecutionContext)
    (bus : EventBus)
    → iec.context_package ≡ some loaded
    → GrowsBy c.optimizer slack
    → AreCounted c.optimizer loaded.units
    → IsWeighed
        (optimized_of c iec loaded)
        (compacted c loaded iec)
        (execute (context_capability c) iec context_optimization bus).0
unfolding owns context_capability
execute-IsWeighed c slack loaded iec bus e steady counted =
    let optimized = optimized_of c iec loaded in
    let grown = optimize-tokens c.optimizer slack loaded (budget_of c iec) steady counted in
    let checked = check-eq-ok c loaded iec context_optimization e in
    let ran = run_context-eq-ok c loaded iec context_optimization bus e in
    elim (Bool-cases (ltb optimized.input_tokens optimized.output_tokens)) [
      | inr fits ↦
          let small = small_enough optimized.output_tokens optimized.input_tokens fits in
          inl (
            small,
            execute_accepts (context_capability c) iec (compacted c loaded iec) context_optimization
                bus refl checked ran (accept-eq-ok c loaded iec small),
          )
      | inl large ↦
          let more = too_large optimized.output_tokens optimized.input_tokens large in
          inr (
            more,
            has_merged optimized.output_tokens optimized.input_tokens slack optimized.merged_units
                more grown,
            execute_refuses (context_capability c) iec (compacted c loaded iec) context_optimization
                bus growth_error refl checked ran (accept-eq-raise c loaded iec large),
          )
    ]
