-- ===== src/Retrieval/Contract/Keeping.antt =====
-- What the retrieval stage (packages/retrieval/contracts.py) does to a context.
use leanlm.Common.{
  ℕ, ◌+◌, ◌≤◌, ◌<◌, ◌≡◌, refl, ap, ◌∙◌, ◌⊎◌, inl, inr, false, Option, none, some, List, [], ◌∷◌,
  ◌&&◌, ltb, total, length, is_empty, subst, sym, ◌++◌, Bool-cases, if-ind, if◌then◌else◌, arith,
}
use leanlm.Shared.Errors.{Result, ok, Option-ind}
use leanlm.Shared.Events.{EventBus}
use leanlm.Shared.Text.{Text, codes, content_words, Ratio}
use leanlm.Contracts.Dto.{OptimizedContext, ContextBudget, SelectedEvidence, IntentClassification}
use leanlm.Contracts.Iec.{
  InferenceExecutionContext, PipelineStage, evidence_retrieval, evolve, with_warning, apply_all,
  apply_change, put_entry,
}
use leanlm.Contracts.Capability.{execute, accept, owns}
use leanlm.Contracts.Capability.Laws.{execute_accepts, accept_enriched}
use leanlm.Retrieval.Index.{build_index}
use leanlm.Retrieval.Selector.{ScoredUnit, EvidenceSelector, cost_of}
use leanlm.Retrieval.Selector.Bounds.{tokens_of, greedy_diverse_fit-IsWithin}
use leanlm.Retrieval.Ranking.{
  Retriever, limits, is_off_topic, pool_of, rank, chosen_for, evidence_from, select,
  retrieval_precision,
}
use leanlm.Retrieval.Contract.{
  RetrievalStage, within_budget, budget_exceeded, no_passage, selected_for, retrieve, returned,
  run_retrieval, retrieval_capability,
}

evidence-length :
    (r : Retriever) (n : ℕ) (chosen : List (ScoredUnit × Ratio))
    → length (evidence_from r n chosen) ≡ length chosen
evidence-length r n [] = refl
evidence-length r n (c ∷ cs) = omega (arith, evidence-length r (n + 1) cs)

estimate-cost :
    (s : EvidenceSelector) (c : ScoredUnit × Ratio) → c.0.unit.token_estimate ≤ cost_of s c.0.unit
unfolding cost_of
estimate-cost s c = ground arith

evidence-tokens :
    (r : Retriever) (s : EvidenceSelector) (n : ℕ) (chosen : List (ScoredUnit × Ratio))
    → total (λ (e : SelectedEvidence). e.token_estimate) (evidence_from r n chosen)
      ≤ tokens_of s chosen
evidence-tokens r s n [] = omega arith
evidence-tokens r s n (c ∷ cs) = omega (arith, evidence-tokens r s (n + 1) cs, estimate-cost s c)

-- The evidence fits the budget that it was chosen for, or is a single passage.
abbrev Fits : Retriever → Option ContextBudget → List (ScoredUnit × Ratio) → Type 0
Fits r budget chosen =
    (tokens_of (limits r budget) chosen ≤ (limits r budget).max_tokens) ⊎ (length chosen ≤ 1)

chosen_for-Fits :
    (r : Retriever) (question : Text) (o : OptimizedContext) (intent : Option IntentClassification)
    → Fits r o.budget (chosen_for r question o intent)
unfolding chosen_for
chosen_for-Fits r question o intent =
    let s = limits r o.budget in
    let pool = pool_of r (rank r question o.units intent) in
    let none_chosen : Fits r o.budget [] = inr (omega arith) in
    let off = is_off_topic r (content_words r.lib question) (build_index r.lib o.units) in
    if-ind (Fits r o.budget) (is_empty o.units) (λ _. none_chosen)
      (λ _.
        if-ind (Fits r o.budget) off (λ _. none_chosen)
          (λ _. (greedy_diverse_fit-IsWithin s pool).tokens))

let_pass : (n used most : ℕ) → (used ≤ most) ⊎ (n ≤ 1) → (ltb 1 n && ltb most used) ≡ false
let_pass n used most h = ground (arith, h)

evidence-within_budget :
    (r : Retriever) (budget : Option ContextBudget) (chosen : List (ScoredUnit × Ratio))
    → Fits r budget chosen
    → within_budget budget (evidence_from r 1 chosen) ≡ ok tt
evidence-within_budget r none chosen h = refl
evidence-within_budget r (some b) chosen h =
    let used = total (λ (e : SelectedEvidence). e.token_estimate) (evidence_from r 1 chosen) in
    let shorter = evidence-tokens r (limits r (some b)) 1 chosen in
    let counted = evidence-length r 1 chosen in
    let bound : (used ≤ b.evidence_tokens) ⊎ (length (evidence_from r 1 chosen) ≤ 1) = elim h [
      | inl le ↦ inl (omega (arith, le, shorter))
      | inr one ↦ inr (omega (arith, one, counted))
    ] in
    rw (let_pass (length (evidence_from r 1 chosen)) used b.evidence_tokens bound) refl

module _ (c : RetrievalStage) where
  -- The context after a successful stage.
  abbrev pub retrieved : OptimizedContext → InferenceExecutionContext → InferenceExecutionContext
  retrieved o iec =
      let found = selected_for c iec o in
      let precision = retrieval_precision c.retriever found.0 (codes iec.question) in
      let entries = put_entry "retrieval" (c.describe found.0 found.1 precision) iec.trace in
      if is_empty found.0
      then record iec {
        revision = iec.revision + 1 + 1;
        evidence = found.0;
        trace = entries;
        warnings = iec.warnings ++ no_passage ∷ [];
      }
      else record iec { revision = iec.revision + 1; evidence = found.0; trace = entries }

  retrieve-eq-ok :
      (o : OptimizedContext) (iec : InferenceExecutionContext)
      → retrieve c o iec ≡ ok (retrieved o iec)
  unfolding retrieve evolve with_warning apply_all apply_change
  retrieve-eq-ok o iec = elim (Bool-cases (is_empty (selected_for c iec o).0)) [
    | inl e ↦ rw e refl
    | inr e ↦ rw e refl
  ]

  run_retrieval-eq-ok :
      (o : OptimizedContext) (iec : InferenceExecutionContext) (stage : PipelineStage)
      (bus : EventBus)
      → iec.optimized_context ≡ some o
      → (run_retrieval c iec stage bus).0 ≡ ok (some (retrieved o iec))
  unfolding run_retrieval
  run_retrieval-eq-ok o iec stage bus e =
      let Q = λ (out : Result (Option InferenceExecutionContext) × EventBus).
        out.0 ≡ ok (some (retrieved o iec)) in
      Option-ind Q iec.optimized_context
        (λ given held.
          let same : given ≡ o = cc (e, held) in
          ap (λ r. (returned c r bus).0) (retrieve-eq-ok given iec)
          ∙ ap (λ r. ok (some (retrieved r iec))) same)
        (λ missing. absurd (cc (e, missing)))

  check-eq-ok :
      (o : OptimizedContext) (iec : InferenceExecutionContext) (stage : PipelineStage)
      → iec.optimized_context ≡ some o
      → (retrieval_capability c).check_preconditions iec stage ≡ ok tt
  unfolding retrieval_capability
  check-eq-ok o iec stage e = rw e refl

  selected-budget_exceeded :
      (o : OptimizedContext) (iec : InferenceExecutionContext)
      → budget_exceeded (some o) (selected_for c iec o).0 ≡ ok tt
  unfolding select
  selected-budget_exceeded o iec =
      evidence-within_budget c.retriever o.budget
        (chosen_for c.retriever (codes iec.question) o iec.intent)
        (chosen_for-Fits c.retriever (codes iec.question) o iec.intent)

  abbrev IsPassed : OptimizedContext → InferenceExecutionContext → Type 0
  IsPassed o iec' = budget_exceeded iec'.optimized_context iec'.evidence ≡ ok tt

  retrieved-IsPassed :
      (o : OptimizedContext) (iec : InferenceExecutionContext)
      → iec.optimized_context ≡ some o
      → IsPassed o (retrieved o iec)
  retrieved-IsPassed o iec e =
      let found = (selected_for c iec o).0 in
      let pass =
        subst (λ (x : Option OptimizedContext). budget_exceeded x found ≡ ok tt) (sym e)
          (selected-budget_exceeded o iec) in
      if-ind (IsPassed o) (is_empty found) (λ _. pass) (λ _. pass)

  retrieved-revision :
      (o : OptimizedContext) (iec : InferenceExecutionContext)
      → iec.revision < (retrieved o iec).revision
  retrieved-revision o iec =
      if-ind (λ (x : InferenceExecutionContext). iec.revision < x.revision)
        (is_empty (selected_for c iec o).0) (λ _. omega arith) (λ _. omega arith)

  accept-eq-ok :
      (o : OptimizedContext) (iec : InferenceExecutionContext)
      → iec.optimized_context ≡ some o
      → accept (retrieval_capability c) iec evidence_retrieval (some (retrieved o iec))
        ≡ ok (retrieved o iec)
  unfolding retrieval_capability
  accept-eq-ok o iec e =
      accept_enriched (retrieval_capability c) iec (retrieved o iec) evidence_retrieval
        (retrieved-revision o iec) (retrieved-IsPassed o iec e)

  -- The retrieval stage succeeds on any context with an optimized context: its check of the budget
  -- never refuses what its own selection has chosen, whatever the scores. It only adds the
  -- evidence and its entry of the trace, and, when no passage was selected, a warning.
  pub execute-retrieved :
      (o : OptimizedContext) (iec : InferenceExecutionContext) (bus : EventBus)
      → iec.optimized_context ≡ some o
      → (execute (retrieval_capability c) iec evidence_retrieval bus).0 ≡ ok (retrieved o iec)
  unfolding owns retrieval_capability
  execute-retrieved o iec bus e =
      execute_accepts (retrieval_capability c) iec (retrieved o iec) evidence_retrieval bus refl
        (check-eq-ok o iec evidence_retrieval e)
        (run_retrieval-eq-ok o iec evidence_retrieval bus e) (accept-eq-ok o iec e)
