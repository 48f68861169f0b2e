-- ===== src/Retrieval/Contract.antt =====
-- The capability CAP-004 (packages/retrieval/contracts.py). `describe` gives the entry of the
-- trace, a dictionary of figures, as a list of texts.
pub mod Keeping
use leanlm.Common.{
  ℕ, ltb, String, Bool, true, false, ◌&&◌, Option, none, some, List, [], ◌∷◌, length, total,
  is_empty, if◌then◌else◌,
}
use leanlm.Shared.Errors.{Result, ok, raise, contract_error, unexpected, ◌>>=◌}
use leanlm.Shared.Events.{EventBus}
use leanlm.Shared.Text.{codes, Ratio}
use leanlm.Contracts.Dto.{ContextBudget, OptimizedContext, SelectedEvidence}
use leanlm.Contracts.Iec.{
  InferenceExecutionContext, PipelineStage, evidence_retrieval, stage_value, evolve, with_warning,
  set_evidence, set_trace, put_entry,
}
use leanlm.Contracts.Capability.{Capability, CapabilitySpec}
use leanlm.Retrieval.Ranking.{Retriever, EvidenceCandidate, select, retrieval_precision}

pub record RetrievalStage : Type 0 where
  pub retriever : Retriever
  pub describe : List SelectedEvidence → List EvidenceCandidate → Ratio → List String

abbrev pub retrieval_spec : CapabilitySpec
retrieval_spec = record {
  capability_id = "CAP-004";
  name = "Evidence Retrieval";
  package_path = "packages/retrieval";
  pipeline = "inference";
  stages = stage_value evidence_retrieval ∷ [];
}

abbrev context_missing : InferenceExecutionContext → PipelineStage → Result (Unit {0})
context_missing iec stage = elim iec.optimized_context [
  | none ↦ raise (
      contract_error "RET-001" "retrieval requires an optimized context" retrieval_spec.name
        (stage_value evidence_retrieval) "run CAP-003 first")
  | some optimized ↦ ok tt
]

-- What the context's budget says of the evidence.
abbrev pub within_budget : Option ContextBudget → List SelectedEvidence → Result (Unit {0})
within_budget none evidence = ok tt
within_budget (some budget) evidence =
    let used = total (λ (e : SelectedEvidence). e.token_estimate) evidence in
    if ltb 1 (length evidence) && ltb budget.evidence_tokens used
    then raise (
        contract_error "RET-002" "evidence exceeds the context budget" retrieval_spec.name "unknown"
          "IP-01: never send more context than budgeted")
    else ok tt

-- `check_postconditions`
abbrev pub budget_exceeded : Option OptimizedContext → List SelectedEvidence → Result (Unit {0})
budget_exceeded none evidence = ok tt
budget_exceeded (some optimized) evidence = within_budget optimized.budget evidence

abbrev no_passage : String
no_passage = "no passage in the corpus matched the question; the answer will state that explicitly"

module _ (c : RetrievalStage) where
  abbrev pub selected_for :
      InferenceExecutionContext → OptimizedContext → List SelectedEvidence × List EvidenceCandidate
  selected_for iec optimized = select c.retriever (codes iec.question) optimized iec.intent

  -- `run` with an optimized context at hand.
  unfoldable pub retrieve :
      OptimizedContext → InferenceExecutionContext → Result InferenceExecutionContext
  unfolding evolve with_warning select retrieval_precision
  retrieve optimized iec =
      let found = selected_for iec optimized in
      let precision = retrieval_precision c.retriever found.0 (codes iec.question) in
      evolve
        (set_evidence found.0
          ∷ set_trace (put_entry "retrieval" (c.describe found.0 found.1 precision) iec.trace)
          ∷ [])
        iec
      >>= λ result. if is_empty found.0 then with_warning no_passage result else ok result

  abbrev pub returned :
      Result InferenceExecutionContext
      → EventBus
      → Result (Option InferenceExecutionContext) × EventBus
  returned (ok result) bus = (ok (some result), bus)
  returned (raise e) bus = (raise e, bus)

  unfoldable pub run_retrieval :
      InferenceExecutionContext
      → PipelineStage
      → EventBus
      → Result (Option InferenceExecutionContext) × EventBus
  unfolding retrieve
  run_retrieval iec stage bus = elim iec.optimized_context [
    | none ↦ (raise (unexpected "AttributeError"), bus)
    | some optimized ↦ returned (retrieve optimized iec) bus
  ]

  unfoldable pub retrieval_capability : Capability
  unfolding run_retrieval
  retrieval_capability = record {
    spec = retrieval_spec;
    check_preconditions = context_missing;
    run = run_retrieval;
    check_postconditions = λ iec stage. budget_exceeded iec.optimized_context iec.evidence;
  }
