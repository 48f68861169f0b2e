-- ===== src/Runtime/Dic.antt =====
-- The verifier of the Deterministic Inference Contract (runtime/dic.py). The values that the
-- source prints into the detail texts are left out.
pub mod Conformance
pub mod Soundness
use leanlm.Common.{
  ℕ, zero, suc, ◌+◌, ◌<◌, String, Bool, true, false, not, ◌&&◌, ◌||◌, Option, none, some, List, [],
  ◌∷◌, ◌++◌, map, ltb, leb, ◌==◌, str_eq, if◌then◌else◌, any, is_empty,
}
use leanlm.Shared.Errors.{Result, ok, raise, contract_error}
use leanlm.Shared.Telemetry.{StageRecord}
use leanlm.Contracts.Dto.{
  SelectedEvidence, MetricsSnapshot, ContextBudget, OptimizedContext, PromptPackage, ModelResponse,
}
use leanlm.Contracts.Iec.{stage_value, stage_order, InferenceExecutionContext, completed_stages}

pub record Violation : Type 0 where
  pub rule : String
  pub detail : String

-- `[violation] if test else []`.
abbrev pub when : Bool → String → String → List Violation
when test rule detail = if test then record { rule = rule; detail = detail } ∷ [] else []

-- `list.index`, and membership.
unfoldable pub index_in : String → List String → Option ℕ
index_in s [] = none
index_in s (x ∷ xs) =
    let rest = index_in s xs in
    if str_eq x s then some 0 else elim rest [ none ↦ none | some i ↦ some (suc i) ]

abbrev pub canonical : List String
canonical = map stage_value stage_order

-- `[canonical.index(stage) for stage in executed if stage in canonical]`.
unfoldable pub positions : List String → List ℕ
unfolding index_in
positions [] = []
positions (s ∷ ss) =
    let rest = positions ss in elim (index_in s canonical) [ none ↦ rest | some i ↦ i ∷ rest ]

-- `sorted`, and `==` on lists of numbers.
unfoldable pub insert : ℕ → List ℕ → List ℕ
insert x [] = x ∷ []
insert x (y ∷ ys) = let rest = insert x ys in if leb x y then x ∷ y ∷ ys else y ∷ rest

unfoldable pub sorted : List ℕ → List ℕ
unfolding insert
sorted [] = []
sorted (x ∷ xs) = insert x (sorted xs)

unfoldable pub same_list : List ℕ → List ℕ → Bool
same_list [] [] = true
same_list (x ∷ xs) (y ∷ ys) = x == y && same_list xs ys
same_list _ _ = false

unfoldable pub unknown : List String → Bool
unfolding index_in
unknown executed = any (λ s. elim (index_in s canonical) [ none ↦ true | some _ ↦ false ]) executed

-- DIC-01: the two tests on the executed stages.
unfoldable pub check_lifecycle : List String → List Violation
unfolding positions sorted same_list unknown
check_lifecycle executed =
    when (not (same_list (positions executed) (sorted (positions executed)))) "DIC-01"
      "stages ran out of order"
    ++ when (unknown executed) "DIC-01" "unknown stages executed"

abbrev pub is_missing : Option ℕ → Bool
is_missing none = true
is_missing (some _) = false

-- DIC-03
unfoldable pub check_metrics : Option MetricsSnapshot → List Violation
check_metrics none = when true "DIC-03" "no metrics snapshot produced"
check_metrics (some m) =
    when (is_missing m.total_ms || is_missing m.prompt_tokens || is_missing m.peak_rss_mb) "DIC-03"
      "missing metrics"

-- DIC-04, one evidence after the other.
unfoldable pub check_evidence : List SelectedEvidence → List Violation
check_evidence [] = []
check_evidence (e ∷ es) =
    when (str_eq e.unit_id "" || str_eq e.document_name "") "DIC-04" e.label ++ check_evidence es

-- DIC-05. The ceiling is `max_context_tokens - reserved_output_tokens`, which may be negative in
-- the source: the comparison is written without the subtraction.
abbrev pub exceeds : ContextBudget → PromptPackage → Bool
exceeds b p = ltb b.max_context_tokens (p.prompt_tokens + b.reserved_output_tokens)

unfoldable pub check_budget : Option OptimizedContext → Option PromptPackage → List Violation
check_budget (some o) (some p) = elim o.budget [
  | none ↦ []
  | some b ↦ when (exceeds b p) "DIC-05" "the prompt exceeds the usable window"
]
check_budget _ _ = []

-- `iec.trace.get("offline", {}).get("violations") or []`: of the guard's report, the entry of the
-- trace has the violations, a text for each, and nothing else.
unfoldable pub breaches : List (String × List String) → List String
breaches [] = []
breaches ((k, v) ∷ rest) = if str_eq k "offline" then v else breaches rest

-- DIC-07: a failed stage carries an error.
abbrev pub is_transparent : StageRecord → Bool
is_transparent r = not (str_eq r.status "failed" && is_empty r.errors)

unfoldable pub check_failures : List StageRecord → List Violation
check_failures [] = []
check_failures (r ∷ rs) = when (not (is_transparent r)) "DIC-07" r.stage ++ check_failures rs

abbrev pub simulated : Option ModelResponse → Bool
simulated none = false
simulated (some r) = r.is_simulated

-- The violations of the checks, one check after the other.
abbrev pub concat : List (List Violation) → List Violation
concat [] = []
concat (xs ∷ xss) = xs ++ concat xss

unfoldable pub verify : Bool → InferenceExecutionContext → List Violation
unfolding check_lifecycle check_metrics check_evidence check_budget breaches check_failures
    completed_stages
verify allow_simulated iec = concat (
    check_lifecycle (completed_stages iec)
    ∷ when (str_eq iec.profile_id "") "DIC-02" "no runtime profile recorded"
    ∷ check_metrics iec.metrics
    ∷ when (str_eq iec.request_id "") "DIC-04" "no request identifier"
    ∷ check_evidence iec.evidence
    ∷ check_budget iec.optimized_context iec.prompt
    ∷ when (not (is_empty (breaches iec.trace))) "DIC-06" "network access attempted"
    ∷ check_failures iec.stages
    ∷ when (not allow_simulated && simulated iec.response) "DIC-02"
        "simulated backend used where a real model was required"
    ∷ [])

unfoldable pub assert_contract : Bool → InferenceExecutionContext → Result (Unit {0})
unfolding verify
assert_contract allow_simulated iec =
    if is_empty (verify allow_simulated iec)
    then ok tt
    else raise (
        contract_error "DIC-000" "Deterministic Inference Contract violated" "runtime" "unknown"
          "the pipeline is not conformant; do not report these results")
