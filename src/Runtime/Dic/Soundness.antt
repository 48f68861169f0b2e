-- ===== src/Runtime/Dic/Soundness.antt =====
-- A context in which the verifier (runtime/dic.py) finds nothing conforms to the contract.
use leanlm.Common.{
  ◌⊎◌, ℕ, ◌+◌, ◌≤◌, String, ◌≡◌, ◌≢◌, refl, sym, subst, Bool, true, false, not, ◌&&◌, ◌||◌, Option,
  none, some, List, [], ◌∷◌, ◌++◌, arith, leb, str_eq, inl, inr, Bool-cases, is_empty, All, eq_iff,
}
use leanlm.Shared.Telemetry.{StageRecord}
use leanlm.Contracts.Dto.{
  SelectedEvidence, MetricsSnapshot, ContextBudget, OptimizedContext, PromptPackage,
}
use leanlm.Contracts.Iec.{InferenceExecutionContext, completed_stages}
use leanlm.Runtime.Dic.{
  when, index_in, canonical, positions, insert, sorted, same_list, unknown, check_lifecycle,
  check_metrics, check_evidence, check_budget, check_failures, breaches, is_transparent, simulated,
  exceeds, verify,
}

abbrev pub IsSorted : List ℕ → Type 0
IsSorted [] = Unit
IsSorted (x ∷ xs) = All (λ y. x ≤ y) xs × IsSorted xs

abbrev pub IsMeasured : Option MetricsSnapshot → Type 0
IsMeasured none = ⊥
IsMeasured (some m) = (m.total_ms ≢ none) × (m.prompt_tokens ≢ none) × (m.peak_rss_mb ≢ none)

abbrev FitsBudget : Option ContextBudget → PromptPackage → Type 0
FitsBudget none p = Unit
FitsBudget (some b) p = p.prompt_tokens + b.reserved_output_tokens ≤ b.max_context_tokens

abbrev pub FitsWindow : Option OptimizedContext → Option PromptPackage → Type 0
FitsWindow (some o) (some p) = FitsBudget o.budget p
FitsWindow _ _ = Unit

-- The seven guarantees, stated without the verifier.
pub record Conforms (allow_simulated : Bool) (iec : InferenceExecutionContext) : Type 0 where
  pub in_order : IsSorted (positions (completed_stages iec))
  pub known : All (λ s. index_in s canonical ≢ none) (completed_stages iec)
  pub configured : iec.profile_id ≢ ""
  pub measured : IsMeasured iec.metrics
  pub identified : iec.request_id ≢ ""
  pub traceable : All (λ e. (e.unit_id ≢ "") × (e.document_name ≢ "")) iec.evidence
  pub fits : FitsWindow iec.optimized_context iec.prompt
  pub offline : breaches iec.trace ≡ []
  pub transparent : All (λ r. (r.status ≢ "failed") ⊎ (r.errors ≢ [])) iec.stages
  pub real : (allow_simulated ≡ true) ⊎ (simulated iec.response ≡ false)

All-weaken : (x y : ℕ) (xs : List ℕ) → x ≤ y → All (λ z. y ≤ z) xs → All (λ z. x ≤ z) xs
All-weaken x y [] h a = tt
All-weaken x y (z ∷ zs) h a = (omega arith, All-weaken x y zs h a.1)

insert-All : (x y : ℕ) (xs : List ℕ) → x ≤ y → All (λ z. x ≤ z) xs → All (λ z. x ≤ z) (insert y xs)
unfolding insert
insert-All x y [] h a = (h, tt)
insert-All x y (z ∷ zs) h a = elim (Bool-cases (leb y z)) [
  | inl le ↦ rw le (h, a)
  | inr gt ↦ rw gt (a.0, insert-All x y zs h a.1)
]

insert-IsSorted : (x : ℕ) (xs : List ℕ) → IsSorted xs → IsSorted (insert x xs)
unfolding insert
insert-IsSorted x [] h = (tt, tt)
insert-IsSorted x (y ∷ ys) h = elim (Bool-cases (leb x y)) [
  | inl le ↦ rw le (((ground arith), All-weaken x y ys (ground arith) h.0), h)
  | inr gt ↦ rw gt (insert-All y x ys (ground arith) h.0, insert-IsSorted x ys h.1)
]

sorted-IsSorted : (xs : List ℕ) → IsSorted (sorted xs)
unfolding sorted
sorted-IsSorted [] = tt
sorted-IsSorted (x ∷ xs) = insert-IsSorted x (sorted xs) (sorted-IsSorted xs)

same_list-eq : (xs ys : List ℕ) → same_list xs ys ≡ true → xs ≡ ys
unfolding same_list
same_list-eq [] [] h = refl
same_list-eq [] (y ∷ ys) h = cc
same_list-eq (x ∷ xs) [] h = cc
same_list-eq (x ∷ xs) (y ∷ ys) h = ground (arith, same_list-eq xs ys)

append-empty : {A : Type 0} (xs ys : List A) → xs ++ ys ≡ [] → (xs ≡ []) × (ys ≡ [])
append-empty [] ys h = (refl, h)
append-empty (x ∷ xs) ys h = cc

when-empty : (b : Bool) (rule detail : String) → when b rule detail ≡ [] → b ≡ false
when-empty true rule detail h = cc
when-empty false rule detail h = refl

known-All : (ss : List String) → unknown ss ≡ false → All (λ s. index_in s canonical ≢ none) ss
unfolding unknown
known-All [] h = tt
known-All (s ∷ ss) h = (λ e. ground arith, known-All ss (ground arith))

check_metrics-IsMeasured : (m : Option MetricsSnapshot) → check_metrics m ≡ [] → IsMeasured m
unfolding check_metrics
check_metrics-IsMeasured none h = cc
check_metrics-IsMeasured (some m) h = (λ e. ground arith, λ e. ground arith, λ e. ground arith)

check_evidence-traceable :
    (es : List SelectedEvidence)
    → check_evidence es ≡ []
    → All (λ e. (e.unit_id ≢ "") × (e.document_name ≢ "")) es
unfolding check_evidence
check_evidence-traceable [] h = tt
check_evidence-traceable (e ∷ es) h =
    let (here, rest) =
      append-empty (when (str_eq e.unit_id "" || str_eq e.document_name "") "DIC-04" e.label)
        (check_evidence es) h in
    let found =
      when-empty (str_eq e.unit_id "" || str_eq e.document_name "") "DIC-04" e.label here in
    (
      (λ x. ground (arith, eq_iff e.unit_id ""), λ x. ground (arith, eq_iff e.document_name "")),
      check_evidence-traceable es rest,
    )

budget-FitsBudget :
    (b : Option ContextBudget) (p : PromptPackage)
    → elim b [
      | none ↦ []
      | some b ↦ when (exceeds b p) "DIC-05" "the prompt exceeds the usable window"
    ]
      ≡ []
    → FitsBudget b p
budget-FitsBudget none p h = tt
budget-FitsBudget (some b) p h =
    let within = when-empty (exceeds b p) "DIC-05" "the prompt exceeds the usable window" h in
    ground arith

check_budget-FitsWindow :
    (o : Option OptimizedContext) (p : Option PromptPackage)
    → check_budget o p ≡ []
    → FitsWindow o p
unfolding check_budget
check_budget-FitsWindow none p h = tt
check_budget-FitsWindow (some o) none h = tt
check_budget-FitsWindow (some o) (some p) h = budget-FitsBudget o.budget p h

check_failures-transparent :
    (rs : List StageRecord)
    → check_failures rs ≡ []
    → All (λ r. (r.status ≢ "failed") ⊎ (r.errors ≢ [])) rs
unfolding check_failures
check_failures-transparent [] h = tt
check_failures-transparent (r ∷ rs) h =
    let (here, rest) =
      append-empty (when (not (is_transparent r)) "DIC-07" r.stage) (check_failures rs) h in
    let found = when-empty (not (is_transparent r)) "DIC-07" r.stage here in
    (
      elim (Bool-cases (str_eq r.status "failed")) [
        | inl bad ↦ inr (λ e. ground (arith, eq_iff r.status "failed"))
        | inr good ↦ inl (λ e. ground (arith, eq_iff r.status "failed"))
      ],
      check_failures-transparent rs rest,
    )

is_empty-eq : {A : Type 0} (xs : List A) → not (is_empty xs) ≡ false → xs ≡ []
is_empty-eq [] h = refl
is_empty-eq (x ∷ xs) h = cc

check_lifecycle_sound :
    (names : List String)
    → check_lifecycle names ≡ []
    → IsSorted (positions names) × All (λ s. index_in s canonical ≢ none) names
unfolding check_lifecycle
check_lifecycle_sound names h =
    let same = same_list (positions names) (sorted (positions names)) in
    let (c1, c2) = append-empty (when (not same) "DIC-01" "stages ran out of order") _ h in
    let agree : same ≡ true =
      ground (arith, when-empty (not same) "DIC-01" "stages ran out of order" c1) in
    (
      subst IsSorted (sym (same_list-eq (positions names) (sorted (positions names)) agree))
          (sorted-IsSorted (positions names)),
      known-All names (when-empty (unknown names) "DIC-01" "unknown stages executed" c2),
    )

-- When the verifier finds nothing, the context conforms: the executed stages are all known and in
-- the canonical order, a profile, the metrics and a request identifier are recorded, every
-- evidence is traceable, the prompt fits the window that its budget leaves, no network access was
-- seen, every failed stage carries an error, and no simulated response stands where one is not
-- allowed.
pub verify-Conforms :
    (allow_simulated : Bool) (iec : InferenceExecutionContext)
    → verify allow_simulated iec ≡ []
    → Conforms allow_simulated iec
unfolding verify
verify-Conforms allow iec h =
    let names = completed_stages iec in
    let (c1, h1) = append-empty (check_lifecycle names) _ h in
    let (c2, h2) =
      append-empty (when (str_eq iec.profile_id "") "DIC-02" "no runtime profile recorded") _ h1 in
    let (c3, h3) = append-empty (check_metrics iec.metrics) _ h2 in
    let (c4, h4) =
      append-empty (when (str_eq iec.request_id "") "DIC-04" "no request identifier") _ h3 in
    let (c5, h5) = append-empty (check_evidence iec.evidence) _ h4 in
    let (c6, h6) = append-empty (check_budget iec.optimized_context iec.prompt) _ h5 in
    let (c7, h7) =
      append-empty (when (not (is_empty (breaches iec.trace))) "DIC-06" "network access attempted")
        _ h6 in
    let (c8, h8) = append-empty (check_failures iec.stages) _ h7 in
    let (c9, _) =
      append-empty
        (when (not allow && simulated iec.response) "DIC-02"
          "simulated backend used where a real model was required")
        _ h8 in
    let life = check_lifecycle_sound names c1 in
    record {
      in_order = life.0;
      known = life.1;
      configured = λ e.
          ground (arith, eq_iff iec.profile_id "", when-empty (str_eq iec.profile_id "") _ _ c2);
      measured = check_metrics-IsMeasured iec.metrics c3;
      identified = λ e.
          ground (arith, eq_iff iec.request_id "", when-empty (str_eq iec.request_id "") _ _ c4);
      traceable = check_evidence-traceable iec.evidence c5;
      fits = check_budget-FitsWindow iec.optimized_context iec.prompt c6;
      offline =
          is_empty-eq (breaches iec.trace)
            (when-empty (not (is_empty (breaches iec.trace))) _ _ c7);
      transparent = check_failures-transparent iec.stages c8;
      real = elim (Bool-cases allow) [
        | inl lenient ↦ inl lenient
        | inr strict ↦ inr (ground (arith, when-empty (not allow && simulated iec.response) _ _ c9))
      ];
    }
