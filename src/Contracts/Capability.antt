-- ===== src/Contracts/Capability.antt =====
-- The capability contract and the registry (contracts/capability.py). What a capability does is
-- its `run` with its two checks: they are values here, as subclasses are in the source.
pub mod Laws
pub mod Registry
use leanlm.Common.{
  ℕ, String, str_append, Bool, Option, none, some, List, [], ◌∷◌, ◌++◌, map, leb, any, keep, length,
  if◌then◌else◌, str_eq, not,
}
use leanlm.Shared.Errors.{Result, ok, raise, contract_error, unexpected}
use leanlm.Shared.Events.{EventBus}
use leanlm.Contracts.Iec.{InferenceExecutionContext, PipelineStage, stage_value}

pub record CapabilitySpec : Type 0 where
  pub capability_id : String
  pub name : String
  pub package_path : String
  pub pipeline : String
  pub stages : List String

unfoldable pub owns : CapabilitySpec → String → Bool
owns spec stage = any (λ s. str_eq s stage) spec.stages

pub record Capability : Type 0 where
  pub spec : CapabilitySpec
  pub check_preconditions : InferenceExecutionContext → PipelineStage → Result (Unit {0})
  -- `none` is a `run` that forgets to return
  pub run :
      InferenceExecutionContext
      → PipelineStage
      → EventBus
      → Result (Option InferenceExecutionContext) × EventBus
  pub check_postconditions : InferenceExecutionContext → PipelineStage → Result (Unit {0})

-- `execute` after `run` has returned.
unfoldable pub accept :
    Capability
    → InferenceExecutionContext
    → PipelineStage
    → Option InferenceExecutionContext
    → Result InferenceExecutionContext
accept c iec stage none = raise (
    contract_error "ICIB-001" (str_append c.spec.capability_id " returned no context") c.spec.name
      (stage_value stage) "a capability must always return an enriched IEC")
accept c iec stage (some result) =
    if leb result.revision iec.revision
    then raise (
        contract_error "ICIB-002" (str_append c.spec.capability_id " did not enrich the context")
          c.spec.name (stage_value stage) "use iec.evolve(...) instead of mutating fields")
    else elim (c.check_postconditions result stage) [ ok _ ↦ ok result | raise e ↦ raise e ]

abbrev accept_result :
    Capability
    → InferenceExecutionContext
    → PipelineStage
    → Result (Option InferenceExecutionContext) × EventBus
    → Result InferenceExecutionContext × EventBus
accept_result c iec stage (ok result, bus) = (accept c iec stage result, bus)
accept_result c iec stage (raise e, bus) = (raise e, bus)

unfoldable pub execute :
    Capability
    → InferenceExecutionContext
    → PipelineStage
    → EventBus
    → Result InferenceExecutionContext × EventBus
unfolding accept owns
execute c iec stage bus =
    if not (owns c.spec (stage_value stage))
    then (
      raise (
          contract_error "ICIB-006"
            (str_append c.spec.capability_id
              (str_append " does not own stage " (stage_value stage)))
            c.spec.name (stage_value stage) "check the stage->capability wiring in the runtime"),
      bus,
    )
    else elim (c.check_preconditions iec stage) [
      | raise e ↦ (raise e, bus)
      | ok _ ↦ accept_result c iec stage (c.run iec stage bus)
    ]

-- `_by_id` in its insertion order, and `_order`.
pub record CapabilityRegistry : Type 0 where
  pub by_id : List (String × Capability)
  pub order : List String

abbrev pub empty_registry : CapabilityRegistry
empty_registry = record { by_id = []; order = [] }

unfoldable pub lookup : String → List (String × Capability) → Option Capability
lookup k [] = none
lookup k ((j, c) ∷ m) = if str_eq j k then some c else lookup k m

unfoldable pub register : Capability → CapabilityRegistry → Result CapabilityRegistry
unfolding lookup
register c r =
    let cid = c.spec.capability_id in
    elim (lookup cid r.by_id) [
      | some _ ↦ raise (
          contract_error "ICIB-003" (str_append "duplicate capability id " cid) "runtime" "unknown"
            "one package = one capability (MQ-01)")
      | none ↦ ok (record { by_id = r.by_id ++ (cid, c) ∷ []; order = r.order ++ cid ∷ [] })
    ]

unfoldable pub get : String → CapabilityRegistry → Result Capability
unfolding lookup
get cid r = elim (lookup cid r.by_id) [
  | some c ↦ ok c
  | none ↦
      raise
        (contract_error "ICIB-004" (str_append "unknown capability " cid) "runtime" "unknown" "")
]

-- `c for c in self._by_id.values() if c.spec.owns(value)`.
unfoldable pub owners : String → List (String × Capability) → List Capability
unfolding owns
owners stage [] = []
owners stage ((j, c) ∷ m) =
    let rest = owners stage m in if owns c.spec stage then c ∷ rest else rest

unfoldable pub for_stage : String → CapabilityRegistry → Result (Option Capability)
unfolding owners
for_stage stage r = elim (owners stage r.by_id) [
  | [] ↦ ok none
  | c ∷ rest ↦ elim rest [
    | [] ↦ ok (some c)
    | _ ∷ _ ↦ raise (
        contract_error "ICIB-007"
          (str_append "stage " (str_append stage " is claimed by several capabilities")) "runtime"
          "unknown" "a stage has exactly one owner (MQ-01)")
  ]
]

-- `self._by_id[cid].spec for cid in self._order`; the error is Python's `KeyError`.
unfoldable pub specs_of : List String → List (String × Capability) → Result (List CapabilitySpec)
unfolding lookup
specs_of [] m = ok []
specs_of (cid ∷ cids) m =
    let rest = specs_of cids m in
    elim (lookup cid m) [
      | none ↦ raise (unexpected "KeyError")
      | some c ↦ elim rest [ ok l ↦ ok (c.spec ∷ l) | raise e ↦ raise e ]
    ]

unfoldable pub specs : CapabilityRegistry → Result (List CapabilitySpec)
unfolding specs_of
specs r = specs_of r.order r.by_id
