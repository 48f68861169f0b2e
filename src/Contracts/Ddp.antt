-- ===== src/Contracts/Ddp.antt =====
-- The document pipeline's state (contracts/ddp.py) and its capabilities
-- (contracts/capability.py): states are never skipped, and a step must enrich the state.
pub mod Progress
use mathlib.Core.Logic.{ite}
use leanlm.Common.{
  ℕ, ◌+◌, String, str_append, Bool, true, false, Option, none, some, map, any, List, [], ◌∷◌, ◌++◌,
  ◌==◌, ◌||◌, leb, if◌then◌else◌,
}
use leanlm.Contracts.Dto.{DocumentDescriptor, RawDocument, StructuredDocument}
use leanlm.Shared.Text.{Text}
use leanlm.Shared.Telemetry.{StageRecord}
use leanlm.Shared.Errors.{
  ErrorRecord, Result, ok, raise, value_error, type_error, contract_error, ◌>>=◌,
}

pub data DocumentState : Type 0 where
  raw validated normalized structured segmented prepared exported : DocumentState

-- `DOCUMENT_STATE_ORDER.index`.
abbrev pub state_index : DocumentState → ℕ
state_index raw = 0
state_index validated = 1
state_index normalized = 2
state_index structured = 3
state_index segmented = 4
state_index prepared = 5
state_index exported = 6

abbrev pub state_value : DocumentState → String
state_value raw = "raw"
state_value validated = "validated"
state_value normalized = "normalized"
state_value structured = "structured"
state_value segmented = "segmented"
state_value prepared = "prepared"
state_value exported = "exported"

pub record DocumentPipelineState : Type 0 where
  pub source_path : String
  pub revision : ℕ
  pub state : DocumentState
  pub descriptor : Option DocumentDescriptor
  pub raw : Option RawDocument
  pub normalized_text : Text
  pub structured : Option StructuredDocument
  pub stages : List StageRecord
  pub warnings : List String
  pub errors : List ErrorRecord

abbrev pub new_state : String → DocumentPipelineState
new_state path = record {
  source_path = path;
  revision = 1;
  state = DocumentState.raw;
  descriptor = none;
  raw = none;
  normalized_text = [];
  structured = none;
  stages = [];
  warnings = [];
  errors = [];
}

-- One keyword argument of `evolve`.
pub data DocumentChange : Type 0 where
  set_state : DocumentState → DocumentChange
  set_descriptor : DocumentDescriptor → DocumentChange
  set_raw : RawDocument → DocumentChange
  set_normalized_text : Text → DocumentChange
  set_structured : StructuredDocument → DocumentChange
  set_stages : List StageRecord → DocumentChange
  set_warnings : List String → DocumentChange
  set_errors : List ErrorRecord → DocumentChange
  set_source_path : String → DocumentChange

abbrev pub names_source : DocumentChange → Bool
names_source (set_source_path _) = true
names_source _ = false

-- `advance` passes `state=` itself, so a second one is a `TypeError`.
abbrev pub names_state : DocumentChange → Bool
names_state (set_state _) = true
names_state _ = false

unfoldable pub apply_change : DocumentChange → DocumentPipelineState → DocumentPipelineState
apply_change (set_state v) s = record s { state = v }
apply_change (set_descriptor v) s = record s { descriptor = some v }
apply_change (set_raw v) s = record s { raw = some v }
apply_change (set_normalized_text v) s = record s { normalized_text = v }
apply_change (set_structured v) s = record s { structured = some v }
apply_change (set_stages v) s = record s { stages = v }
apply_change (set_warnings v) s = record s { warnings = v }
apply_change (set_errors v) s = record s { errors = v }
apply_change _ s = s

unfoldable pub apply_all : List DocumentChange → DocumentPipelineState → DocumentPipelineState
unfolding apply_change
apply_all [] s = s
apply_all (x ∷ xs) s = apply_all xs (apply_change x s)

unfoldable pub evolve : List DocumentChange → DocumentPipelineState → Result DocumentPipelineState
unfolding apply_all
evolve changes s =
    if any names_source changes
    then raise (value_error "source_path is immutable")
    else ok (apply_all changes (record s { revision = s.revision + 1 }))

unfoldable pub advance :
    DocumentState → List DocumentChange → DocumentPipelineState → Result DocumentPipelineState
unfolding evolve
advance target changes s =
    if any names_state changes
    then raise (type_error "multiple values for argument 'state'")
    else if state_index target == state_index s.state + 1
        || state_index target == state_index s.state
    then evolve (set_state target ∷ changes) s
    else raise (
        value_error (
          str_append "illegal document state transition "
            (str_append (state_value s.state) (str_append " -> " (state_value target)))))

unfoldable pub with_stage : StageRecord → DocumentPipelineState → Result DocumentPipelineState
unfolding evolve
with_stage r s = evolve (set_stages (s.stages ++ r ∷ []) ∷ []) s

unfoldable pub with_warning : String → DocumentPipelineState → Result DocumentPipelineState
unfolding evolve
with_warning w s = evolve (set_warnings (s.warnings ++ w ∷ []) ∷ []) s

-- `DocumentCapability`: its id, its name and what its `run` does; `none` is a `run` that returns
-- nothing.
pub record DocumentCapability : Type 0 where
  pub capability_id : String
  pub name : String
  pub run : DocumentPipelineState → Result (Option DocumentPipelineState)

not_enriched : DocumentCapability → Result DocumentPipelineState
not_enriched c = raise (
    contract_error "ICIB-005" (str_append c.capability_id " did not enrich the document state")
      c.name "unknown" "use state.evolve(...) / state.advance(...)")

unfoldable pub process : DocumentCapability → DocumentPipelineState → Result DocumentPipelineState
unfolding not_enriched
process c s = elim (c.run s) [
  | raise e ↦ raise e
  | ok r ↦ elim r [
    | none ↦ not_enriched c
    | some s' ↦ if leb s'.revision s.revision then not_enriched c else ok s'
  ]
]
