-- ===== src/Contracts/Dto.antt =====
-- The versioned data objects (contracts/dto.py). The canonical `meta` block is left out, but for
-- the identifier of a descriptor, and the floating-point fields that no modelled code reads are left out.
use leanlm.Shared.Text.{Text, Ratio}
use leanlm.Common.{ℕ, String, Bool, Option, List}

pub data UnitKind : Type 0 where
  heading paragraph list table code : UnitKind

unfoldable pub UnitKind-discrete : Discrete UnitKind
UnitKind-discrete = hlevel

pub record SemanticUnit : Type 0 where
  pub unit_id : String
  pub document_id : String
  pub document_name : String
  pub kind : UnitKind
  pub text : Text
  pub section_path : List Text
  pub order : ℕ
  pub char_start : ℕ
  pub char_end : ℕ
  pub token_estimate : ℕ
  pub heading_level : ℕ

pub data IntentType : Type 0 where
  factual comparison summary extraction explanation drafting : IntentType

-- The confidence is one of "high", "medium" and "low".
pub record IntentClassification : Type 0 where
  pub intent : IntentType
  pub confidence : String
  pub signals : List String
  pub keywords : List Text

pub record ContextPackage : Type 0 where
  pub units : List SemanticUnit
  pub document_ids : List String
  pub total_units : ℕ
  pub total_tokens : ℕ
  pub corpus_checksum : String

pub record ContextBudget : Type 0 where
  pub max_context_tokens : ℕ
  pub evidence_tokens : ℕ
  pub reserved_output_tokens : ℕ
  pub reserved_prompt_overhead : ℕ
  pub max_passages : ℕ
  pub limiting_factor : String

-- Measurements are fractions; a negative temperature is not one.
pub record ResourceObservation : Type 0 where
  pub available_ram_mb : Ratio
  pub cpu_percent : Ratio
  pub temperature_c : Option Ratio

pub record OptimizedContext : Type 0 where
  pub units : List SemanticUnit
  pub budget : Option ContextBudget
  pub input_tokens : ℕ
  pub output_tokens : ℕ
  pub dropped_units : ℕ
  pub merged_units : ℕ
  pub duplicate_units : ℕ
  pub operations : List (String × ℕ)

pub record SelectedEvidence : Type 0 where
  pub label : String
  pub unit_id : String
  pub document_name : String
  pub section_path : List Text
  pub text : Text
  pub token_estimate : ℕ

pub record PromptPackage : Type 0 where
  pub rendered : Text
  pub prompt_tokens : ℕ
  pub context_tokens : ℕ
  pub evidence_labels : List String

pub record ModelResponse : Type 0 where
  pub text : Text
  pub generated_tokens : ℕ
  pub prompt_tokens : ℕ
  pub stop_reason : String
  pub is_simulated : Bool
  pub truncated : Bool

pub data ConfidenceLevel : Type 0 where
  high medium low insufficient : ConfidenceLevel

pub record ValidationReport : Type 0 where
  pub passed : Bool
  pub confidence : ConfidenceLevel
  pub grounding_rate : Ratio
  pub evidence_coverage : Ratio
  pub question_coverage : Ratio
  pub cited_labels : List String
  pub unsupported_sentences : List Text
  pub uncertainty_declared : Bool
  pub checks : List (String × Bool)
  pub warnings : List String

-- The fields that the contract verifier asks for; `none` is Python's `None`.
pub record MetricsSnapshot : Type 0 where
  pub total_ms : Option ℕ
  pub prompt_tokens : Option ℕ
  pub peak_rss_mb : Option ℕ

pub data DocumentFormat : Type 0 where
  pdf txt markdown : DocumentFormat

pub record DocumentDescriptor : Type 0 where
  pub artifact_id : String
  pub path : String
  pub filename : String
  pub doc_format : DocumentFormat
  pub size_bytes : ℕ
  pub file_checksum : String
  pub modified_at : String

pub record RawDocument : Type 0 where
  pub descriptor_id : String
  pub filename : String
  pub text : Text
  pub extraction_method : String
  pub page_count : ℕ

pub record StructuredDocument : Type 0 where
  pub document_id : String
  pub filename : String
  pub title : Text
  pub units : List SemanticUnit
  pub section_titles : List Text
  pub token_estimate : ℕ
  pub language_hint : String
