-- ===== src/Understanding/Contract.antt =====
-- The understanding capability (packages/understanding/contracts.py).
use leanlm.Common.{str_append, Option, none, some, [], ◌∷◌, is_empty, if◌then◌else◌}
use leanlm.Shared.Errors.{Result, ok, raise, input_error, Exception, ◌>>=◌}
use leanlm.Contracts.Ddp.{
  DocumentPipelineState, segmented, evolve, set_structured, set_state, DocumentCapability,
}
use leanlm.Understanding.Segmenter.{DocumentBuilder, build_structured_document}

abbrev pub not_normalized : Exception
not_normalized =
    input_error "UND-001" "understanding requires a normalized document" "understanding"
      "structure_detection" "run CAP-001 first"

unfoldable pub understand_document :
    DocumentBuilder → DocumentPipelineState → Result (Option DocumentPipelineState)
unfolding build_structured_document evolve
understand_document builder state = elim state.descriptor [
  | none ↦ raise not_normalized
  | some d ↦
      let structured =
        build_structured_document builder state.normalized_text d.filename d.artifact_id in
      if is_empty state.normalized_text
      then raise not_normalized
      else if is_empty structured.units
      then raise (
          input_error "UND-002" (str_append "no semantic unit produced for " d.filename)
            "understanding" "segmentation" "check the document content")
      else evolve (set_structured structured ∷ set_state segmented ∷ []) state >>= λ s. ok (some s)
]

abbrev pub understanding : DocumentBuilder → DocumentCapability
understanding builder = record {
  capability_id = "CAP-002";
  name = "Document Understanding";
  run = understand_document builder;
}
