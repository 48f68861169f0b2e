-- ===== src/Ingestion/Contract.antt =====
-- The ingestion capability (packages/ingestion/contracts.py).
use leanlm.Common.{Option, some, [], ◌∷◌}
use leanlm.Shared.Errors.{Result, ok, ◌>>=◌}
use leanlm.Contracts.Ddp.{
  DocumentPipelineState, normalized, evolve, set_descriptor, set_raw, set_normalized_text,
  set_state, DocumentCapability,
}
use leanlm.Ingestion.Loader.{FileSystem, IngestionPolicy, describe, load, normalize}

unfoldable pub ingest_document :
    FileSystem → IngestionPolicy → DocumentPipelineState → Result (Option DocumentPipelineState)
unfolding describe load normalize evolve
ingest_document fs p state = describe fs p state.source_path >>= λ descriptor.
    load fs p descriptor >>= λ raw.
    evolve
      (set_descriptor descriptor
        ∷ set_raw raw
        ∷ set_normalized_text (normalize fs raw)
        ∷ set_state normalized
        ∷ [])
      state
    >>= λ s. ok (some s)

abbrev pub ingestion : FileSystem → IngestionPolicy → DocumentCapability
ingestion fs p = record {
  capability_id = "CAP-001";
  name = "Document Ingestion";
  run = ingest_document fs p;
}
