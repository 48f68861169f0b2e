-- ===== src/Runtime/Ingesting.antt =====
-- Documents into the corpus (runtime/runtime.py, `ingest` and `_collect_files`): the document
-- pipeline over the files, one after the other. The calls of `on_document` are listed; a callback
-- that raises is left out.
pub mod Isolation
pub mod Storage
pub mod Preparation
use leanlm.Common.{
  ℕ, ◌+◌, String, str_append, str_eq, Bool, true, false, not, ◌&&◌, Option, none, some, List, [],
  ◌∷◌, ◌++◌, length, any, keep, is_empty, if◌then◌else◌,
}
use leanlm.Shared.Errors.{
  ErrorRecord, Exception, leanlm_error, value_error, type_error, unexpected, input_error, Result,
  ok, raise, ◌>>=◌,
}
use leanlm.Shared.Events.{EventBus, document_loaded, text, number, emit}
use leanlm.Contracts.Dto.{DocumentDescriptor, StructuredDocument}
use leanlm.Contracts.Ddp.{DocumentPipelineState, new_state, process}
use leanlm.Ingestion.Loader.{FileSystem, IngestionPolicy}
use leanlm.Ingestion.Contract.{ingestion}
use leanlm.Understanding.Segmenter.{DocumentBuilder}
use leanlm.Understanding.Contract.{understanding}
use leanlm.Runtime.Corpus.{
  CorpusLibrary, CorpusStore, upsert_document, clear, document_count, unit_count, corpus_checksum,
}

pub record Ingested : Type 0 where
  pub file : String
  pub units : ℕ
  pub tokens : ℕ
  pub document_id : String

pub record Failed : Type 0 where
  pub file : String
  pub code : String
  pub message : String
  pub action : String

-- The arguments of a call of `on_document`.
pub record Notice : Type 0 where
  pub path : String
  pub success : Bool
  pub message : String

-- The local variables of the loop, with the corpus and the bus.
pub record Progress : Type 0 where
  pub corpus : CorpusStore
  pub bus : EventBus
  pub ingested : List Ingested
  pub failed : List Failed
  pub units : ℕ
  pub notices : List Notice

pub record IngestReport : Type 0 where
  pub ingested : List Ingested
  pub failed : List Failed
  pub units_added : ℕ
  pub documents_added : ℕ
  pub corpus_documents : ℕ
  pub corpus_units : ℕ
  pub replaced : Bool
  pub corpus_checksum : String

-- The two capabilities as `ingest` makes them, and what it takes from the standard library.
pub record Importer : Type 0 where
  pub fs : FileSystem
  pub policy : IngestionPolicy
  pub builder : DocumentBuilder
  pub library : CorpusLibrary
  pub now : String
  pub format : ℕ → String
  -- `Path(entry).expanduser()`
  pub expand : String → String
  pub is_dir : String → Bool
  -- `sorted(path.rglob("*"))`
  pub rglob : String → List String

abbrev pub supported_suffixes : List String
supported_suffixes = ".pdf" ∷ ".txt" ∷ ".text" ∷ ".md" ∷ ".markdown" ∷ []

-- The paths that are not yet in `seen`, each once.
unfoldable pub unique_from : List String → List String → List String
unique_from seen [] = []
unique_from seen (p ∷ ps) =
    let later = unique_from (p ∷ seen) ps in
    let rest = unique_from seen ps in if any (str_eq p) seen then rest else p ∷ later

abbrev resolve_all : (String → String) → List String → List String
resolve_all resolve [] = []
resolve_all resolve (p ∷ ps) = resolve p ∷ resolve_all resolve ps

module _ (i : Importer) where
  abbrev pub is_supported : String → Bool
  is_supported path = i.fs.is_file path && any (str_eq (i.fs.suffix path)) supported_suffixes

  unfoldable pub collect : List String → List String
  collect [] = []
  collect (entry ∷ entries) =
      let path = i.expand entry in
      let rest = collect entries in
      if i.is_dir path
      then keep is_supported (i.rglob path) ++ rest
      else if i.fs.is_file path
      then path ∷ rest
      else rest

  unfoldable pub collect_files : List String → List String
  unfolding collect unique_from
  collect_files paths = unique_from [] (resolve_all i.fs.resolve (collect paths))

  -- Both capabilities on one file.
  unfoldable pub prepare : String → Result DocumentPipelineState
  unfolding process
  prepare path =
      process (ingestion i.fs i.policy) (new_state path) >>= process (understanding i.builder)

  abbrev pub ingested_of : String → StructuredDocument → Ingested
  ingested_of path d = record {
    file = i.fs.readers.name path;
    units = length d.units;
    tokens = d.token_estimate;
    document_id = d.document_id;
  }

  abbrev pub failed_of : String → ErrorRecord → Failed
  failed_of path e = record {
    file = i.fs.readers.name path;
    code = e.code;
    message = e.message;
    action = e.recommended_action;
  }

  -- What follows `upsert_document`.
  unfoldable pub note_ingested : String → StructuredDocument → Progress → Progress
  unfolding emit
  note_ingested path d w = record {
    corpus = w.corpus;
    bus =
        emit document_loaded "-" "ingestion"
          (("filename", text (i.fs.readers.name path)) ∷ ("units", number (length d.units)) ∷ [])
          w.bus;
    ingested = w.ingested ++ ingested_of path d ∷ [];
    failed = w.failed;
    units = w.units + length d.units;
    notices =
        w.notices
        ++ (record {
          path = path;
          success = true;
          message = str_append (i.format (length d.units)) " units";
        })
          ∷ [];
  }

  -- `except LeanLMError`; any other exception goes on.
  unfoldable pub catch_error : String → Exception → Progress → Result (Unit {0}) × Progress
  catch_error path (leanlm_error e) w = (
    ok tt,
    record w {
      failed = w.failed ++ failed_of path e ∷ [];
      notices = w.notices ++ (record { path = path; success = false; message = e.message }) ∷ [];
    },
  )
  catch_error path (value_error m) w = (raise (value_error m), w)
  catch_error path (type_error m) w = (raise (type_error m), w)
  catch_error path (unexpected m) w = (raise (unexpected m), w)

  abbrev pub after_upsert :
      String
      → StructuredDocument
      → Result (Unit {0}) × CorpusStore
      → Progress
      → Result (Unit {0}) × Progress
  after_upsert path d (ok _, corpus) w =
      (ok tt, note_ingested path d (record w { corpus = corpus }))
  after_upsert path d (raise e, corpus) w = catch_error path e (record w { corpus = corpus })

  unfoldable pub store_document :
      String → DocumentDescriptor → StructuredDocument → Progress → Result (Unit {0}) × Progress
  unfolding upsert_document note_ingested catch_error
  store_document path descriptor d w =
      after_upsert path d (upsert_document i.library d path descriptor.file_checksum i.now w.corpus)
        w

  -- The attributes of what the pipeline has made.
  abbrev pub store_state : String → DocumentPipelineState → Progress → Result (Unit {0}) × Progress
  store_state path s w = elim s.structured [
    | none ↦ catch_error path (unexpected "AttributeError") w
    | some d ↦ elim s.descriptor [
      | none ↦ catch_error path (unexpected "AttributeError") w
      | some descriptor ↦ store_document path descriptor d w
    ]
  ]

  -- One round of the loop.
  unfoldable pub ingest_file : String → Progress → Result (Unit {0}) × Progress
  unfolding prepare store_document catch_error
  ingest_file path w = elim (prepare path) [
    | raise e ↦ catch_error path e w
    | ok s ↦ store_state path s w
  ]

  abbrev pub ingest_files : List String → Progress → Result (Unit {0}) × Progress
  ingest_files [] w = (ok tt, w)
  ingest_files (path ∷ paths) w =
      let tried = ingest_file path w in
      let rest = ingest_files paths tried.1 in
      elim tried.0 [ raise e ↦ (raise e, tried.1) | ok _ ↦ rest ]

  unfoldable pub report_of : Bool → Progress → IngestReport × CorpusStore
  unfolding document_count unit_count corpus_checksum
  report_of replace w =
      let checked = corpus_checksum i.library w.corpus in
      (
        record {
          ingested = w.ingested;
          failed = w.failed;
          units_added = w.units;
          documents_added = length w.ingested;
          corpus_documents = document_count i.library w.corpus;
          corpus_units = unit_count i.library w.corpus;
          replaced = replace;
          corpus_checksum = checked.0;
        },
        checked.1,
      )

  abbrev pub begin : Bool → CorpusStore → EventBus → Progress
  begin replace corpus bus = record {
    corpus = if replace then clear i.library corpus else corpus;
    bus = bus;
    ingested = [];
    failed = [];
    units = 0;
    notices = [];
  }

  abbrev pub conclude : Bool → Result (Unit {0}) × Progress → Result IngestReport × Progress
  conclude replace (raise e, w) = (raise e, w)
  conclude replace (ok _, w) =
      let reported = report_of replace w in (ok reported.0, record w { corpus = reported.1 })

  unfoldable pub ingest :
      List String → Bool → CorpusStore → EventBus → Result IngestReport × Progress
  unfolding collect_files ingest_file report_of clear
  ingest paths replace corpus bus =
      let files = collect_files paths in
      if is_empty files
      then (
        raise (
            input_error "COR-002" "no supported document found" "runtime" "import"
              "supported formats: .pdf, .txt, .md"),
        begin false corpus bus,
      )
      else conclude replace (ingest_files files (begin replace corpus bus))
