-- ===== src/Scenarios/Ingesting.antt =====
-- A folder with a contract, a copy of it, a picture and an empty note, and its import.
use leanlm.Common.{
  ℕ, zero, suc, ◌≡◌, refl, String, str_append, str_eq, Bool, true, false, not, none, some, List, [],
  ◌∷◌, length, if◌then◌else◌, any, All, ◌==◌,
}
use leanlm.Shared.Errors.{Result, ok, raise}
use leanlm.Shared.Text.{Text, codes}
use leanlm.Shared.Text.Normalization.{normalize_text}
use leanlm.Ingestion.Extraction.{Readers, failed, done, extract_pdf}
use leanlm.Ingestion.Extraction.Fallback.{IsFirst, extract_pdf-first}
use leanlm.Ingestion.Loader.{FileSystem, IngestionPolicy}
use leanlm.Runtime.Corpus.{new_store, has_document}
use leanlm.Runtime.Corpus.Caches.{apply_all, clearing}
use leanlm.Runtime.Corpus.References.{IsConsistent}
use leanlm.Runtime.Ingesting.{
  Importer, Ingested, Progress, IngestReport, collect_files, prepare, ingest,
}
use leanlm.Runtime.Ingesting.Isolation.{IsReported, ingest-IsReported}
use leanlm.Runtime.Ingesting.Storage.{ingest-IsConsistent}
use leanlm.Runtime.Ingesting.Preparation.{Prepared, prepare-IsPrepared}
use leanlm.Ingestion.Contract.{ingest_document}
use leanlm.Understanding.Contract.{understand_document}
use leanlm.Shared.Text.Counter.{count}
use leanlm.Scenarios.Structuring.{patterns, contract_text, segmenter}
use leanlm.Scenarios.Storing.{library}
use leanlm.Scenarios.Wiring.{bus}

abbrev is_space : ℕ → Bool
is_space c = any (λ d. c == d) (9 ∷ 10 ∷ 13 ∷ 32 ∷ [])

abbrev readers : Readers
readers = record {
  pypdf = λ path. failed "PdfReadError";
  pdfminer = λ path. done (some (codes "Contrat"));
  has_pdftotext = true;
  pdftotext = λ path. done [];
  read_bytes = λ path. contract_text;
  decode = λ encoding bytes. if str_eq encoding "utf-8" then none else some bytes;
  strip = λ t. t;
  name = λ path. path;
}

abbrev fs : FileSystem
fs = record {
  readers = readers;
  resolve = λ path. path;
  is_file = λ path. not (str_eq path "folder");
  suffix = λ path. if str_eq path "photo" then ".jpg" else ".md";
  size = λ path. if str_eq path "empty" then 0 else 70;
  sha256_file = λ path. "sum";
  modified_at = λ path. "2025";
  identity = λ sum name. str_append sum name;
  is_space = is_space;
  nfc = λ t. t;
  size_note = λ size limit. "";
  count_note = λ n. "";
}

abbrev tally : ℕ → String
tally zero = ""
tally (suc n) = str_append "i" (tally n)

abbrev policy : IngestionPolicy
policy = record {
  max_file_size_mb = record { num = 25; den = 1 };
  min_extractable_chars = 40;
  max_documents = 500;
  reject_binary_ratio = record { num = 15; den = 100 };
}

abbrev importer : Importer
importer = record {
  fs = fs;
  policy = policy;
  builder = record {
    sha256_text = λ t. t;
    stem = codes;
    patterns = patterns;
    policy = segmenter.policy;
    count = segmenter.count;
    lib = segmenter.lib;
    format = tally;
  };
  library = library;
  now = "t";
  format = tally;
  expand = λ path. path;
  is_dir = λ path. str_eq path "folder";
  rglob = λ path. "contract" ∷ "empty" ∷ "photo" ∷ [];
}

abbrev paths : List String
paths = "folder" ∷ "photo" ∷ "contract" ∷ "missing" ∷ []

files_found : collect_files importer paths ≡ "contract" ∷ "empty" ∷ "photo" ∷ "missing" ∷ []
unfolding collect_files
files_found = refl

abbrev dirty : Text
dirty = codes "a\tb  \r\n\n\n\nc "

normalize_text_runs : normalize_text is_space (λ t. t) dirty ≡ codes "a b\n\nc"
unfolding normalize_text
normalize_text_runs = refl

extract_pdf-first_example : IsFirst readers "a.pdf" (extract_pdf readers "a.pdf")
extract_pdf-first_example = extract_pdf-first readers "a.pdf"

ingest-IsReported_example :
    IsReported importer (collect_files importer paths) (ingest importer paths true new_store bus)
ingest-IsReported_example = ingest-IsReported importer paths true new_store bus

prepare-IsPrepared_example : Prepared importer "contract" (prepare importer "contract")
prepare-IsPrepared_example = prepare-IsPrepared importer "contract"

abbrev imported : Progress
imported = (ingest importer paths true (apply_all library (clearing ∷ []) new_store) bus).1

ingest-IsConsistent_example :
    IsConsistent imported.corpus.tables
    × All
        (λ (x : Ingested). has_document x.document_id imported.corpus.tables ≡ true)
        imported.ingested
ingest-IsConsistent_example = ingest-IsConsistent importer (clearing ∷ []) paths true bus

abbrev figures : Result IngestReport → List ℕ
figures (ok r) =
    length r.ingested
    ∷ length r.failed
    ∷ r.units_added
    ∷ r.documents_added
    ∷ r.corpus_documents
    ∷ []
figures (raise e) = []

abbrev import_runs : List ℕ
import_runs = figures (ingest importer paths true new_store bus).0

-- Two copies under one name in two folders are one document of the corpus.
abbrev copying : Importer
copying = record importer { fs = record fs { readers = record readers { name = λ path. "same" } } }

abbrev copies_run : List ℕ
copies_run = figures (ingest copying ("one" ∷ "two" ∷ []) false new_store bus).0

import_counts : import_runs ≡ 2 ∷ 2 ∷ 8 ∷ 2 ∷ 2 ∷ []
unfolding ingest ingest_document understand_document count
import_counts = refl

copies_counted : copies_run ≡ 2 ∷ 0 ∷ 8 ∷ 2 ∷ 1 ∷ []
unfolding ingest ingest_document understand_document count
copies_counted = refl
