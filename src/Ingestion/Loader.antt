-- ===== src/Ingestion/Loader.antt =====
-- The first three stages of the document pipeline (packages/ingestion/services.py,
-- `detect_format` and `DocumentLoader`, with packages/ingestion/policies.py). What the file system
-- says of a path, the digests and the layout of numbers in a message are parameters.
pub mod Limits
use leanlm.Common.{
  ℕ, ◌*◌, ltb, ◌==◌, String, str_append, str_eq, Bool, true, false, not, Option, none, some, List,
  [], ◌∷◌, length, if◌then◌else◌,
}
use leanlm.Shared.Errors.{Result, ok, raise, input_error, ◌>>=◌}
use leanlm.Shared.Text.{Text, Ratio}
use leanlm.Shared.Text.Normalization.{normalize_text}
use leanlm.Contracts.Dto.{DocumentFormat, pdf, txt, markdown, DocumentDescriptor, RawDocument}
use leanlm.Ingestion.Extraction.{Readers, ExtractionResult, extract_text}

-- `max_documents` and `reject_binary_ratio`, which nothing reads, are kept.
pub record IngestionPolicy : Type 0 where
  pub max_file_size_mb : Ratio
  pub min_extractable_chars : ℕ
  pub max_documents : ℕ
  pub reject_binary_ratio : Ratio

pub record FileSystem : Type 0 where
  pub readers : Readers
  -- `Path(path).expanduser().resolve()`
  pub resolve : String → String
  pub is_file : String → Bool
  -- `path.suffix.lower()`
  pub suffix : String → String
  pub size : String → ℕ
  pub sha256_file : String → String
  pub modified_at : String → String
  -- the identifier that `build_meta` derives from the checksum and the name
  pub identity : String → String → String
  pub is_space : ℕ → Bool
  pub nfc : Text → Text
  pub size_note : ℕ → Ratio → String
  pub count_note : ℕ → String

abbrev pub supported_extensions : List (String × DocumentFormat)
supported_extensions =
    (".txt", txt)
    ∷ (".text", txt)
    ∷ (".md", markdown)
    ∷ (".markdown", markdown)
    ∷ (".pdf", pdf)
    ∷ []

abbrev pub format_of : String → List (String × DocumentFormat) → Option DocumentFormat
format_of suffix [] = none
format_of suffix ((s, f) ∷ rest) =
    let later = format_of suffix rest in if str_eq suffix s then some f else later

module _ (fs : FileSystem) where
  unfoldable pub detect_format : String → Result DocumentFormat
  detect_format path = elim (format_of (fs.suffix path) supported_extensions) [
    | some f ↦ ok f
    | none ↦
        let suffix = fs.suffix path in
        raise (
          input_error "ING-001"
            (str_append "unsupported document format: "
              (if str_eq suffix "" then "(none)" else suffix))
            "ingestion" "validation" "convert the file to PDF, TXT or Markdown")
  ]

  -- `size > self.policy.max_file_size_mb * 1024 * 1024`
  abbrev pub is_too_large : IngestionPolicy → ℕ → Bool
  is_too_large p size = ltb (p.max_file_size_mb.num * 1048576) (size * p.max_file_size_mb.den)

  unfoldable pub describe : IngestionPolicy → String → Result DocumentDescriptor
  unfolding detect_format
  describe p path =
      let target = fs.resolve path in
      let name = fs.readers.name target in
      let size = fs.size target in
      if not (fs.is_file target)
      then raise (
          input_error "ING-004" (str_append "document not found: " target) "ingestion" "import"
            "check the path")
      else detect_format target >>= λ doc_format.
          if size == 0
          then raise (
              input_error "ING-005" (str_append "empty document: " name) "ingestion" "validation"
                "remove the file from the corpus")
          else if is_too_large p size
          then raise (
              input_error "ING-006"
                (str_append "document exceeds the MVP size limit "
                  (fs.size_note size p.max_file_size_mb))
                "ingestion" "validation" "split the document before ingestion")
          else ok (record {
            artifact_id = fs.identity (fs.sha256_file target) name;
            path = target;
            filename = name;
            doc_format = doc_format;
            size_bytes = size;
            file_checksum = fs.sha256_file target;
            modified_at = fs.modified_at target;
          })

  unfoldable pub load : IngestionPolicy → DocumentDescriptor → Result RawDocument
  unfolding extract_text
  load p d = extract_text fs.readers d.path d.doc_format >>= λ (result : ExtractionResult).
      let chars = length (fs.readers.strip result.text) in
      if ltb chars p.min_extractable_chars
      then raise (
          input_error "ING-007"
            (str_append "document " (
              str_append d.filename (str_append " carries too little text " (fs.count_note chars))))
            "ingestion" "validation" "check that the PDF is not a scanned image")
      else ok (record {
        descriptor_id = d.artifact_id;
        filename = d.filename;
        text = result.text;
        extraction_method = result.method;
        page_count = result.page_count;
      })

  unfoldable pub normalize : RawDocument → Text
  unfolding normalize_text
  normalize raw = normalize_text fs.is_space fs.nfc raw.text
