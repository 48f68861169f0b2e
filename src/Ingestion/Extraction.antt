-- ===== src/Ingestion/Extraction.antt =====
-- Reading the text of a file (packages/ingestion/services.py, `extract_text`). The three readers of
-- PDF files, the bytes of a file and the decoders are parameters. The list of attempts in the
-- details of an error is left out.
pub mod Fallback
use leanlm.Common.{
  ℕ, ◌+◌, ◌==◌, String, str_append, Bool, true, false, Option, none, some, List, [], ◌∷◌, ◌++◌, map,
  length, keep, is_empty, if◌then◌else◌,
}
use leanlm.Shared.Errors.{Result, ok, raise, input_error}
use leanlm.Shared.Text.{Text, join_with}
use leanlm.Contracts.Dto.{DocumentFormat, pdf, txt, markdown}

pub record ExtractionResult : Type 0 where
  pub text : Text
  pub method : String
  pub page_count : ℕ
  pub warnings : List String

-- What a call of a third-party reader does: the import fails, another exception is raised (known by
-- the name of its type), or it returns.
pub data Outcome {ℓ} (A : Type ℓ) : Type ℓ where
  import_error : Outcome A
  failed : String → Outcome A
  done : A → Outcome A

pub record Readers : Type 0 where
  -- `[page.extract_text() for page in PdfReader(path).pages]`
  pub pypdf : String → Outcome (List (Option Text))
  pub pdfminer : String → Outcome (Option Text)
  pub has_pdftotext : Bool
  -- what the program writes, read back
  pub pdftotext : String → Outcome Text
  pub read_bytes : String → List ℕ
  -- `bytes.decode(encoding)`; `none` is a `UnicodeDecodeError`
  pub decode : String → List ℕ → Option Text
  -- `str.strip`
  pub strip : Text → Text
  -- `Path.name`
  pub name : String → String

-- `text or ""`
abbrev pub or_empty : Option Text → Text
or_empty none = []
or_empty (some text) = text

-- One reader: the result of `_extract_pdf`, or the warnings so far.
pub data Attempted : Type 0 where
  found : ExtractionResult → Attempted
  still : List String → Attempted

-- `text.count("\f") + 1`
abbrev pub pages_of : Text → ℕ
pages_of text = length (keep (λ c. c == 12) text) + 1

module _ (r : Readers) where
  -- `if text.strip()`
  abbrev pub is_blank : Text → Bool
  is_blank text = is_empty (r.strip text)

  unfoldable pub try_pypdf : String → Attempted
  try_pypdf path = elim (r.pypdf path) [
    | import_error ↦ still ("pypdf unavailable" ∷ [])
    | failed kind ↦ still (str_append "pypdf failed: " kind ∷ [])
    | done pages ↦
        let text = join_with (10 ∷ 10 ∷ []) (map or_empty pages) in
        if is_blank text
        then still ("pypdf returned no text; trying pdfminer" ∷ [])
        else found
            (record { text = text; method = "pypdf"; page_count = length pages; warnings = [] })
  ]

  unfoldable pub try_pdfminer : List String → String → Attempted
  try_pdfminer ws path = elim (r.pdfminer path) [
    | import_error ↦ still (ws ++ "pdfminer.six unavailable" ∷ [])
    | failed kind ↦ still (ws ++ str_append "pdfminer failed: " kind ∷ [])
    | done extracted ↦
        let text = or_empty extracted in
        if is_blank text
        then still (ws ++ "pdfminer returned no text; trying pdftotext" ∷ [])
        else found (record {
          text = text;
          method = "pdfminer.six";
          page_count = pages_of text;
          warnings = ws;
        })
  ]

  -- Here a failed import would be an exception like any other, and a blank text adds no warning.
  unfoldable pub run_pdftotext : List String → String → Attempted
  run_pdftotext ws path = elim (r.pdftotext path) [
    | import_error ↦ still (ws ++ "pdftotext failed: ImportError" ∷ [])
    | failed kind ↦ still (ws ++ str_append "pdftotext failed: " kind ∷ [])
    | done text ↦
        if is_blank text
        then still ws
        else found (record {
          text = text;
          method = "pdftotext";
          page_count = pages_of text;
          warnings = ws;
        })
  ]

  unfoldable pub try_pdftotext : List String → String → Attempted
  unfolding run_pdftotext
  try_pdftotext ws path =
      let ran = run_pdftotext ws path in if r.has_pdftotext then ran else still ws

  -- The next reader, where one has found nothing.
  abbrev pub otherwise : Attempted → (List String → Attempted) → Attempted
  otherwise (found result) next = found result
  otherwise (still ws) next = next ws

  abbrev pub conclude : String → Attempted → Result ExtractionResult
  conclude path (found result) = ok result
  conclude path (still ws) = raise (
      input_error "ING-002" (str_append "no usable text could be extracted from " (r.name path))
        "ingestion" "import" "install one of: pypdf, pdfminer.six, poppler-utils")

  unfoldable pub extract_pdf : String → Result ExtractionResult
  unfolding try_pypdf try_pdfminer try_pdftotext
  extract_pdf path =
      let first = try_pypdf path in
      let second = otherwise first (λ ws. try_pdfminer ws path) in
      conclude path (otherwise second (λ ws. try_pdftotext ws path))

  -- The loop over the encodings.
  unfoldable pub decode_first : String → List ℕ → List String → Result ExtractionResult
  decode_first path raw [] = raise (
      input_error "ING-003" (str_append "unreadable text encoding in " (r.name path)) "ingestion"
        "validation" "re-save the file as UTF-8")
  decode_first path raw (encoding ∷ rest) =
      let later = decode_first path raw rest in
      elim (r.decode encoding raw) [
        | none ↦ later
        | some text ↦ ok (record {
          text = text;
          method = str_append "text:" encoding;
          page_count = 1;
          warnings = [];
        })
      ]

  abbrev pub encodings : List String
  encodings = "utf-8" ∷ "utf-8-sig" ∷ "latin-1" ∷ []

  unfoldable pub extract_text : String → DocumentFormat → Result ExtractionResult
  unfolding extract_pdf decode_first
  extract_text path pdf = extract_pdf path
  extract_text path txt = decode_first path (r.read_bytes path) encodings
  extract_text path markdown = decode_first path (r.read_bytes path) encodings
