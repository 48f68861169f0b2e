-- ===== src/Ingestion/Loader/Limits.antt =====
-- What an ingested document satisfies (packages/ingestion/services.py, contracts.py).
use leanlm.Common.{
  ℕ, String, ◌≤◌, ◌<◌, ltb, ◌==◌, ◌≡◌, refl, true, false, not, some, length, if-ind, subst, arith,
}
use leanlm.Shared.Errors.{Result, ok, raise, Option-ind, bind-ind}
use leanlm.Contracts.Dto.{DocumentFormat, DocumentDescriptor, RawDocument}
use leanlm.Ingestion.Extraction.{extract_text}
use leanlm.Ingestion.Loader.{
  IngestionPolicy, FileSystem, supported_extensions, format_of, detect_format, is_too_large,
  describe, load,
}

positive : (n : ℕ) → (n == 0) ≡ false → 0 < n
positive n h = ground arith

at_least : (a b : ℕ) → ltb a b ≡ false → b ≤ a
at_least a b h = ground arith

module _ (fs : FileSystem) (p : IngestionPolicy) where
  -- The file is there, of a supported format, not empty and within the limit of the policy.
  pub record IsDescribed (path : String) (d : DocumentDescriptor) : Type 0 where
    pub resolved : d.path ≡ fs.resolve path
    pub present : fs.is_file d.path ≡ true
    pub supported : format_of (fs.suffix d.path) supported_extensions ≡ some d.doc_format
    pub sized : d.size_bytes ≡ fs.size d.path
    pub filled : 0 < d.size_bytes
    pub limited : is_too_large fs p d.size_bytes ≡ false
    pub checked : d.file_checksum ≡ fs.sha256_file d.path

  abbrev pub Described : String → Result DocumentDescriptor → Type 0
  Described path (ok d) = IsDescribed path d
  Described path (raise e) = Unit {0}

  -- The text of the file, of which enough is left without the white space at its ends.
  pub record IsLoaded (d : DocumentDescriptor) (raw : RawDocument) : Type 0 where
    pub source : raw.descriptor_id ≡ d.artifact_id
    pub long_enough : p.min_extractable_chars ≤ length (fs.readers.strip raw.text)

  abbrev pub Loaded : DocumentDescriptor → Result RawDocument → Type 0
  Loaded d (ok raw) = IsLoaded d raw
  Loaded d (raise e) = Unit {0}

  abbrev Detected : String → Result DocumentFormat → Type 0
  Detected path (ok f) = format_of (fs.suffix path) supported_extensions ≡ some f
  Detected path (raise e) = Unit {0}

  detect_format-Detected : (path : String) → Detected path (detect_format fs path)
  unfolding detect_format
  detect_format-Detected path =
      Option-ind (Detected path) (format_of (fs.suffix path) supported_extensions) (λ f e. e)
        (λ e. tt)

  pub describe-Described : (path : String) → Described path (describe fs p path)
  unfolding describe
  describe-Described path =
      let target = fs.resolve path in
      if-ind (Described path) (not (fs.is_file target)) (λ e. tt)
        (λ here.
          bind-ind (Described path) (detect_format fs target)
            (λ f found.
              let supported = subst (Detected target) found (detect_format-Detected target) in
              if-ind (Described path) (fs.size target == 0) (λ e. tt)
                (λ filled.
                  if-ind (Described path) (is_too_large fs p (fs.size target)) (λ e. tt)
                    (λ limited. record {
                      resolved = refl;
                      present = ground (arith, here);
                      supported = supported;
                      sized = refl;
                      filled = positive (fs.size target) filled;
                      limited = limited;
                      checked = refl;
                    })))
            (λ e _. tt))

  pub load-Loaded : (d : DocumentDescriptor) → Loaded d (load fs p d)
  unfolding load
  load-Loaded d =
      bind-ind (Loaded d) (extract_text fs.readers d.path d.doc_format)
        (λ result found.
          if-ind (Loaded d) (ltb (length (fs.readers.strip result.text)) p.min_extractable_chars)
            (λ e. tt)
            (λ e. record {
              source = refl;
              long_enough = at_least (length (fs.readers.strip result.text)) _ e;
            }))
        (λ e _. tt)
