-- ===== src/Runtime/Ingesting/Preparation.antt =====
-- What the document pipeline of `ingest` hands to the corpus (packages/ingestion/contracts.py,
-- packages/understanding/contracts.py, contracts/capability.py).
use leanlm.Common.{
  leb, ◌≡◌, refl, ap, ◌∙◌, String, false, Option, none, some, is_empty, subst, sym, if-ind, arith,
}
use leanlm.Shared.Errors.{Result, ok, raise, Option-ind, Result-ind, bind-ind}
use leanlm.Contracts.Dto.{DocumentDescriptor, RawDocument, StructuredDocument}
use leanlm.Contracts.Ddp.{
  normalized, segmented, DocumentPipelineState, new_state, process, evolve, apply_change, apply_all,
}
use leanlm.Ingestion.Loader.{describe, load, normalize}
use leanlm.Ingestion.Loader.Limits.{
  IsDescribed, Described, describe-Described, IsLoaded, Loaded, load-Loaded,
}
use leanlm.Ingestion.Contract.{ingestion, ingest_document}
use leanlm.Understanding.Segmenter.{build_structured_document}
use leanlm.Understanding.Contract.{understanding, understand_document}
use leanlm.Runtime.Ingesting.{Importer, prepare}

abbrev value_or {ℓ} : {A : Type ℓ} → Option A → A → A
value_or none a = a
value_or (some x) a = x

module _ (i : Importer) (path : String) where
  pub record IsNormalized (s : DocumentPipelineState) : Type 0 where
    pub descriptor : DocumentDescriptor
    pub raw : RawDocument
    pub described : s.descriptor ≡ some descriptor
    pub kept : s.raw ≡ some raw
    pub fits : IsDescribed i.fs i.policy path descriptor
    pub loaded : IsLoaded i.fs i.policy descriptor raw
    pub text : s.normalized_text ≡ normalize i.fs raw
    pub source : s.source_path ≡ path

  abbrev Normalizes : Result (Option DocumentPipelineState) → Type 0
  Normalizes (ok (some s)) = IsNormalized s × (s.state ≡ normalized) × (s.revision ≡ 2)
  Normalizes (ok none) = Unit {0}
  Normalizes (raise e) = Unit {0}

  abbrev Normalized : Result DocumentPipelineState → Type 0
  Normalized (ok s) = IsNormalized s × (s.state ≡ normalized) × (s.revision ≡ 2)
  Normalized (raise e) = Unit {0}

  ingest_document-Normalizes : Normalizes (ingest_document i.fs i.policy (new_state path))
  unfolding ingest_document evolve apply_all apply_change
  ingest_document-Normalizes =
      let said = describe-Described i.fs i.policy path in
      bind-ind Normalizes (describe i.fs i.policy path)
        (λ d there.
          let loads = load-Loaded i.fs i.policy d in
          bind-ind Normalizes (load i.fs i.policy d)
            (λ raw read. (
              record {
                descriptor = d;
                raw = raw;
                described = refl;
                kept = refl;
                fits = subst (Described i.fs i.policy path) there said;
                loaded = subst (Loaded i.fs i.policy d) read loads;
                text = refl;
                source = refl;
              },
              refl,
              refl,
            ))
            (λ e _. tt))
        (λ e _. tt)

  -- A statement on what `run` returns holds of what `process` returns.
  process-Normalized : Normalized (process (ingestion i.fs i.policy) (new_state path))
  unfolding process
  process-Normalized =
      let runs = ingest_document-Normalizes in
      Result-ind Normalized (ingest_document i.fs i.policy (new_state path))
        (λ r e.
          Option-ind Normalized r
            (λ s is.
              if-ind Normalized (leb s.revision 1) (λ _. tt)
                (λ _. subst Normalizes (e ∙ ap ok is) runs))
            (λ _. tt))
        (λ e _. tt)

  -- A prepared document: from a described file and its text, with the units that the corpus stores.
  pub record IsPrepared (s : DocumentPipelineState) : Type 0 where
    pub ingested : IsNormalized s
    pub document : StructuredDocument
    pub built :
        document
        ≡ build_structured_document i.builder s.normalized_text ingested.descriptor.filename
            ingested.descriptor.artifact_id
    pub structured : s.structured ≡ some document
    pub filled : is_empty document.units ≡ false
    pub readable : is_empty s.normalized_text ≡ false
    pub state : s.state ≡ segmented
    pub revision : s.revision ≡ 3

  abbrev pub Prepared : Result DocumentPipelineState → Type 0
  Prepared (ok s) = IsPrepared s
  Prepared (raise e) = Unit {0}

  abbrev Prepares : Result (Option DocumentPipelineState) → Type 0
  Prepares (ok (some s)) = IsPrepared s
  Prepares (ok none) = Unit {0}
  Prepares (raise e) = Unit {0}

  understand_document-Prepares :
      (s : DocumentPipelineState)
      → IsNormalized s
      → s.revision ≡ 2
      → Prepares (understand_document i.builder s)
  unfolding understand_document evolve apply_all apply_change
  understand_document-Prepares s h two =
      Option-ind Prepares s.descriptor
        (λ d is.
          let same : h.descriptor ≡ d = ap (λ o. value_or o d) (sym h.described ∙ is) in
          let built =
            build_structured_document i.builder s.normalized_text d.filename d.artifact_id in
          if-ind Prepares (is_empty s.normalized_text) (λ _. tt)
            (λ readable.
              if-ind Prepares (is_empty built.units) (λ _. tt)
                (λ filled. record {
                  ingested = record {
                    descriptor = d;
                    raw = h.raw;
                    described = is;
                    kept = h.kept;
                    fits = subst (IsDescribed i.fs i.policy path) same h.fits;
                    loaded =
                        subst (λ (x : DocumentDescriptor). IsLoaded i.fs i.policy x h.raw) same
                          h.loaded;
                    text = h.text;
                    source = h.source;
                  };
                  document = built;
                  built = refl;
                  structured = refl;
                  filled = filled;
                  readable = readable;
                  state = refl;
                  revision = omega (arith, two);
                })))
        (λ _. tt)

  after_process :
      (s : DocumentPipelineState)
      → IsNormalized s
      → s.revision ≡ 2
      → Prepared (process (understanding i.builder) s)
  unfolding process
  after_process s h two =
      let runs = understand_document-Prepares s h two in
      Result-ind Prepared (understand_document i.builder s)
        (λ r e.
          Option-ind Prepared r
            (λ t is.
              if-ind Prepared (leb t.revision s.revision) (λ _. tt)
                (λ _. subst Prepares (e ∙ ap ok is) runs))
            (λ _. tt))
        (λ e _. tt)

  -- A file that the document pipeline of `ingest` prepares without an exception is there, of a
  -- supported format, not empty and within the size limit, with enough text in it; its document is
  -- what `build_structured_document` makes of the normalized text, has at least one unit, and has
  -- gone through both capabilities, each of which has added one revision.
  pub prepare-IsPrepared : Prepared (prepare i path)
  unfolding prepare
  prepare-IsPrepared =
      bind-ind Prepared (process (ingestion i.fs i.policy) (new_state path))
        (λ s e. let h = subst Normalized e process-Normalized in after_process s h.0 h.2)
        (λ e _. tt)
