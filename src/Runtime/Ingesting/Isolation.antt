-- ===== src/Runtime/Ingesting/Isolation.antt =====
-- What `ingest` reports of each file (runtime/runtime.py).
use leanlm.Common.{
  ◌+◌, ◌≡◌, refl, ◌⊎◌, inl, inr, String, Bool, true, false, none, some, List, [], ◌∷◌, ◌++◌, length,
  append_assoc, append-nil, sym, ◌∙◌, total, is_empty, subst, arith, if-ind, Option-cases,
}
use native.Mathlib.Nat.{zero-add}
use leanlm.Shared.Errors.{
  Exception, leanlm_error, value_error, type_error, unexpected, Result, ok, raise, Result-ind,
  ◌>>=◌,
}
use leanlm.Contracts.Dto.{StructuredDocument, SemanticUnit}
use leanlm.Shared.Events.{EventBus}
use leanlm.Contracts.Ddp.{DocumentPipelineState}
use leanlm.Runtime.Corpus.{
  CorpusLibrary, CorpusStore, Tables, has_unit, has_document, insert_unit, insert_units,
  delete_document, document_row, upsert_document,
}
use leanlm.Runtime.Ingesting.{
  Ingested, Failed, Progress, IngestReport, Importer, collect_files, prepare, ingested_of,
  failed_of, note_ingested, catch_error, after_upsert, store_document, store_state, ingest_file,
  ingest_files, report_of, begin, conclude, ingest,
}

abbrev pub is_leanlm : Exception → Bool
is_leanlm (leanlm_error e) = true
is_leanlm _ = false

module _ (i : Importer) where
  -- What the pipeline makes of a file: an entry of the report, or an exception.
  abbrev pub entry_of : String → DocumentPipelineState → Result Ingested
  entry_of path s = elim s.structured [
    | none ↦ raise (unexpected "AttributeError")
    | some d ↦ elim s.descriptor [
      | none ↦ raise (unexpected "AttributeError")
      | some descriptor ↦ ok (ingested_of i path d)
    ]
  ]

  abbrev pub outcome : String → Result Ingested
  outcome path = prepare i path >>= entry_of path

  -- The entries of the files that can be prepared, and of those that fail with a `LeanLMError`.
  abbrev success : Result Ingested → List Ingested → List Ingested
  success (ok x) rest = x ∷ rest
  success (raise e) rest = rest

  abbrev pub successes : List String → List Ingested
  successes [] = []
  successes (p ∷ ps) = success (outcome p) (successes ps)

  abbrev failure : String → Result Ingested → List Failed → List Failed
  failure p (raise (leanlm_error e)) rest = failed_of i p e ∷ rest
  failure p _ rest = rest

  abbrev pub failures : List String → List Failed
  failures [] = []
  failures (p ∷ ps) = failure p (outcome p) (failures ps)

  -- A round has added what the outcome of its file says; what it raises is no `LeanLMError`.
  abbrev AddsEntry : Progress → Ingested → Progress → Type 0
  AddsEntry w x w' =
      (w'.ingested ≡ w.ingested ++ x ∷ []) × (w'.failed ≡ w.failed) × (w'.units ≡ w.units + x.units)

  abbrev AddsFailure : String → Progress → Exception → Progress → Type 0
  AddsFailure path w e w' =
      (w'.ingested ≡ w.ingested)
      × (w'.failed ≡ w.failed ++ failure path (raise e) [])
      × (w'.units ≡ w.units)
      × (is_leanlm e ≡ true)

  abbrev Adds : String → Progress → Result Ingested → Progress → Type 0
  Adds path w (ok x) w' = AddsEntry w x w'
  Adds path w (raise e) w' = AddsFailure path w e w'

  abbrev RoundIs : String → Progress → Result Ingested → Result (Unit {0}) × Progress → Type 0
  RoundIs path w r (ok _, w') = Adds path w r w'
  RoundIs path w r (raise e, w') = is_leanlm e ≡ false

  abbrev IsForeign {ℓ} : {A : Type ℓ} → Result A → Type 0
  IsForeign (ok _) = Unit {0}
  IsForeign (raise e) = is_leanlm e ≡ false

  insert_units-IsForeign :
      (lib : CorpusLibrary) (us : List SemanticUnit) (t : Tables)
      → IsForeign (insert_units lib us t)
  unfolding insert_unit
  insert_units-IsForeign lib [] t = tt
  insert_units-IsForeign lib (u ∷ us) t =
      if-ind (λ (r : Result Tables). IsForeign (r >>= insert_units lib us)) (has_unit u.unit_id t)
        (λ _. refl)
        (λ _.
          if-ind (λ (r : Result Tables). IsForeign (r >>= insert_units lib us))
            (has_document u.document_id t) (λ _. insert_units-IsForeign lib us _) (λ _. refl))

  upsert_document-IsForeign :
      (lib : CorpusLibrary) (d : StructuredDocument) (path sum now : String) (c : CorpusStore)
      → IsForeign (upsert_document lib d path sum now c).0
  unfolding upsert_document
  upsert_document-IsForeign lib d path sum now c =
      let cleared = delete_document d.document_id c.tables in
      let row = document_row lib d path sum now in
      let begun : Tables = record cleared { documents = cleared.documents ++ row ∷ [] } in
      Result-ind (λ (out : Result (Unit {0}) × CorpusStore). IsForeign out.0)
        (insert_units lib d.units begun) (λ t e. tt)
        (λ e q. subst IsForeign q (insert_units-IsForeign lib d.units begun))

  catch_error-RoundIs :
      (path : String) (e : Exception) (w : Progress)
      → RoundIs path w (raise e) (catch_error i path e w)
  unfolding catch_error
  catch_error-RoundIs path (leanlm_error e) w = (refl, refl, refl, refl)
  catch_error-RoundIs path (value_error m) w = refl
  catch_error-RoundIs path (type_error m) w = refl
  catch_error-RoundIs path (unexpected m) w = refl

  catch_error-foreign :
      (path : String) (e : Exception) (w v : Progress) (r : Result Ingested)
      → is_leanlm e ≡ false
      → RoundIs path v r (catch_error i path e w)
  unfolding catch_error
  catch_error-foreign path (leanlm_error e) w v r h = cc h
  catch_error-foreign path (value_error m) w v r h = refl
  catch_error-foreign path (type_error m) w v r h = refl
  catch_error-foreign path (unexpected m) w v r h = refl

  after_upsert-RoundIs :
      (path : String) (d : StructuredDocument) (u : Result (Unit {0}) × CorpusStore) (w : Progress)
      → IsForeign u.0
      → RoundIs path w (ok (ingested_of i path d)) (after_upsert i path d u w)
  unfolding note_ingested
  after_upsert-RoundIs path d (ok _, c) w h = (refl, refl, refl)
  after_upsert-RoundIs path d (raise e, c) w h =
      catch_error-foreign path e (record w { corpus = c }) w (ok (ingested_of i path d)) h

  store_state-RoundIs :
      (path : String) (s : DocumentPipelineState) (w : Progress)
      → RoundIs path w (entry_of path s) (store_state i path s w)
  unfolding store_document
  store_state-RoundIs path s w = elim (Option-cases s.structured) [
    | inl missing ↦ rw missing (catch_error-RoundIs path (unexpected "AttributeError") w)
    | inr (d, is) ↦ elim (Option-cases s.descriptor) [
      | inl missing ↦ rw (is, missing) (catch_error-RoundIs path (unexpected "AttributeError") w)
      | inr (descriptor, there) ↦
          let stored = upsert_document i.library d path descriptor.file_checksum i.now w.corpus in
          rw (is, there)
            (after_upsert-RoundIs path d stored w
              (upsert_document-IsForeign i.library d path descriptor.file_checksum i.now w.corpus))
    ]
  ]

  prepared-RoundIs :
      (path : String) (p : Result DocumentPipelineState) (w : Progress)
      → RoundIs path w
          (p >>= entry_of path)
          (elim p [ raise e ↦ catch_error i path e w | ok s ↦ store_state i path s w ])
  prepared-RoundIs path (ok s) w = store_state-RoundIs path s w
  prepared-RoundIs path (raise e) w = catch_error-RoundIs path e w

  ingest_file-RoundIs :
      (path : String) (w : Progress) → RoundIs path w (outcome path) (ingest_file i path w)
  unfolding ingest_file
  ingest_file-RoundIs path w = prepared-RoundIs path (prepare i path) w

  -- The report so far, after the files `ps` from `w` on.
  pub record Accounts (ps : List String) (w w' : Progress) : Type 0 where
    pub ingested : w'.ingested ≡ w.ingested ++ successes ps
    pub failed : w'.failed ≡ w.failed ++ failures ps
    pub units : w'.units ≡ w.units + total (λ (x : Ingested). x.units) (successes ps)
    pub every : length (successes ps) + length (failures ps) ≡ length ps

  abbrev Accounted : List String → Progress → Result (Unit {0}) × Progress → Type 0
  Accounted ps w (ok _, w') = Accounts ps w w'
  Accounted ps w (raise e, w') = is_leanlm e ≡ false

  after_entry :
      (p : String) (ps : List String) (w v w' : Progress) (r : Result Ingested)
      → outcome p ≡ r
      → Adds p w r v
      → Accounts ps v w'
      → Accounts (p ∷ ps) w w'
  after_entry p ps w v w' (ok x) e (a, b, c) rest = record {
    ingested = rw (e, rest.ingested, a) (append_assoc w.ingested (x ∷ []) (successes ps));
    failed = rw (e, rest.failed, b) refl;
    units = rw (e, rest.units, c) (omega arith);
    every = rw e (omega (arith, rest.every));
  }
  after_entry p ps w v w' (raise (leanlm_error x)) e (a, b, c, d) rest = record {
    ingested = rw (e, rest.ingested, a) refl;
    failed = rw (e, rest.failed, b) (append_assoc w.failed (failed_of i p x ∷ []) (failures ps));
    units = rw (e, rest.units, c) refl;
    every = rw e (omega (arith, rest.every));
  }
  after_entry p ps w v w' (raise (value_error x)) e (a, b, c, d) rest = cc d
  after_entry p ps w v w' (raise (type_error x)) e (a, b, c, d) rest = cc d
  after_entry p ps w v w' (raise (unexpected x)) e (a, b, c, d) rest = cc d

  after_rest :
      (p : String) (ps : List String) (w v : Progress) (t : Result (Unit {0}) × Progress)
      → Adds p w (outcome p) v
      → Accounted ps v t
      → Accounted (p ∷ ps) w t
  after_rest p ps w v (raise e, w') h rest = rest
  after_rest p ps w v (ok _, w') h rest = after_entry p ps w v w' (outcome p) refl h rest

  ingest_files-Accounted : (ps : List String) (w : Progress) → Accounted ps w (ingest_files i ps w)
  ingest_files-Accounted [] w = record {
    ingested = sym (append-nil w.ingested);
    failed = sym (append-nil w.failed);
    units = omega arith;
    every = refl;
  }
  ingest_files-Accounted (p ∷ ps) w =
      after_round p ps w (ingest_file i p w) (ingest_file-RoundIs p w)
        (ingest_files-Accounted ps (ingest_file i p w).1)
    where
      after_round :
          (p : String) (ps : List String) (w : Progress) (t : Result (Unit {0}) × Progress)
          → RoundIs p w (outcome p) t
          → Accounted ps t.1 (ingest_files i ps t.1)
          → Accounted
              (p ∷ ps)
              w
              (elim t.0 [ raise e ↦ (raise e, t.1) | ok _ ↦ ingest_files i ps t.1 ])
      after_round p ps w (raise e, v) h rest = h
      after_round p ps w (ok _, v) h rest = after_rest p ps w v (ingest_files i ps v) h rest

  abbrev pub IsReported : List String → Result IngestReport × Progress → Type 0
  IsReported files (ok r, w) =
      (r.ingested ≡ successes files)
      × (r.failed ≡ failures files)
      × (r.units_added ≡ total (λ (x : Ingested). x.units) r.ingested)
      × (r.documents_added ≡ length r.ingested)
      × (r.documents_added + length r.failed ≡ length files)
  IsReported files (raise e, w) = (is_empty files ≡ true) ⊎ (is_leanlm e ≡ false)

  conclude-IsReported :
      (files : List String) (replace : Bool) (corpus : CorpusStore) (bus : EventBus)
      (out : Result (Unit {0}) × Progress)
      → Accounted files (begin i replace corpus bus) out
      → IsReported files (conclude i replace out)
  unfolding report_of
  conclude-IsReported files replace corpus bus (raise e, w) h = inr h
  conclude-IsReported files replace corpus bus (ok _, w) h = (
    h.ingested,
    h.failed,
    rw h.ingested (h.units ∙ zero-add _),
    refl,
    rw (h.ingested, h.failed) h.every,
  )

  -- `ingest` reports each file on its own: the ingested entries are exactly those of the files that
  -- the document pipeline prepares, the failed ones exactly those of the files where it raises a
  -- `LeanLMError`, in the order of the files, and the totals are those of the entries, so that
  -- every file is counted once. When `ingest` raises, no file was found, or what it raises is no
  -- `LeanLMError`.
  pub ingest-IsReported :
      (paths : List String) (replace : Bool) (corpus : CorpusStore) (bus : EventBus)
      → IsReported (collect_files i paths) (ingest i paths replace corpus bus)
  unfolding ingest
  ingest-IsReported paths replace corpus bus =
      let files = collect_files i paths in
      if-ind (IsReported files) (is_empty files) inl (λ _.
        conclude-IsReported files replace corpus bus _
          (ingest_files-Accounted files (begin i replace corpus bus)))
