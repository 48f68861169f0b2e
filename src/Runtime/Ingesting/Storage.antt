-- ===== src/Runtime/Ingesting/Storage.antt =====
-- What `ingest` leaves in the corpus (runtime/runtime.py, runtime/corpus.py).
use leanlm.Common.{
  ◌≡◌, refl, inl, inr, String, str_eq, eq_iff, Bool, true, false, not, List, [], ◌∷◌, ◌++◌, keep,
  is_empty, All, All-append, subst, sym, ◌∙◌, arith, if-ind, Bool-cases,
}
use leanlm.Shared.Errors.{
  Exception, leanlm_error, value_error, type_error, unexpected, Result, ok, raise, Result-ind,
  Option-ind, ◌>>=◌,
}
use leanlm.Shared.Events.{EventBus}
use leanlm.Contracts.Dto.{StructuredDocument, SemanticUnit}
use leanlm.Contracts.Ddp.{DocumentPipelineState}
use leanlm.Runtime.Corpus.{
  DocumentRow, CorpusLibrary, CorpusStore, Tables, new_store, has_unit, has_document, insert_unit,
  insert_units, delete_document, document_row, upsert_document, invalidate, corpus_checksum,
}
use leanlm.Runtime.Corpus.Caches.{
  Operation, upserting, clearing, reading_checksum, apply, apply_all,
}
use leanlm.Runtime.Corpus.References.{
  IsConsistent, apply_all-IsConsistent, known, known-other, known-more,
}
use leanlm.Runtime.Ingesting.{
  Ingested, Progress, IngestReport, Importer, collect_files, prepare, ingested_of, note_ingested,
  catch_error, after_upsert, store_document, store_state, ingest_file, ingest_files, report_of,
  begin, conclude, ingest,
}

apply_all-append :
    (lib : CorpusLibrary) (a b : List Operation) (c : CorpusStore)
    → apply_all lib (a ++ b) c ≡ apply_all lib b (apply_all lib a c)
apply_all-append lib [] b c = refl
apply_all-append lib (x ∷ a) b c = apply_all-append lib a b (apply lib x c)

-- The document is there afterwards, with those that were there before.
abbrev Keeps : String → Tables → Result Tables → Type 0
Keeps id t (ok t') = t'.documents ≡ t.documents
Keeps id t (raise e) = Unit {0}

module _ (lib : CorpusLibrary) where
  insert_units-Keeps :
      (id : String) (us : List SemanticUnit) (t : Tables) → Keeps id t (insert_units lib us t)
  unfolding insert_unit
  insert_units-Keeps id [] t = refl
  insert_units-Keeps id (u ∷ us) t =
      if-ind (λ (r : Result Tables). Keeps id t (r >>= insert_units lib us)) (has_unit u.unit_id t)
        (λ _. tt)
        (λ _.
          if-ind (λ (r : Result Tables). Keeps id t (r >>= insert_units lib us))
            (has_document u.document_id t) (λ _. insert_units-Keeps id us _) (λ _. tt))

  known-last :
      (docs : List DocumentRow) (d : DocumentRow) → known d.document_id (docs ++ d ∷ []) ≡ true
  known-last [] d = ground (arith, eq_iff d.document_id d.document_id)
  known-last (e ∷ docs) d = ground (arith, known-last docs d)

  known-replaced :
      (x : String) (d : DocumentRow) (docs : List DocumentRow)
      → known x docs ≡ true
      → known x
          (keep (λ (e : DocumentRow). not (str_eq e.document_id d.document_id)) docs ++ d ∷ [])
        ≡ true
  known-replaced x d docs h = elim (Bool-cases (str_eq x d.document_id)) [
    | inl same ↦
        rw ((eq_iff x d.document_id).0 same)
          (known-last (keep (λ (e : DocumentRow). not (str_eq e.document_id d.document_id)) docs) d)
    | inr differs ↦ known-more x _ d (known-other d.document_id x docs h differs)
  ]

  -- After a call that succeeds.
  abbrev Stores : String → CorpusStore → Result (Unit {0}) × CorpusStore → Type 0
  Stores id c (ok _, c') =
      (has_document id c'.tables ≡ true)
      × ((x : String) → has_document x c.tables ≡ true → has_document x c'.tables ≡ true)
  Stores id c (raise e, c') = c'.tables ≡ c.tables

  upsert_document-Stores :
      (d : StructuredDocument) (path sum now : String) (c : CorpusStore)
      → Stores d.document_id c (upsert_document lib d path sum now c)
  unfolding upsert_document delete_document invalidate
  upsert_document-Stores d path sum now c =
      let cleared = delete_document d.document_id c.tables in
      let row = document_row lib d path sum now in
      let begun : Tables = record cleared { documents = cleared.documents ++ row ∷ [] } in
      let kept = insert_units-Keeps d.document_id d.units begun in
      Result-ind (λ (out : Result (Unit {0}) × CorpusStore). Stores d.document_id c out)
        (insert_units lib d.units begun)
        (λ t e.
          let same : t.documents ≡ begun.documents = subst (Keeps d.document_id begun) e kept in
          (
            rw same (known-last cleared.documents row),
            λ x h. rw same (known-replaced x row c.tables.documents h),
          ))
        (λ e q. refl)

module _ (i : Importer) where
  -- The corpus is what calls of its methods make of `c`, and holds every document of the report.
  pub record IsGrown (c : CorpusStore) (w : Progress) : Type 0 where
    pub calls : List Operation
    pub reached : w.corpus ≡ apply_all i.library calls c
    pub stored :
        All (λ (x : Ingested). has_document x.document_id w.corpus.tables ≡ true) w.ingested

  All-has :
      (t t' : Tables) (xs : List Ingested)
      → ((x : String) → has_document x t ≡ true → has_document x t' ≡ true)
      → All (λ (x : Ingested). has_document x.document_id t ≡ true) xs
      → All (λ (x : Ingested). has_document x.document_id t' ≡ true) xs
  All-has t t' [] keeps h = tt
  All-has t t' (x ∷ xs) keeps h = (keeps x.document_id h.0, All-has t t' xs keeps h.1)

  catch_error-IsGrown :
      (path : String) (e : Exception) (c : CorpusStore) (w : Progress)
      → IsGrown c w
      → IsGrown c (catch_error i path e w).1
  unfolding catch_error
  catch_error-IsGrown path (leanlm_error e) c w h = record {
    calls = h.calls;
    reached = h.reached;
    stored = h.stored;
  }
  catch_error-IsGrown path (value_error m) c w h = h
  catch_error-IsGrown path (type_error m) c w h = h
  catch_error-IsGrown path (unexpected m) c w h = h

  after_upsert-IsGrown :
      (path sum : String) (d : StructuredDocument) (c : CorpusStore) (w : Progress)
      (u : Result (Unit {0}) × CorpusStore)
      → u.1 ≡ (upsert_document i.library d path sum i.now w.corpus).1
      → Stores i.library d.document_id w.corpus u
      → IsGrown c w
      → IsGrown c (after_upsert i path d u w).1
  unfolding note_ingested apply
  after_upsert-IsGrown path sum d c w (ok _, c') is stores h = record {
    calls = h.calls ++ upserting d path sum i.now ∷ [];
    reached =
        rw (apply_all-append i.library h.calls (upserting d path sum i.now ∷ []) c, is, h.reached)
          refl;
    stored =
        All-append (λ (x : Ingested). has_document x.document_id c'.tables ≡ true) w.ingested
          (ingested_of i path d ∷ [])
          (All-has w.corpus.tables c'.tables w.ingested stores.1 h.stored) (stores.0, tt);
  }
  after_upsert-IsGrown path sum d c w (raise e, c') is same h =
      catch_error-IsGrown path e c (record w { corpus = c' })
        (record {
          calls = h.calls ++ upserting d path sum i.now ∷ [];
          reached =
              rw
                (
                  apply_all-append i.library h.calls (upserting d path sum i.now ∷ []) c,
                  is,
                  h.reached,
                )
                refl;
          stored =
              All-has w.corpus.tables c'.tables w.ingested
                (λ x there. subst (λ (t : Tables). has_document x t ≡ true) (sym same) there)
                h.stored;
        })

  store_state-IsGrown :
      (path : String) (s : DocumentPipelineState) (c : CorpusStore) (w : Progress)
      → IsGrown c w
      → IsGrown c (store_state i path s w).1
  unfolding store_document
  store_state-IsGrown path s c w h =
      Option-ind (λ (t : Result (Unit {0}) × Progress). IsGrown c t.1) s.structured
        (λ d is.
          Option-ind (λ (t : Result (Unit {0}) × Progress). IsGrown c t.1) s.descriptor
            (λ descriptor there.
              after_upsert-IsGrown path descriptor.file_checksum d c w
                (upsert_document i.library d path descriptor.file_checksum i.now w.corpus) refl
                (upsert_document-Stores i.library d path descriptor.file_checksum i.now w.corpus) h)
            (λ _. catch_error-IsGrown path (unexpected "AttributeError") c w h))
        (λ _. catch_error-IsGrown path (unexpected "AttributeError") c w h)

  ingest_file-IsGrown :
      (path : String) (c : CorpusStore) (w : Progress)
      → IsGrown c w
      → IsGrown c (ingest_file i path w).1
  unfolding ingest_file
  ingest_file-IsGrown path c w h =
      Result-ind (λ (t : Result (Unit {0}) × Progress). IsGrown c t.1) (prepare i path)
        (λ s _. store_state-IsGrown path s c w h) (λ e _. catch_error-IsGrown path e c w h)

  ingest_files-IsGrown :
      (paths : List String) (c : CorpusStore) (w : Progress)
      → IsGrown c w
      → IsGrown c (ingest_files i paths w).1
  ingest_files-IsGrown [] c w h = h
  ingest_files-IsGrown (path ∷ paths) c w h =
      let tried = ingest_file i path w in
      let next = ingest_file-IsGrown path c w h in
      Result-ind (λ (t : Result (Unit {0}) × Progress). IsGrown c t.1) tried.0
        (λ _ _. ingest_files-IsGrown paths c tried.1 next) (λ e _. next)

  begin-IsGrown :
      (replace : Bool) (c : CorpusStore) (bus : EventBus) → IsGrown c (begin i replace c bus)
  unfolding apply
  begin-IsGrown true c bus = record { calls = clearing ∷ []; reached = refl; stored = tt }
  begin-IsGrown false c bus = record { calls = []; reached = refl; stored = tt }

  checksum-tables :
      (lib : CorpusLibrary) (c : CorpusStore) → (corpus_checksum lib c).1.tables ≡ c.tables
  unfolding corpus_checksum
  checksum-tables lib c =
      Option-ind (λ (out : String × CorpusStore). out.1.tables ≡ c.tables) c.checksum_cache
        (λ _ _. refl) (λ _. refl)

  conclude-IsGrown :
      (replace : Bool) (c : CorpusStore) (t : Result (Unit {0}) × Progress)
      → IsGrown c t.1
      → IsGrown c (conclude i replace t).1
  unfolding report_of apply
  conclude-IsGrown replace c (raise e, w) h = h
  conclude-IsGrown replace c (ok _, w) h = record {
    calls = h.calls ++ reading_checksum ∷ [];
    reached = rw (apply_all-append i.library h.calls (reading_checksum ∷ []) c, h.reached) refl;
    stored =
        subst
          (λ (t : Tables). All (λ (x : Ingested). has_document x.document_id t ≡ true) w.ingested)
          (sym (checksum-tables i.library w.corpus)) h.stored;
  }

  -- However `ingest` ends, the corpus is what calls of its own methods have made of the one before,
  -- and every document that it has reported as ingested so far is stored.
  pub ingest-IsGrown :
      (paths : List String) (replace : Bool) (c : CorpusStore) (bus : EventBus)
      → IsGrown c (ingest i paths replace c bus).1
  unfolding ingest
  ingest-IsGrown paths replace c bus =
      let files = collect_files i paths in
      if-ind (λ (t : Result IngestReport × Progress). IsGrown c t.1) (is_empty files)
        (λ _. begin-IsGrown false c bus)
        (λ _.
          conclude-IsGrown replace c (ingest_files i files (begin i replace c bus))
            (ingest_files-IsGrown files c (begin i replace c bus) (begin-IsGrown replace c bus)))

-- Whatever calls have changed the store before, and however `ingest` ends, every stored unit has
-- its document in the corpus, no two stored units have the same identifier, and every document that
-- was reported as ingested is in the corpus.
pub ingest-IsConsistent :
    (i : Importer) (before : List Operation) (paths : List String) (replace : Bool) (bus : EventBus)
    → let w = (ingest i paths replace (apply_all i.library before new_store) bus).1 in
      IsConsistent w.corpus.tables
      × All (λ (x : Ingested). has_document x.document_id w.corpus.tables ≡ true) w.ingested
ingest-IsConsistent i before paths replace bus =
    let c = apply_all i.library before new_store in
    let grown = ingest-IsGrown i paths replace c bus in
    let e = grown.reached ∙ sym (apply_all-append i.library before grown.calls new_store) in
    (
      subst (λ (s : CorpusStore). IsConsistent s.tables) (sym e)
          (apply_all-IsConsistent i.library (before ++ grown.calls)),
      grown.stored,
    )
