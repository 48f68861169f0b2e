-- ===== src/Runtime/Corpus/References.antt =====
-- How the tables of the corpus store (runtime/corpus.py) refer to each other.
use leanlm.Common.{
  ◌≡◌, refl, sym, String, str_eq, eq_iff, Bool, true, false, not, List, [], ◌∷◌, ◌++◌, any, keep,
  All, All-append, arith, Bool-cases, inl, inr, if-ind, subst,
}
use leanlm.Shared.Errors.{Result, ok, raise, Result-ind, Option-ind, bind-ind}
use leanlm.Contracts.Dto.{SemanticUnit, StructuredDocument, ContextPackage}
use leanlm.Runtime.Corpus.{
  DocumentRow, UnitRow, Tables, CorpusLibrary, CorpusStore, new_store, invalidate, has_document,
  has_unit, delete_document, to_row, insert_unit, insert_units, document_row, upsert_document,
  remove_document, clear, record_session, close_session, record_metrics, context_package,
  corpus_checksum, cached, key_of, build_package,
}
use leanlm.Runtime.Corpus.Caches.{
  Operation, upserting, removing, clearing, recording_session, closing_session, recording_metrics,
  reading_package, reading_checksum, apply, apply_all,
}

abbrev pub known : String → List DocumentRow → Bool
known id docs = any (λ (d : DocumentRow). str_eq d.document_id id) docs

abbrev taken : String → List UnitRow → Bool
taken id rows = any (λ (r : UnitRow). str_eq r.unit_id id) rows

-- Every unit has its document, and no two have the same identifier.
abbrev Refers : List DocumentRow → List UnitRow → Type 0
Refers docs rows = All (λ (r : UnitRow). known r.document_id docs ≡ true) rows

abbrev AreDistinct : List UnitRow → Type 0
AreDistinct [] = Unit
AreDistinct (r ∷ rows) = (taken r.unit_id rows ≡ false) × AreDistinct rows

abbrev pub IsConsistent : Tables → Type 0
IsConsistent t = Refers t.documents t.units × AreDistinct t.units

-- Without the document `id`
abbrev other_documents : String → List DocumentRow → List DocumentRow
other_documents id docs = keep (λ (d : DocumentRow). not (str_eq d.document_id id)) docs

abbrev other_units : String → List UnitRow → List UnitRow
other_units id rows = keep (λ (r : UnitRow). not (str_eq r.document_id id)) rows

pub known-other :
    (id x : String) (docs : List DocumentRow)
    → known x docs ≡ true
    → str_eq x id ≡ false
    → known x (other_documents id docs) ≡ true
known-other id x [] h apart = h
known-other id x (d ∷ docs) h apart = elim (Bool-cases (str_eq d.document_id x)) [
  | inl same ↦
      let e : str_eq d.document_id id ≡ false =
        subst (λ z. str_eq z id ≡ false) (sym ((eq_iff d.document_id x).0 same)) apart in
      rw e (rw same refl)
  | inr differs ↦
      let rest = known-other id x docs (ground (arith, h, differs)) apart in
      if-ind (λ l. known x l ≡ true) (not (str_eq d.document_id id)) (λ _. rw differs rest)
        (λ _. rest)
]

Refers-other :
    (id : String) (docs : List DocumentRow) (rows : List UnitRow)
    → Refers docs rows
    → Refers (other_documents id docs) (other_units id rows)
Refers-other id docs [] h = tt
Refers-other id docs (r ∷ rows) h = elim (Bool-cases (str_eq r.document_id id)) [
  | inl same ↦ rw same (Refers-other id docs rows h.1)
  | inr apart ↦
      rw apart (known-other id r.document_id docs h.0 apart, Refers-other id docs rows h.1)
]

taken-other :
    (x id : String) (rows : List UnitRow)
    → taken x rows ≡ false
    → taken x (other_units id rows) ≡ false
taken-other x id [] h = refl
taken-other x id (r ∷ rows) h =
    let rest = taken-other x id rows (ground (arith, h)) in
    let differs : str_eq r.unit_id x ≡ false = ground (arith, h) in
    if-ind (λ l. taken x l ≡ false) (not (str_eq r.document_id id)) (λ _. rw differs rest)
      (λ _. rest)

AreDistinct-other :
    (id : String) (rows : List UnitRow) → AreDistinct rows → AreDistinct (other_units id rows)
AreDistinct-other id [] h = tt
AreDistinct-other id (r ∷ rows) h =
    if-ind AreDistinct (not (str_eq r.document_id id))
      (λ _. (taken-other r.unit_id id rows h.0, AreDistinct-other id rows h.1))
      (λ _. AreDistinct-other id rows h.1)

pub known-more :
    (x : String) (docs : List DocumentRow) (d : DocumentRow)
    → known x docs ≡ true
    → known x (docs ++ d ∷ []) ≡ true
known-more x [] d h = cc h
known-more x (e ∷ docs) d h = elim (Bool-cases (str_eq e.document_id x)) [
  | inl same ↦ rw same refl
  | inr differs ↦ rw differs (known-more x docs d (ground (arith, h, differs)))
]

Refers-more :
    (docs : List DocumentRow) (d : DocumentRow) (rows : List UnitRow)
    → Refers docs rows
    → Refers (docs ++ d ∷ []) rows
Refers-more docs d [] h = tt
Refers-more docs d (r ∷ rows) h = (known-more r.document_id docs d h.0, Refers-more docs d rows h.1)

taken-snoc :
    (x : String) (rows : List UnitRow) (r : UnitRow)
    → taken x rows ≡ false
    → str_eq r.unit_id x ≡ false
    → taken x (rows ++ r ∷ []) ≡ false
taken-snoc x [] r h differs = rw differs refl
taken-snoc x (q ∷ rows) r h differs =
    let first : str_eq q.unit_id x ≡ false = ground (arith, h) in
    rw first (taken-snoc x rows r (ground (arith, h)) differs)

AreDistinct-snoc :
    (rows : List UnitRow) (r : UnitRow)
    → AreDistinct rows
    → taken r.unit_id rows ≡ false
    → AreDistinct (rows ++ r ∷ [])
AreDistinct-snoc [] r h free = (refl, tt)
AreDistinct-snoc (q ∷ rows) r h free =
    let differs : str_eq q.unit_id r.unit_id ≡ false = ground (arith, free) in
    let other_way : str_eq r.unit_id q.unit_id ≡ false =
      ground (arith, differs, eq_iff q.unit_id r.unit_id, eq_iff r.unit_id q.unit_id) in
    (taken-snoc q.unit_id rows r h.0 other_way, AreDistinct-snoc rows r h.1 (ground (arith, free)))

delete_document-IsConsistent :
    (id : String) (t : Tables) → IsConsistent t → IsConsistent (delete_document id t)
unfolding delete_document
delete_document-IsConsistent id t h =
    (Refers-other id t.documents t.units h.0, AreDistinct-other id t.units h.1)

-- A statement about what a call leaves, when it succeeds.
abbrev AfterInsert : Result Tables → Type 0
AfterInsert (ok t) = IsConsistent t
AfterInsert (raise e) = Unit

module _ (lib : CorpusLibrary) where
  insert_unit-AfterInsert :
      (u : SemanticUnit) (t : Tables) → IsConsistent t → AfterInsert (insert_unit lib u t)
  unfolding insert_unit to_row
  insert_unit-AfterInsert u t h =
      if-ind AfterInsert (has_unit u.unit_id t) (λ _. tt)
        (λ free.
          if-ind AfterInsert (has_document u.document_id t)
            (λ there. (
              All-append (λ (r : UnitRow). known r.document_id t.documents ≡ true) t.units
                  (to_row lib u ∷ []) h.0 (there, tt),
              AreDistinct-snoc t.units (to_row lib u) h.1 free,
            ))
            (λ _. tt))

  insert_units-AfterInsert :
      (us : List SemanticUnit) (t : Tables) → IsConsistent t → AfterInsert (insert_units lib us t)
  insert_units-AfterInsert [] t h = h
  insert_units-AfterInsert (u ∷ us) t h =
      let first = insert_unit-AfterInsert u t h in
      bind-ind AfterInsert (insert_unit lib u t)
        (λ later e. insert_units-AfterInsert us later (subst AfterInsert e first)) (λ e _. tt)

  upsert_document-IsConsistent :
      (d : StructuredDocument) (source_path file_checksum ingested_at : String) (c : CorpusStore)
      → IsConsistent c.tables
      → IsConsistent (upsert_document lib d source_path file_checksum ingested_at c).1.tables
  unfolding upsert_document invalidate
  upsert_document-IsConsistent d source_path file_checksum ingested_at c h =
      let cleared = delete_document d.document_id c.tables in
      let row = document_row lib d source_path file_checksum ingested_at in
      let consistent = delete_document-IsConsistent d.document_id c.tables h in
      let begun : Tables = record cleared { documents = cleared.documents ++ row ∷ [] } in
      let after =
        insert_units-AfterInsert d.units begun
          (Refers-more cleared.documents row cleared.units consistent.0, consistent.1) in
      Result-ind (λ (out : Result (Unit {0}) × CorpusStore). IsConsistent out.1.tables)
        (insert_units lib d.units begun) (λ t e. subst AfterInsert e after) (λ e _. h)

  context_package-IsConsistent :
      (ids : List String) (c : CorpusStore)
      → IsConsistent c.tables
      → IsConsistent (context_package lib ids c).1.tables
  unfolding context_package
  context_package-IsConsistent ids c h =
      let Q = λ (out : Result ContextPackage × CorpusStore). IsConsistent out.1.tables in
      Option-ind Q (cached lib (key_of lib ids) c.package_cache) (λ _ _. h)
        (λ _. Result-ind Q (build_package lib ids c.tables) (λ _ _. h) (λ _ _. h))

  corpus_checksum-IsConsistent :
      (c : CorpusStore) → IsConsistent c.tables → IsConsistent (corpus_checksum lib c).1.tables
  unfolding corpus_checksum
  corpus_checksum-IsConsistent c h =
      Option-ind (λ (out : String × CorpusStore). IsConsistent out.1.tables) c.checksum_cache
        (λ _ _. h) (λ _. h)

  apply-IsConsistent :
      (op : Operation) (c : CorpusStore)
      → IsConsistent c.tables
      → IsConsistent (apply lib op c).tables
  unfolding apply remove_document clear invalidate record_session close_session record_metrics
  apply-IsConsistent (upserting d source_path file_checksum ingested_at) c h =
      upsert_document-IsConsistent d source_path file_checksum ingested_at c h
  apply-IsConsistent (removing id) c h = delete_document-IsConsistent id c.tables h
  apply-IsConsistent clearing c h = (tt, tt)
  apply-IsConsistent (recording_session sid profile at) c h = h
  apply-IsConsistent (closing_session sid at requests) c h = h
  apply-IsConsistent (recording_metrics rid sid at payload) c h = h
  apply-IsConsistent (reading_package ids) c h = context_package-IsConsistent ids c h
  apply-IsConsistent reading_checksum c h = corpus_checksum-IsConsistent c h

  all-IsConsistent :
      (ops : List Operation) (c : CorpusStore)
      → IsConsistent c.tables
      → IsConsistent (apply_all lib ops c).tables
  all-IsConsistent [] c h = h
  all-IsConsistent (op ∷ ops) c h =
      all-IsConsistent ops (apply lib op c) (apply-IsConsistent op c h)

-- After any calls on a new store, successful or not, every stored unit has its document in the
-- table of documents, and no two stored units have the same identifier.
pub apply_all-IsConsistent :
    (lib : CorpusLibrary) (ops : List Operation) → IsConsistent (apply_all lib ops new_store).tables
apply_all-IsConsistent lib ops = all-IsConsistent lib ops new_store (tt, tt)
