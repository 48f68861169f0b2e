-- ===== src/Runtime/Corpus/Caches.antt =====
-- The caches of the corpus store (runtime/corpus.py) and the tables they are read from.
use leanlm.Common.{
  ℕ, ◌≡◌, refl, sym, ap, ap₂, ◌∙◌, String, str_eq, eq_iff, Bool, true, Option, none, some, List, [],
  ◌∷◌, ◌++◌, any, keep, if◌then◌else◌, All, arith, Bool-cases, inl, inr, subst,
}
use leanlm.Shared.Errors.{Result, ok, Result-ind, Option-ind}
use leanlm.Contracts.Dto.{StructuredDocument, ContextPackage}
use leanlm.Runtime.Corpus.{
  Key, Tables, CorpusStore, CorpusLibrary, new_store, invalidate, upsert_document, insert_units,
  delete_document, document_row, remove_document, clear, record_session, close_session,
  record_metrics, selected, iter_units, build_package, key_of, same_strings, same_key, cached,
  context_package, stored_checksum, corpus_checksum,
}

-- One call of a method that changes the store, the reads that fill a cache among them.
pub data Operation : Type 0 where
  upserting : StructuredDocument → String → String → String → Operation
  removing : String → Operation
  clearing : Operation
  recording_session : String → String → String → Operation
  closing_session : String → String → ℕ → Operation
  recording_metrics : String → String → String → String → Operation
  reading_package : List String → Operation
  reading_checksum : Operation

module _ (lib : CorpusLibrary) where
  unfoldable pub apply : Operation → CorpusStore → CorpusStore
  unfolding upsert_document remove_document clear record_session close_session record_metrics
      context_package corpus_checksum
  apply (upserting d source_path file_checksum ingested_at) c =
      (upsert_document lib d source_path file_checksum ingested_at c).1
  apply (removing id) c = (remove_document lib id c).1
  apply clearing c = clear lib c
  apply (recording_session sid profile at) c = record_session lib sid profile at c
  apply (closing_session sid at requests) c = close_session lib sid at requests c
  apply (recording_metrics rid sid at payload) c = record_metrics lib rid sid at payload c
  apply (reading_package ids) c = (context_package lib ids c).1
  apply reading_checksum c = (corpus_checksum lib c).1

  abbrev pub apply_all : List Operation → CorpusStore → CorpusStore
  apply_all [] c = c
  apply_all (op ∷ ops) c = apply_all ops (apply op c)

-- What `sorted` is known to do: it keeps the elements.
abbrev pub KeepsElements : (List String → List String) → Type 0
KeepsElements sort = (x : String) (xs : List String) → any (str_eq x) (sort xs) ≡ any (str_eq x) xs

same_strings_sound :
    (lib : CorpusLibrary) (xs ys : List String) → same_strings lib xs ys ≡ true → xs ≡ ys
same_strings_sound lib [] [] e = refl
same_strings_sound lib [] (y ∷ ys) e = cc e
same_strings_sound lib (x ∷ xs) [] e = cc e
same_strings_sound lib (x ∷ xs) (y ∷ ys) e =
    let first : str_eq x y ≡ true = ground (arith, e) in
    let others : same_strings lib xs ys ≡ true = ground (arith, e) in
    ap₂ (λ z zs. z ∷ zs) ((eq_iff x y).0 first) (same_strings_sound lib xs ys others)

keep-same :
    {A : Type 0} (p q : A → Bool) (xs : List A) → ((x : A) → p x ≡ q x) → keep p xs ≡ keep q xs
keep-same p q [] h = refl
keep-same p q (x ∷ xs) h = ap₂ (λ b rest. if b then x ∷ rest else rest) (h x) (keep-same p q xs h)

module _ (lib : CorpusLibrary) (keeps : KeepsElements lib.sorted) where
  same_key_sound : (a b : Key) → same_key lib a b ≡ true → a ≡ b
  same_key_sound none none e = refl
  same_key_sound none (some b) e = cc e
  same_key_sound (some a) none e = cc e
  same_key_sound (some a) (some b) e = ap some (same_strings_sound lib a b e)

  -- The rows depend on the identifiers only through the key.
  selected-key :
      (xs ys : List String) (t : Tables)
      → key_of lib xs ≡ key_of lib ys
      → selected lib xs t ≡ selected lib ys t
  unfolding selected
  selected-key [] [] t e = refl
  selected-key [] (y ∷ ys) t e = cc e
  selected-key (x ∷ xs) [] t e = cc e
  selected-key (x ∷ xs) (y ∷ ys) t e =
      let sorted_same : lib.sorted (x ∷ xs) ≡ lib.sorted (y ∷ ys) = cc e in
      ap lib.order_units (
        keep-same _ _ t.units (λ r.
          sym (keeps r.document_id (x ∷ xs))
          ∙ ap (any (str_eq r.document_id)) sorted_same
          ∙ keeps r.document_id (y ∷ ys)))

  build_package-key :
      (xs ys : List String) (t : Tables)
      → key_of lib xs ≡ key_of lib ys
      → build_package lib xs t ≡ build_package lib ys t
  unfolding build_package iter_units
  build_package-key xs ys t e = rw (selected-key xs ys t e) refl

  -- Each cached package is the one that would be built.
  abbrev AreFresh : List (Key × ContextPackage) → Tables → Type 0
  AreFresh cache t =
      All
        (λ entry.
          (ids : List String) → key_of lib ids ≡ entry.0 → build_package lib ids t ≡ ok entry.1)
        cache

  abbrev IsFresh : Option String → Tables → Type 0
  IsFresh none t = Unit
  IsFresh (some sum) t = sum ≡ stored_checksum lib t

  IsFresh-same :
      (o : Option String) (t later : Tables)
      → stored_checksum lib t ≡ stored_checksum lib later
      → IsFresh o t
      → IsFresh o later
  IsFresh-same none t later same h = tt
  IsFresh-same (some sum) t later same h = h ∙ same

  abbrev IsCoherent : CorpusStore → Type 0
  IsCoherent c = AreFresh c.package_cache c.tables × IsFresh c.checksum_cache c.tables

  cached-fresh :
      (ids : List String) (cache : List (Key × ContextPackage)) (t : Tables) (p : ContextPackage)
      → AreFresh cache t
      → cached lib (key_of lib ids) cache ≡ some p
      → build_package lib ids t ≡ ok p
  cached-fresh ids [] t p h e = cc e
  cached-fresh ids ((k, q) ∷ rest) t p h e = elim (Bool-cases (same_key lib k (key_of lib ids))) [
    | inl same ↦ h.0 ids (sym (same_key_sound k (key_of lib ids) same)) ∙ cc (e, same)
    | inr other ↦ cached-fresh ids rest t p h.1 (cc (e, other))
  ]

  context_package-IsCoherent :
      (ids : List String) (c : CorpusStore)
      → IsCoherent c
      → IsCoherent (context_package lib ids c).1
        × ((context_package lib ids c).0 ≡ build_package lib ids c.tables)
        × ((context_package lib ids c).1.tables ≡ c.tables)
  unfolding context_package
  context_package-IsCoherent ids c h =
      let Q = λ (out : Result ContextPackage × CorpusStore).
        IsCoherent out.1 × (out.0 ≡ build_package lib ids c.tables) × (out.1.tables ≡ c.tables) in
      Option-ind Q (cached lib (key_of lib ids) c.package_cache)
        (λ p hit. (h, sym (cached-fresh ids c.package_cache c.tables p h.0 hit), refl))
        (λ _.
          Result-ind Q (build_package lib ids c.tables)
            (λ p built. (
              ((λ other same. build_package-key other ids c.tables same ∙ built, h.0), h.1),
              sym built,
              refl,
            ))
            (λ e failed. (h, sym failed, refl)))

  corpus_checksum-IsCoherent :
      (c : CorpusStore)
      → IsCoherent c
      → IsCoherent (corpus_checksum lib c).1
        × ((corpus_checksum lib c).0 ≡ stored_checksum lib c.tables)
        × ((corpus_checksum lib c).1.tables ≡ c.tables)
  unfolding corpus_checksum
  corpus_checksum-IsCoherent c h =
      let Q = λ (out : String × CorpusStore).
        IsCoherent out.1 × (out.0 ≡ stored_checksum lib c.tables) × (out.1.tables ≡ c.tables) in
      Option-ind Q c.checksum_cache
        (λ sum held. (h, subst (λ o. IsFresh o c.tables) held h.1, refl))
        (λ _. ((h.0, refl), refl, refl))

  upsert_document-IsCoherent :
      (d : StructuredDocument) (source_path file_checksum ingested_at : String) (c : CorpusStore)
      → IsCoherent (upsert_document lib d source_path file_checksum ingested_at c).1
  unfolding upsert_document invalidate
  upsert_document-IsCoherent d source_path file_checksum ingested_at c =
      let cleared = delete_document d.document_id c.tables in
      let row = document_row lib d source_path file_checksum ingested_at in
      Result-ind (λ (out : Result (Unit {0}) × CorpusStore). IsCoherent out.1)
        (insert_units lib d.units (record cleared { documents = cleared.documents ++ row ∷ [] }))
        (λ t _. (tt, tt)) (λ e _. (tt, tt))

  apply-IsCoherent : (op : Operation) (c : CorpusStore) → IsCoherent c → IsCoherent (apply lib op c)
  unfolding apply remove_document clear invalidate record_session close_session record_metrics
      build_package iter_units selected stored_checksum
  apply-IsCoherent (upserting d source_path file_checksum ingested_at) c h =
      upsert_document-IsCoherent d source_path file_checksum ingested_at c
  apply-IsCoherent (removing id) c h = (tt, tt)
  apply-IsCoherent clearing c h = (tt, tt)
  apply-IsCoherent (recording_session sid profile at) c h =
      (h.0, IsFresh-same c.checksum_cache c.tables _ refl h.1)
  apply-IsCoherent (closing_session sid at requests) c h =
      (h.0, IsFresh-same c.checksum_cache c.tables _ refl h.1)
  apply-IsCoherent (recording_metrics rid sid at payload) c h =
      (h.0, IsFresh-same c.checksum_cache c.tables _ refl h.1)
  apply-IsCoherent (reading_package ids) c h = (context_package-IsCoherent ids c h).0
  apply-IsCoherent reading_checksum c h = (corpus_checksum-IsCoherent c h).0

  apply_all-IsCoherent :
      (ops : List Operation) (c : CorpusStore) → IsCoherent c → IsCoherent (apply_all lib ops c)
  apply_all-IsCoherent [] c h = h
  apply_all-IsCoherent (op ∷ ops) c h =
      apply_all-IsCoherent ops (apply lib op c) (apply-IsCoherent op c h)

-- The caches are never stale: after any calls on a new store, successful or not, a context package
-- is what the tables give, for any selection of documents, and the corpus checksum is that of the
-- stored rows, when `sorted` keeps the elements of a list.
pub context_package-fresh :
    (lib : CorpusLibrary) (ops : List Operation) (ids : List String)
    → KeepsElements lib.sorted
    → let c = apply_all lib ops new_store in
      ((context_package lib ids c).0 ≡ build_package lib ids c.tables)
      × ((corpus_checksum lib c).0 ≡ stored_checksum lib c.tables)
context_package-fresh lib ops ids keeps =
    let c = apply_all lib ops new_store in
    let h = apply_all-IsCoherent lib keeps ops new_store (tt, tt) in
    ((context_package-IsCoherent lib keeps ids c h).1, (corpus_checksum-IsCoherent lib keeps c h).1)
