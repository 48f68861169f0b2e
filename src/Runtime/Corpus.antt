-- ===== src/Runtime/Corpus.antt =====
-- The corpus store (runtime/corpus.py). The tables of the database are lists of rows, in the order
-- of insertion; `ORDER BY`, `sorted`, the digest and the checksum that `sealed` computes are
-- parameters. The columns `artifact_id` and `payload`, which nothing reads, are left out.
pub mod Caches
pub mod Rows
pub mod References
use leanlm.Common.{
  ℕ, ◌+◌, ltb, ◌==◌, String, str_append, str_eq, Bool, true, false, not, ◌&&◌, Option, none, some,
  List, [], ◌∷◌, ◌++◌, map, any, keep, length, is_empty, total, if◌then◌else◌,
}
use leanlm.Shared.Errors.{Exception, unexpected, value_error, input_error, Result, ok, raise, ◌>>=◌}
use leanlm.Shared.Text.{Text, join_with, to_set}
use leanlm.Contracts.Dto.{
  UnitKind, heading, paragraph, list, table, code, SemanticUnit, StructuredDocument, ContextPackage,
}

pub record DocumentRow : Type 0 where
  pub document_id : String
  pub filename : String
  pub source_path : String
  pub title : Text
  pub file_checksum : String
  pub language : String
  pub token_estimate : ℕ
  pub unit_count : ℕ
  pub ingested_at : String

pub record UnitRow : Type 0 where
  pub unit_id : String
  pub document_id : String
  pub document_name : String
  pub kind : String
  pub ordinal : ℕ
  pub section_path : Text
  pub token_estimate : ℕ
  pub char_start : ℕ
  pub char_end : ℕ
  pub heading_level : ℕ
  pub checksum : String
  pub text : Text

pub record SessionRow : Type 0 where
  pub session_id : String
  pub profile_id : String
  pub created_at : String
  pub closed_at : Option String
  pub requests : ℕ

pub record MetricsRow : Type 0 where
  pub request_id : String
  pub session_id : String
  pub created_at : String
  pub payload : String

pub record Tables : Type 0 where
  pub documents : List DocumentRow
  pub units : List UnitRow
  pub sessions : List SessionRow
  pub metrics : List MetricsRow

-- The key of a cached package: `None` for the whole corpus.
abbrev pub Key : Type 0
Key = Option (List String)

pub record CorpusStore : Type 0 where
  pub tables : Tables
  pub package_cache : List (Key × ContextPackage)
  pub checksum_cache : Option String

pub record CorpusLibrary : Type 0 where
  pub order_units : List UnitRow → List UnitRow
  pub order_documents : List DocumentRow → List DocumentRow
  pub sorted : List String → List String
  pub sha256_text : String → String
  -- the checksum of a sealed unit
  pub seal : SemanticUnit → String

abbrev pub new_store : CorpusStore
new_store = record {
  tables = record { documents = []; units = []; sessions = []; metrics = [] };
  package_cache = [];
  checksum_cache = none;
}

-- `_invalidate`
unfoldable pub invalidate : CorpusStore → CorpusStore
invalidate c = record c { package_cache = []; checksum_cache = none }

abbrev pub kind_value : UnitKind → String
kind_value heading = "heading"
kind_value paragraph = "paragraph"
kind_value list = "list"
kind_value table = "table"
kind_value code = "code"

-- `UnitKind(value)`
abbrev pub kind_of : String → Result UnitKind
kind_of value =
    if str_eq value "heading"
    then ok heading
    else if str_eq value "paragraph"
    then ok paragraph
    else if str_eq value "list"
    then ok list
    else if str_eq value "table"
    then ok table
    else if str_eq value "code"
    then ok code
    else raise (value_error "is not a valid UnitKind")

-- `text.split("\x1f")`; the first piece is begun.
abbrev pub split_from : Text → Text → List Text
split_from begun [] = begun ∷ []
split_from begun (c ∷ cs) =
    let rest = split_from (if c == 31 then [] else begun ++ c ∷ []) cs in
    if c == 31 then begun ∷ rest else rest

unfoldable pub split_path : Text → List Text
split_path stored = keep (λ p. not (is_empty p)) (split_from [] stored)

-- `"|".join`
abbrev join_bars : List String → String
join_bars [] = ""
join_bars (s ∷ []) = s
join_bars (s ∷ ss) = str_append s (str_append "|" (join_bars ss))

-- `_to_unit`, without `meta`, which it does not read back but makes anew, with the stage
-- `document_discovery` and the time of the call.
unfoldable pub to_unit : UnitRow → Result SemanticUnit
unfolding split_path
to_unit r = kind_of r.kind >>= λ kind. ok (record {
  unit_id = r.unit_id;
  document_id = r.document_id;
  document_name = r.document_name;
  kind = kind;
  text = r.text;
  section_path = split_path r.section_path;
  order = r.ordinal;
  char_start = r.char_start;
  char_end = r.char_end;
  token_estimate = r.token_estimate;
  heading_level = r.heading_level;
})

abbrev pub to_units : List UnitRow → Result (List SemanticUnit)
to_units [] = ok []
to_units (r ∷ rs) = to_unit r >>= λ u. to_units rs >>= λ us. ok (u ∷ us)

abbrev pub has_document : String → Tables → Bool
has_document id t = any (λ (d : DocumentRow). str_eq d.document_id id) t.documents

abbrev pub has_unit : String → Tables → Bool
has_unit id t = any (λ (r : UnitRow). str_eq r.unit_id id) t.units

abbrev integrity_error : Exception
integrity_error = unexpected "IntegrityError"

-- `DELETE FROM documents WHERE document_id = ?`, with the units that go along (`ON DELETE CASCADE`).
unfoldable pub delete_document : String → Tables → Tables
delete_document id t = record t {
  documents = keep (λ (d : DocumentRow). not (str_eq d.document_id id)) t.documents;
  units = keep (λ (r : UnitRow). not (str_eq r.document_id id)) t.units;
}

module _ (lib : CorpusLibrary) where
  unfoldable pub to_row : SemanticUnit → UnitRow
  to_row u = record {
    unit_id = u.unit_id;
    document_id = u.document_id;
    document_name = u.document_name;
    kind = kind_value u.kind;
    ordinal = u.order;
    section_path = join_with (31 ∷ []) u.section_path;
    token_estimate = u.token_estimate;
    char_start = u.char_start;
    char_end = u.char_end;
    heading_level = u.heading_level;
    checksum = lib.seal u;
    text = u.text;
  }

  -- One row, with the primary key and the reference to the document checked.
  unfoldable pub insert_unit : SemanticUnit → Tables → Result Tables
  unfolding to_row
  insert_unit u t =
      if has_unit u.unit_id t
      then raise integrity_error
      else if has_document u.document_id t
      then ok (record t { units = t.units ++ to_row u ∷ [] })
      else raise integrity_error

  abbrev pub insert_units : List SemanticUnit → Tables → Result Tables
  insert_units [] t = ok t
  insert_units (u ∷ us) t = insert_unit u t >>= insert_units us

  abbrev pub document_row : StructuredDocument → String → String → String → DocumentRow
  document_row d source_path file_checksum ingested_at = record {
    document_id = d.document_id;
    filename = d.filename;
    source_path = source_path;
    title = d.title;
    file_checksum = file_checksum;
    language = d.language_hint;
    token_estimate = d.token_estimate;
    unit_count = length d.units;
    ingested_at = ingested_at;
  }

  -- A failed insertion rolls the transaction back; the caches are cleared all the same.
  unfoldable pub upsert_document :
      StructuredDocument → String → String → String → CorpusStore → Result (Unit {0}) × CorpusStore
  unfolding invalidate delete_document insert_unit
  upsert_document d source_path file_checksum ingested_at c =
      let cleared = delete_document d.document_id c.tables in
      let row = document_row d source_path file_checksum ingested_at in
      elim (insert_units d.units (record cleared { documents = cleared.documents ++ row ∷ [] })) [
        | ok t ↦ (ok tt, record (invalidate c) { tables = t })
        | raise e ↦ (raise e, invalidate c)
      ]

  unfoldable pub remove_document : String → CorpusStore → Bool × CorpusStore
  unfolding invalidate delete_document
  remove_document id c =
      (has_document id c.tables, record (invalidate c) { tables = delete_document id c.tables })

  unfoldable pub clear : CorpusStore → CorpusStore
  unfolding invalidate
  clear c =
      let t = c.tables in record (invalidate c) { tables = record t { units = []; documents = [] } }

  -- `INSERT OR REPLACE`: a replaced row is deleted and comes last.
  unfoldable pub record_session : String → String → String → CorpusStore → CorpusStore
  record_session session_id profile_id created_at c =
      let t = c.tables in
      record c {
        tables = record t {
          sessions =
              keep (λ (s : SessionRow). not (str_eq s.session_id session_id)) t.sessions
              ++ (record {
                session_id = session_id;
                profile_id = profile_id;
                created_at = created_at;
                closed_at = none;
                requests = 0;
              })
                ∷ [];
        };
      }

  unfoldable pub close_session : String → String → ℕ → CorpusStore → CorpusStore
  close_session session_id closed_at requests c =
      let t = c.tables in
      let update = λ (s : SessionRow).
        if str_eq s.session_id session_id
        then record s { closed_at = some closed_at; requests = requests }
        else s in
      record c { tables = record t { sessions = map update t.sessions } }

  unfoldable pub record_metrics : String → String → String → String → CorpusStore → CorpusStore
  record_metrics request_id session_id created_at payload c =
      let t = c.tables in
      record c {
        tables = record t {
          metrics =
              keep (λ (m : MetricsRow). not (str_eq m.request_id request_id)) t.metrics
              ++ (record {
                request_id = request_id;
                session_id = session_id;
                created_at = created_at;
                payload = payload;
              })
                ∷ [];
        };
      }

  unfoldable pub documents : CorpusStore → List DocumentRow
  documents c = lib.order_documents c.tables.documents

  unfoldable pub document_count : CorpusStore → ℕ
  document_count c = length c.tables.documents

  unfoldable pub unit_count : CorpusStore → ℕ
  unit_count c = length c.tables.units

  -- The rows of the query; no identifier stands for all documents.
  unfoldable pub selected : List String → Tables → List UnitRow
  selected document_ids t = lib.order_units (
      if is_empty document_ids
      then t.units
      else keep (λ (r : UnitRow). any (str_eq r.document_id) document_ids) t.units)

  unfoldable pub iter_units : List String → Tables → Result (List SemanticUnit)
  unfolding selected to_unit
  iter_units document_ids t = to_units (selected document_ids t)

  unfoldable pub package_of : List SemanticUnit → ContextPackage
  package_of units = record {
    units = units;
    document_ids = lib.sorted (to_set str_eq (map (λ (u : SemanticUnit). u.document_id) units));
    total_units = length units;
    total_tokens = total (λ (u : SemanticUnit). u.token_estimate) units;
    corpus_checksum = lib.sha256_text (join_bars (map lib.seal units));
  }

  -- The package without the cache.
  unfoldable pub build_package : List String → Tables → Result ContextPackage
  unfolding iter_units package_of
  build_package document_ids t = iter_units document_ids t >>= λ units.
      if is_empty units
      then raise (
          input_error "COR-001" "the corpus is empty" "runtime" "document_discovery"
            "run `leanlm ingest <path>` first")
      else ok (package_of units)

  abbrev pub key_of : List String → Key
  key_of document_ids = if is_empty document_ids then none else some (lib.sorted document_ids)

  abbrev same_strings : List String → List String → Bool
  same_strings [] [] = true
  same_strings (x ∷ xs) (y ∷ ys) = str_eq x y && same_strings xs ys
  same_strings _ _ = false

  abbrev same_key : Key → Key → Bool
  same_key none none = true
  same_key (some a) (some b) = same_strings a b
  same_key _ _ = false

  -- `self._package_cache.get(key)`
  abbrev pub cached : Key → List (Key × ContextPackage) → Option ContextPackage
  cached key [] = none
  cached key ((k, p) ∷ rest) = if same_key k key then some p else cached key rest

  unfoldable pub context_package : List String → CorpusStore → Result ContextPackage × CorpusStore
  unfolding build_package
  context_package document_ids c = elim (cached (key_of document_ids) c.package_cache) [
    | some p ↦ (ok p, c)
    | none ↦ elim (build_package document_ids c.tables) [
      | ok p ↦ (ok p, record c { package_cache = (key_of document_ids, p) ∷ c.package_cache })
      | raise e ↦ (raise e, c)
    ]
  ]

  -- The checksum of the stored rows, without the cache.
  unfoldable pub stored_checksum : Tables → String
  stored_checksum t =
      if is_empty t.units
      then ""
      else lib.sha256_text (join_bars (map (λ (r : UnitRow). r.checksum) (lib.order_units t.units)))

  unfoldable pub corpus_checksum : CorpusStore → String × CorpusStore
  unfolding stored_checksum
  corpus_checksum c = elim c.checksum_cache [
    | some sum ↦ (sum, c)
    | none ↦
        (stored_checksum c.tables, record c { checksum_cache = some (stored_checksum c.tables) })
  ]
