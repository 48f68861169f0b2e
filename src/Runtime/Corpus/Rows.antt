-- ===== src/Runtime/Corpus/Rows.antt =====
-- The rows of the corpus store (runtime/corpus.py): what is read back from them, and how the tables
-- refer to each other.
use leanlm.Common.{
  ◌≡◌, refl, sym, ap, ◌∙◌, false, List, [], ◌∷◌, ◌++◌, any, is_empty, All, arith, append-nil,
  append_assoc, ◌==◌,
}
use leanlm.Shared.Errors.{ok}
use leanlm.Shared.Text.{Text, join_with}
use leanlm.Contracts.Dto.{SemanticUnit, UnitKind, heading, paragraph, list, table, code}
use leanlm.Runtime.Corpus.{
  CorpusLibrary, split_from, split_path, to_row, to_unit, kind_of, kind_value,
}

-- A title that the separator of the stored path cannot confuse.
pub record IsClean (title : Text) : Type 0 where
  pub occupied : is_empty title ≡ false
  pub unsplit : any (λ c. c == 31) title ≡ false

split_from-last :
    (begun title : Text)
    → any (λ c. c == 31) title ≡ false
    → split_from begun title ≡ (begun ++ title) ∷ []
split_from-last begun [] h = ap (λ x. x ∷ []) (sym (append-nil begun))
split_from-last begun (c ∷ cs) h =
    let apart : (c == 31) ≡ false = ground (arith, h) in
    let others : any (λ c. c == 31) cs ≡ false = ground (arith, h) in
    rw apart (
      split_from-last (begun ++ c ∷ []) cs others
      ∙ ap (λ x. x ∷ []) (append_assoc begun (c ∷ []) cs))

split_from-more :
    (begun title rest : Text)
    → any (λ c. c == 31) title ≡ false
    → split_from begun (title ++ 31 ∷ rest) ≡ (begun ++ title) ∷ split_from [] rest
split_from-more begun [] rest h = ap (λ x. x ∷ split_from [] rest) (sym (append-nil begun))
split_from-more begun (c ∷ cs) rest h =
    let apart : (c == 31) ≡ false = ground (arith, h) in
    let others : any (λ c. c == 31) cs ≡ false = ground (arith, h) in
    rw apart (
      split_from-more (begun ++ c ∷ []) cs rest others
      ∙ ap (λ x. x ∷ split_from [] rest) (append_assoc begun (c ∷ []) cs))

split_path-join :
    (path : List Text) → All IsClean path → split_path (join_with (31 ∷ []) path) ≡ path
unfolding split_path
split_path-join [] h = refl
split_path-join (title ∷ []) h = rw (split_from-last [] title h.0.unsplit) (rw h.0.occupied refl)
split_path-join (title ∷ next ∷ path) h =
    rw (split_from-more [] title (join_with (31 ∷ []) (next ∷ path)) h.0.unsplit)
      (rw h.0.occupied (ap (λ x. title ∷ x) (split_path-join (next ∷ path) h.1)))

kind_of-kind_value : (kind : UnitKind) → kind_of (kind_value kind) ≡ ok kind
kind_of-kind_value heading = refl
kind_of-kind_value paragraph = refl
kind_of-kind_value list = refl
kind_of-kind_value table = refl
kind_of-kind_value code = refl

-- A unit that is stored and read back has the same identifier, document, kind, text, section path,
-- position, offsets, token estimate and heading level, if no title of its section path is empty or
-- has the separator. Its meta data, which the source makes anew, are no part of this.
pub to_unit-to_row :
    (lib : CorpusLibrary) (u : SemanticUnit)
    → All IsClean u.section_path
    → to_unit (to_row lib u) ≡ ok u
unfolding to_unit to_row
to_unit-to_row lib u h =
    rw (kind_of-kind_value u.kind)
      (ap (λ path. ok (record u { section_path = path })) (split_path-join u.section_path h))
