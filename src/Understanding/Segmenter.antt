-- ===== src/Understanding/Segmenter.antt =====
-- The segmenter (packages/understanding/services.py): semantic units with their section paths. The
-- token counter and Python's formatting of a number are parameters.
pub mod Units
pub mod Splitting
use mathlib.Core.Logic.{ite}
use Prim.Native.String
use leanlm.Common.{
  ℕ, zero, suc, ◌+◌, ◌-◌, max, String, str_append, Bool, true, false, not, ◌&&◌, Option, none, some,
  List, [], ◌∷◌, ◌++◌, map, ltb, leb, if◌then◌else◌, length, is_empty, total, keep, any, ◌==◌,
}
use leanlm.Shared.Text.{
  Text, codes, TextLibrary, same_path, same_text, is_member, sentences, words, join_with,
  join_words, take,
}
use leanlm.Contracts.Dto.{UnitKind, UnitKind-discrete, heading, SemanticUnit, StructuredDocument}
use leanlm.Understanding.Structure.{Block, LinePatterns, analyze}

pub record SegmentationPolicy : Type 0 where
  pub target_tokens : ℕ
  pub max_tokens : ℕ
  pub min_tokens : ℕ
  pub merge_below_tokens : ℕ
  pub max_units_per_document : ℕ
  pub keep_headings_as_units : Bool

-- The policy, the counter, and the document that is segmented.
pub record Segmenter : Type 0 where
  pub policy : SegmentationPolicy
  pub count : Text → ℕ
  pub lib : TextLibrary
  pub format : ℕ → String
  pub document_id : String
  pub document_name : String

-- `text[:n]` of an identifier.
abbrev pub take_chars : ℕ → String → String
take_chars zero s = ""
take_chars (suc n) String.[] = ""
take_chars (suc n) (String.◌∷◌ c s) = String.◌∷◌ c (take_chars n s)

abbrev pub is_heading : UnitKind → Bool
is_heading kind = ite (UnitKind-discrete kind heading) true false

-- The variables of the loop.
pub record Segmentation : Type 0 where
  pub units : List SemanticUnit
  pub section_path : List Text
  pub pending : List Block
  pub order : ℕ

abbrev pub last_of {ℓ} : {A : Type ℓ} → List A → Option A
last_of [] = none
last_of (x ∷ []) = some x
last_of (x ∷ xs) = last_of xs

-- `units[-1] = u`
abbrev pub set_last {ℓ} : {A : Type ℓ} → A → List A → List A
set_last u [] = []
set_last u (x ∷ []) = u ∷ []
set_last u (x ∷ xs) = x ∷ set_last u xs

-- `b[0]`, where there is one.
abbrev pub text_of : Block → Text
text_of b = b.text

-- `section_path[:n]`
abbrev pub take_path : ℕ → List Text → List Text
take_path zero path = []
take_path (suc n) [] = []
take_path (suc n) (t ∷ path) = t ∷ take_path n path

module _ (s : Segmenter) where
  abbrev pub unit_id_of : ℕ → String
  unit_id_of order = str_append (take_chars 12 s.document_id) (str_append "#" (s.format order))

  unfoldable pub make_unit : Text → UnitKind → List Text → ℕ → ℕ → ℕ → ℕ → SemanticUnit
  make_unit text kind path order start stop level = record {
    unit_id = unit_id_of order;
    document_id = s.document_id;
    document_name = s.document_name;
    kind = kind;
    text = text;
    section_path = path;
    order = order;
    char_start = start;
    char_end = stop;
    token_estimate = s.count text;
    heading_level = level;
  }

  -- A unit of its own.
  unfoldable pub append_unit : Text → UnitKind → Block → Segmentation → Segmentation
  unfolding make_unit
  append_unit text kind block st = record st {
    units =
        st.units
        ++ make_unit text kind st.section_path st.order block.char_start block.char_end
            block.heading_level
          ∷ [];
    order = st.order + 1;
  }

  unfoldable pub is_foldable : Text → Bool → SemanticUnit → Segmentation → Bool
  unfolding same_path UnitKind-discrete
  is_foldable text as_heading previous st =
      not as_heading
      && (ltb (s.count text) s.policy.min_tokens
          && (not (is_heading previous.kind) && same_path previous.section_path st.section_path))

  -- The last unit with the text behind its own.
  unfoldable pub fold_unit : Text → Block → SemanticUnit → Segmentation → Segmentation
  unfolding make_unit
  fold_unit text block previous st = record st {
    units =
        set_last
          (make_unit (previous.text ++ 10 ∷ text) previous.kind previous.section_path previous.order
            previous.char_start block.char_end previous.heading_level)
          st.units;
  }

  -- `_append`; `as_heading` is its argument `kind=UnitKind.HEADING`.
  unfoldable pub append : Text → Bool → Block → Segmentation → Segmentation
  unfolding append_unit fold_unit is_foldable
  append text as_heading block st =
      let kind = if as_heading then heading else block.kind in
      elim (last_of st.units) [
        | none ↦ append_unit text kind block st
        | some previous ↦
            if is_foldable text as_heading previous st
            then fold_unit text block previous st
            else append_unit text kind block st
      ]

  -- The sentences of each piece: a piece is closed before it would pass the target.
  unfoldable pub groups : List Text → ℕ → List Text → List (List Text)
  groups current used [] = if is_empty current then [] else current ∷ []
  groups current used (sentence ∷ rest) =
      let cost = s.count sentence in
      let full = not (is_empty current) && ltb s.policy.target_tokens (used + cost) in
      let more =
        groups (if full then sentence ∷ [] else current ++ sentence ∷ [])
          (if full then cost else used + cost) rest in
      if full then current ∷ more else more

  unfoldable pub split_oversized : Text → List Text
  unfolding groups sentences
  split_oversized text =
      let pieces = map join_words (groups [] 0 (sentences s.lib text)) in
      if is_empty pieces then text ∷ [] else pieces

  abbrev append_all : List Text → Block → Segmentation → Segmentation
  append_all [] block st = st
  append_all (piece ∷ pieces) block st = append_all pieces block (append piece false block st)

  -- `emit`: the first block gives the place of all that is pending.
  abbrev emit_from : Block → List Block → Segmentation → Segmentation
  emit_from first rest st =
      let content = s.lib.strip (join_with (10 ∷ 10 ∷ []) (map text_of (first ∷ rest))) in
      let emitted =
        if is_empty content
        then st
        else if ltb s.policy.max_tokens (s.count content)
        then append_all (split_oversized content) first st
        else append content false first st in
      record emitted { pending = [] }

  abbrev emit_blocks : List Block → Segmentation → Segmentation
  emit_blocks [] st = st
  emit_blocks (first ∷ rest) st = emit_from first rest st

  unfoldable pub emit : Segmentation → Segmentation
  unfolding append split_oversized
  emit st = emit_blocks st.pending st

  -- A heading closes what is pending and changes the path.
  unfoldable pub enter_section : Block → Segmentation → Segmentation
  unfolding emit append
  enter_section block st =
      let emitted = emit st in
      let level = max 1 block.heading_level in
      let title = s.lib.strip block.text in
      let inside = record emitted {
        section_path = take_path (level - 1) emitted.section_path ++ title ∷ [];
      } in
      if s.policy.keep_headings_as_units then append title true block inside else inside

  unfoldable pub collect : Block → Segmentation → Segmentation
  unfolding emit
  collect block st =
      let held = record st { pending = st.pending ++ block ∷ [] } in
      if leb s.policy.merge_below_tokens
        (s.count (join_with (10 ∷ 10 ∷ []) (map text_of held.pending)))
      then emit held
      else held

  -- The loop and the last `emit`.
  unfoldable pub segment_from : List Block → Segmentation → Segmentation
  unfolding enter_section collect emit UnitKind-discrete
  segment_from [] st = emit st
  segment_from (block ∷ blocks) st =
      let titled = is_heading block.kind in
      let next = if titled then enter_section block st else collect block st in
      let rest = segment_from blocks next in
      if not titled && leb s.policy.max_units_per_document (length next.units)
      then emit next
      else rest

  unfoldable pub segment : List Block → List SemanticUnit
  unfolding segment_from
  segment blocks =
      (segment_from blocks
        (record { units = []; section_path = []; pending = []; order = 0 })).units

abbrev fr_markers : List Text
fr_markers = map codes (
    "les" ∷ "des" ∷ "une" ∷ "dans" ∷ "pour" ∷ "que" ∷ "qui" ∷ "est" ∷ "sont" ∷ "avec" ∷ "sur"
    ∷ "cette" ∷ "aux" ∷ [])

abbrev en_markers : List Text
en_markers = map codes (
    "the" ∷ "and" ∷ "for" ∷ "that" ∷ "with" ∷ "this" ∷ "are" ∷ "was" ∷ "from" ∷ "have" ∷ "been"
    ∷ "will" ∷ [])

unfoldable pub detect_language : TextLibrary → Text → String
unfolding words same_text
detect_language lib text =
    let sample = words lib (take 4000 text) in
    let fr = length (keep (λ w. is_member w fr_markers) sample) in
    let en = length (keep (λ w. is_member w en_markers) sample) in
    if is_empty sample then "und" else if fr == en then "und" else if ltb en fr then "fr" else "en"

-- What `build_structured_document` needs of the standard library and its callers.
pub record DocumentBuilder : Type 0 where
  pub sha256_text : String → String
  -- `Path(filename).stem`, with blanks for underscores
  pub stem : String → Text
  pub patterns : LinePatterns
  pub policy : SegmentationPolicy
  pub count : Text → ℕ
  pub lib : TextLibrary
  pub format : ℕ → String

abbrev headings_of : List Block → List Text
headings_of [] = []
headings_of (b ∷ bs) =
    let rest = headings_of bs in if is_heading b.kind then b.text ∷ rest else rest

abbrev title_of : Text → List Text → Text
title_of stem [] = stem
title_of stem (t ∷ ts) = t

unfoldable pub build_structured_document :
    DocumentBuilder → Text → String → String → StructuredDocument
unfolding analyze segment detect_language UnitKind-discrete
build_structured_document d normalized_text filename descriptor_id =
    let blocks = analyze d.patterns normalized_text in
    let document_id =
      take_chars 24 (d.sha256_text (str_append descriptor_id (str_append ":" filename))) in
    let units =
      segment
        (record {
          policy = d.policy;
          count = d.count;
          lib = d.lib;
          format = d.format;
          document_id = document_id;
          document_name = filename;
        })
        blocks in
    record {
      document_id = document_id;
      filename = filename;
      title = title_of (d.stem filename) (headings_of blocks);
      units = units;
      section_titles = headings_of blocks;
      token_estimate = total (λ (u : SemanticUnit). u.token_estimate) units;
      language_hint = detect_language d.lib normalized_text;
    }
