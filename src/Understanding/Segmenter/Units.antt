-- ===== src/Understanding/Segmenter/Units.antt =====
-- The units that the segmenter (packages/understanding/services.py) makes.
use leanlm.Common.{
  ℕ, ◌+◌, ◌≡◌, refl, sym, ap, ◌∙◌, Bool, true, false, not, ◌&&◌, some, List, [], ◌∷◌, ◌++◌, map,
  arith, length, length-append, leb, ltb, is_empty, if-ind, if◌then◌else◌,
}
use leanlm.Shared.Errors.{Option-ind}
use leanlm.Shared.Text.{Text, join_with}
use leanlm.Contracts.Dto.{SemanticUnit, UnitKind}
use leanlm.Understanding.Structure.{Block}
use leanlm.Understanding.Segmenter.{
  Segmenter, Segmentation, last_of, set_last, text_of, is_heading, unit_id_of, make_unit,
  append_unit, is_foldable, fold_unit, append, split_oversized, append_all, emit_blocks, emit,
  enter_section, collect, segment_from, segment,
}

module _ (s : Segmenter) where
  -- A unit of the document: it carries the counter's estimate of its text, and the identifier made
  -- of the document's and its number.
  pub record IsMade (u : SemanticUnit) : Type 0 where
    pub counted : u.token_estimate ≡ s.count u.text
    pub owned : u.document_id ≡ s.document_id
    pub named : u.unit_id ≡ unit_id_of s u.order

  -- The units have the numbers from `first` on, without a gap.
  abbrev pub AreNumbered : ℕ → List SemanticUnit → Type 0
  AreNumbered first [] = Unit
  AreNumbered first (u ∷ us) = (u.order ≡ first) × IsMade u × AreNumbered (first + 1) us

  AreNumbered-snoc :
      (first : ℕ) (us : List SemanticUnit) (u : SemanticUnit)
      → AreNumbered first us
      → u.order ≡ first + length us
      → IsMade u
      → AreNumbered first (us ++ u ∷ [])
  AreNumbered-snoc first [] u h at m = (omega arith, m, tt)
  AreNumbered-snoc first (v ∷ us) u h at m =
      (h.0, h.1, AreNumbered-snoc (first + 1) us u h.2 (omega arith) m)

  AreNumbered-set_last :
      (first : ℕ) (us : List SemanticUnit) (previous u : SemanticUnit)
      → AreNumbered first us
      → last_of us ≡ some previous
      → u.order ≡ previous.order
      → IsMade u
      → AreNumbered first (set_last u us) × (length (set_last u us) ≡ length us)
  AreNumbered-set_last first [] previous u h last e m = cc last
  AreNumbered-set_last first (v ∷ []) previous u h last e m =
      let same : v ≡ previous = cc last in
      ((e ∙ ap (λ (x : SemanticUnit). x.order) (sym same) ∙ h.0, m, tt), refl)
  AreNumbered-set_last first (v ∷ w ∷ us) previous u h last e m =
      let (rest, size) = AreNumbered-set_last (first + 1) (w ∷ us) previous u h.2 last e m in
      ((h.0, h.1, rest), omega (arith, size))

  abbrev IsGood : Segmentation → Type 0
  IsGood st = AreNumbered 0 st.units × (st.order ≡ length st.units)

  append_unit-IsGood :
      (text : Text) (kind : UnitKind) (block : Block) (st : Segmentation)
      → IsGood st
      → IsGood (append_unit s text kind block st)
  unfolding append_unit make_unit
  append_unit-IsGood text kind block st h = (
    AreNumbered-snoc 0 st.units _ h.0 (omega arith)
        (record { counted = refl; owned = refl; named = refl }),
    omega (
      arith,
      length-append st.units (
          make_unit s text kind st.section_path st.order block.char_start block.char_end
            block.heading_level
          ∷ []),
    ),
  )

  fold_unit-IsGood :
      (text : Text) (block : Block) (previous : SemanticUnit) (st : Segmentation)
      → IsGood st
      → last_of st.units ≡ some previous
      → IsGood (fold_unit s text block previous st)
  unfolding fold_unit make_unit
  fold_unit-IsGood text block previous st h last =
      let (numbered, size) =
        AreNumbered-set_last 0 st.units previous _ h.0 last refl
          (record { counted = refl; owned = refl; named = refl }) in
      (numbered, omega (arith, size))

  append-IsGood :
      (text : Text) (as_heading : Bool) (block : Block) (st : Segmentation)
      → IsGood st
      → IsGood (append s text as_heading block st)
  unfolding append
  append-IsGood text as_heading block st h =
      Option-ind IsGood (last_of st.units)
        (λ previous last.
          if-ind IsGood (is_foldable s text as_heading previous st)
            (λ _. fold_unit-IsGood text block previous st h last)
            (λ _. append_unit-IsGood text _ block st h))
        (λ _. append_unit-IsGood text _ block st h)

  append_all-IsGood :
      (pieces : List Text) (block : Block) (st : Segmentation)
      → IsGood st
      → IsGood (append_all s pieces block st)
  append_all-IsGood [] block st h = h
  append_all-IsGood (piece ∷ pieces) block st h =
      append_all-IsGood pieces block (append s piece false block st)
        (append-IsGood piece false block st h)

  emit_blocks-IsGood :
      (pending : List Block) (st : Segmentation) → IsGood st → IsGood (emit_blocks s pending st)
  emit_blocks-IsGood [] st h = h
  emit_blocks-IsGood (first ∷ rest) st h =
      let content = s.lib.strip (join_with (10 ∷ 10 ∷ []) (map text_of (first ∷ rest))) in
      if-ind IsGood (is_empty content) (λ _. h)
        (λ _.
          if-ind IsGood (ltb s.policy.max_tokens (s.count content))
            (λ _. append_all-IsGood (split_oversized s content) first st h)
            (λ _. append-IsGood content false first st h))

  emit-IsGood : (st : Segmentation) → IsGood st → IsGood (emit s st)
  unfolding emit
  emit-IsGood st h = emit_blocks-IsGood st.pending st h

  enter_section-IsGood :
      (block : Block) (st : Segmentation) → IsGood st → IsGood (enter_section s block st)
  unfolding enter_section
  enter_section-IsGood block st h =
      if-ind IsGood s.policy.keep_headings_as_units
        (λ _. append-IsGood (s.lib.strip block.text) true block _ (emit-IsGood st h))
        (λ _. emit-IsGood st h)

  collect-IsGood : (block : Block) (st : Segmentation) → IsGood st → IsGood (collect s block st)
  unfolding collect
  collect-IsGood block st h =
      let held : Segmentation = record st { pending = st.pending ++ block ∷ [] } in
      if-ind IsGood
        (leb s.policy.merge_below_tokens
          (s.count (join_with (10 ∷ 10 ∷ []) (map text_of held.pending))))
        (λ _. emit-IsGood held h) (λ _. h)

  segment_from-IsGood :
      (blocks : List Block) (st : Segmentation) → IsGood st → IsGood (segment_from s blocks st)
  unfolding segment_from
  segment_from-IsGood [] st h = emit-IsGood st h
  segment_from-IsGood (block ∷ blocks) st h =
      let titled = is_heading block.kind in
      let next = if titled then enter_section s block st else collect s block st in
      let good =
        if-ind IsGood titled (λ _. enter_section-IsGood block st h)
          (λ _. collect-IsGood block st h) in
      if-ind IsGood (not titled && leb s.policy.max_units_per_document (length next.units))
        (λ _. emit-IsGood next good) (λ _. segment_from-IsGood blocks next good)

-- Whatever the blocks, the units of a document are numbered from 0 without a gap, in their order,
-- carry the counter's estimate of their text, and are named by the document and their number, also
-- where small units were folded and large ones split.
pub segment-AreNumbered : (s : Segmenter) (blocks : List Block) → AreNumbered s 0 (segment s blocks)
unfolding segment
segment-AreNumbered s blocks = (segment_from-IsGood s blocks _ (tt, refl)).0
