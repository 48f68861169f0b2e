-- ===== src/Context/Optimizer/Figures.antt =====
-- Near duplicates (packages/context/services.py), and the figures of the units.
use leanlm.Common.{
  ℕ, ◌≤◌, ◌≡◌, refl, sym, subst, true, false, List, [], ◌∷◌, ◌++◌, arith, any, leb, Bool-cases, inl,
  inr, ◌⊎◌, All, All-append,
}
use leanlm.Shared.Text.{Text, same_text, is_subset}
use leanlm.Contracts.Dto.{SemanticUnit}
use leanlm.Context.Optimizer.{
  ContextOptimizer, Units, Entry, numeric_signature, same_set, is_near, settle, near_loop,
  kept_units, entry_of, drop_near_duplicates,
}

same_text-eq : (x y : Text) → same_text x y ≡ true → x ≡ y
unfolding same_text
same_text-eq [] [] h = refl
same_text-eq [] (y ∷ ys) h = cc
same_text-eq (x ∷ xs) [] h = cc
same_text-eq (x ∷ xs) (y ∷ ys) h = ground (arith, same_text-eq xs ys)

same_text_refl : (x : Text) → same_text x x ≡ true
unfolding same_text
same_text_refl [] = refl
same_text_refl (x ∷ xs) = ground (arith, same_text_refl xs)

abbrev Covers : List Text → List Text → Type 0
Covers a b = is_subset same_text a b ≡ true

Covers-cons : (x : Text) (a b : List Text) → Covers a b → Covers a (x ∷ b)
Covers-cons x [] b h = refl
Covers-cons x (y ∷ a) b h = ground (arith, Covers-cons x a b)

Covers-refl : (a : List Text) → Covers a a
Covers-refl [] = refl
Covers-refl (x ∷ a) = ground (arith, same_text_refl x, Covers-cons x a a (Covers-refl a))

member-Covers :
    (x : Text) (b c : List Text)
    → any (same_text x) b ≡ true
    → Covers b c
    → any (same_text x) c ≡ true
member-Covers x [] c m h = cc
member-Covers x (y ∷ b) c m h = elim (Bool-cases (same_text x y)) [
  | inl same ↦
      let e = same_text-eq x y same in
      subst (λ z. any (same_text z) c ≡ true) (sym e) (ground arith)
  | inr other ↦ member-Covers x b c (ground arith) (ground arith)
]

Covers-trans : (a b c : List Text) → Covers a b → Covers b c → Covers a c
Covers-trans [] b c h k = refl
Covers-trans (x ∷ a) b c h k = ground (arith, member-Covers x b c, Covers-trans a b c)

abbrev pub SameFigures : List Text → List Text → Type 0
SameFigures a b = same_set a b ≡ true

SameFigures-refl : (a : List Text) → SameFigures a a
SameFigures-refl a = ground (arith, Covers-refl a)

SameFigures-trans : (a b c : List Text) → SameFigures a b → SameFigures b c → SameFigures a c
SameFigures-trans a b c h k = ground (arith, Covers-trans a b c, Covers-trans c b a)

module _ (o : ContextOptimizer) where
  abbrev figures : SemanticUnit → List Text
  figures u = numeric_signature o.lib u.text

  abbrev IsSigned : Entry → Type 0
  IsSigned e = e.numbers ≡ figures e.unit

  -- A kept entry has the figures, and at least as many tokens.
  abbrev Stands : List Text → ℕ → List Entry → Type 0
  Stands x n [] = ⊥
  Stands x n (e ∷ es) =
      ((e.kept ≡ true) × SameFigures x e.numbers × (n ≤ e.unit.token_estimate)) ⊎ Stands x n es

  -- The same for a list of units.
  abbrev pub Survives : List Text → ℕ → Units → Type 0
  Survives x n [] = ⊥
  Survives x n (u ∷ us) = (SameFigures x (figures u) × (n ≤ u.token_estimate)) ⊎ Survives x n us

  Stands-before :
      (x : List Text) (n : ℕ) (es fs : List Entry) → Stands x n es → Stands x n (es ++ fs)
  Stands-before x n [] fs h = absurd h
  Stands-before x n (e ∷ es) fs (inl h) = inl h
  Stands-before x n (e ∷ es) fs (inr h) = inr (Stands-before x n es fs h)

  Stands-after :
      (x : List Text) (n : ℕ) (es fs : List Entry) → Stands x n fs → Stands x n (es ++ fs)
  Stands-after x n [] fs h = h
  Stands-after x n (e ∷ es) fs h = inr (Stands-after x n es fs h)

  is_near-Figures :
      (e other : Entry)
      → is_near o e other ≡ true
      → (other.kept ≡ true) × SameFigures e.numbers other.numbers
  unfolding is_near
  is_near-Figures e other h = (ground arith, ground arith)

  settle-IsSigned :
      (e : Entry) (past : List Entry) → All IsSigned past → All IsSigned (settle o e past).0
  unfolding settle
  settle-IsSigned e [] h = tt
  settle-IsSigned e (other ∷ past) h = elim (Bool-cases (is_near o e other)) [
    | inr far ↦ rw far (h.0, settle-IsSigned e past h.1)
    | inl near ↦ elim (Bool-cases (leb e.unit.token_estimate other.unit.token_estimate)) [
      | inl shorter ↦ rw (near, shorter) h
      | inr longer ↦ rw (near, longer) h
    ]
  ]

  -- A new entry that is not kept leaves its figures to an entry before it.
  settle-new :
      (e : Entry) (past : List Entry)
      → (settle o e past).1 ≡ false
      → Stands e.numbers e.unit.token_estimate (settle o e past).0
  unfolding settle
  settle-new e [] h = cc
  settle-new e (other ∷ past) h = elim (Bool-cases (is_near o e other)) [
    | inr far ↦ rw far (inr (settle-new e past (rw far at h)))
    | inl near ↦ elim (Bool-cases (leb e.unit.token_estimate other.unit.token_estimate)) [
      | inl shorter ↦
          let (k, same) = is_near-Figures e other near in
          rw (near, shorter) (inl (k, same, ground arith))
      | inr longer ↦ absurd (cc (rw (near, longer) at h))
    ]
  ]

  -- What stood before still stands, or the new entry takes its place.
  settle-old :
      (x : List Text) (n : ℕ) (e : Entry) (past : List Entry)
      → Stands x n past
      → Stands x n (settle o e past).0
        ⊎ (((settle o e past).1 ≡ true) × SameFigures x e.numbers × (n ≤ e.unit.token_estimate))
  unfolding settle
  settle-old x n e [] h = absurd h
  settle-old x n e (other ∷ past) (inl (k, same, le)) = elim (Bool-cases (is_near o e other)) [
    | inr far ↦ rw far (inl (inl (k, same, le)))
    | inl near ↦ elim (Bool-cases (leb e.unit.token_estimate other.unit.token_estimate)) [
      | inl shorter ↦ rw (near, shorter) (inl (inl (k, same, le)))
      | inr longer ↦
          let back = (is_near-Figures e other near).1 in
          rw (near, longer)
            (inr
              (refl, SameFigures-trans x other.numbers e.numbers same (ground arith), ground arith))
    ]
  ]
  settle-old x n e (other ∷ past) (inr h) = elim (Bool-cases (is_near o e other)) [
    | inr far ↦ rw far (elim (settle-old x n e past h) [ inl s ↦ inl (inr s) | inr s ↦ inr s ])
    | inl near ↦ elim (Bool-cases (leb e.unit.token_estimate other.unit.token_estimate)) [
      | inl shorter ↦ rw (near, shorter) (inl (inr h))
      | inr longer ↦ rw (near, longer) (inl (inr h))
    ]
  ]

  -- The entries after one more unit.
  abbrev grow : Entry → List Entry → List Entry
  grow e past = (settle o e past).0 ++ record e { kept = (settle o e past).1 } ∷ []

  grow-IsSigned :
      (u : SemanticUnit) (past : List Entry)
      → All IsSigned past
      → All IsSigned (grow (entry_of o u) past)
  unfolding entry_of
  grow-IsSigned u past h =
      All-append IsSigned (settle o (entry_of o u) past).0 _ (settle-IsSigned (entry_of o u) past h)
        (refl, tt)

  grow-new : (e : Entry) (past : List Entry) → Stands e.numbers e.unit.token_estimate (grow e past)
  grow-new e past = elim (Bool-cases (settle o e past).1) [
    | inl stays ↦
        Stands-after e.numbers e.unit.token_estimate (settle o e past).0 _
          (inl (stays, SameFigures-refl e.numbers, omega arith))
    | inr goes ↦
        Stands-before e.numbers e.unit.token_estimate (settle o e past).0 _ (settle-new e past goes)
  ]

  grow-old :
      (x : List Text) (n : ℕ) (e : Entry) (past : List Entry)
      → Stands x n past
      → Stands x n (grow e past)
  grow-old x n e past h = elim (settle-old x n e past h) [
    | inl s ↦ Stands-before x n (settle o e past).0 _ s
    | inr s ↦ Stands-after x n (settle o e past).0 _ (inl s)
  ]

  near_loop-old :
      (x : List Text) (n : ℕ) (past : List Entry) (us : Units)
      → Stands x n past
      → Stands x n (near_loop o past us).0
  unfolding near_loop
  near_loop-old x n past [] h = h
  near_loop-old x n past (u ∷ us) h =
      near_loop-old x n (grow (entry_of o u) past) us (grow-old x n (entry_of o u) past h)

  near_loop-IsSigned :
      (past : List Entry) (us : Units) → All IsSigned past → All IsSigned (near_loop o past us).0
  unfolding near_loop
  near_loop-IsSigned past [] h = h
  near_loop-IsSigned past (u ∷ us) h =
      near_loop-IsSigned (grow (entry_of o u) past) us (grow-IsSigned u past h)

  near_loop-new :
      (past : List Entry) (us : Units)
      → All (λ u. Stands (figures u) u.token_estimate (near_loop o past us).0) us
  unfolding near_loop entry_of
  near_loop-new past [] = tt
  near_loop-new past (u ∷ us) = (
    near_loop-old (figures u) u.token_estimate (grow (entry_of o u) past) us
        (grow-new (entry_of o u) past),
    near_loop-new (grow (entry_of o u) past) us,
  )

  Stands→Survives :
      (x : List Text) (n : ℕ) (es : List Entry)
      → All IsSigned es
      → Stands x n es
      → Survives x n (kept_units o es)
  unfolding kept_units
  Stands→Survives x n [] g h = absurd h
  Stands→Survives x n (e ∷ es) g (inl (k, same, le)) =
      rw k (inl (subst (SameFigures x) g.0 same, le))
  Stands→Survives x n (e ∷ es) g (inr h) = elim (Bool-cases e.kept) [
    | inl k ↦ rw k (inr (Stands→Survives x n es g.1 h))
    | inr d ↦ rw d (Stands→Survives x n es g.1 h)
  ]

  Stands→Survives-All :
      (es : List Entry) (us : Units)
      → All IsSigned es
      → All (λ u. Stands (figures u) u.token_estimate es) us
      → All (λ u. Survives (figures u) u.token_estimate (kept_units o es)) us
  Stands→Survives-All es [] g h = tt
  Stands→Survives-All es (u ∷ us) g h =
      (Stands→Survives (figures u) u.token_estimate es g h.0, Stands→Survives-All es us g h.1)

-- Dropping near duplicates loses no figures: for each unit that goes in, a unit with the same set
-- of figures, and with at least as many tokens, comes out.
pub drop_near_duplicates-Survives :
    (o : ContextOptimizer) (us : Units)
    → All
        (λ u.
          Survives o
            (numeric_signature o.lib u.text)
            u.token_estimate
            (drop_near_duplicates o us).0)
        us
unfolding drop_near_duplicates
drop_near_duplicates-Survives o us =
    Stands→Survives-All o (near_loop o [] us).0 us (near_loop-IsSigned o [] us tt)
      (near_loop-new o [] us)
