-- ===== src/Understanding/Segmenter/Splitting.antt =====
-- The pieces of an oversized block (packages/understanding/services.py).
use leanlm.Common.{
  ℕ, ◌+◌, ◌≤◌, ◌≡◌, refl, sym, ap, subst, map, ◌⊎◌, inl, inr, Bool, true, false, not, ◌&&◌, List,
  [], ◌∷◌, ◌++◌, arith, append_assoc, append-nil, length, ltb, is_empty, if◌then◌else◌, total,
  total-append, All,
}
use leanlm.Shared.Text.{Text, sentences, join_words}
use leanlm.Understanding.Segmenter.{Segmenter, groups, split_oversized}

-- The lists one behind the other.
abbrev pub joined {ℓ} : {A : Type ℓ} → List (List A) → List A
joined [] = []
joined (xs ∷ xss) = xs ++ joined xss

module _ (s : Segmenter) where
  -- A piece has a sentence, and more than one only within the target.
  pub record Fits (piece : List Text) : Type 0 where
    pub occupied : is_empty piece ≡ false
    pub small : (length piece ≡ 1) ⊎ (total s.count piece ≤ s.policy.target_tokens)

  snoc_occupied : (xs : List Text) (x : Text) → is_empty (xs ++ x ∷ []) ≡ false
  snoc_occupied [] x = refl
  snoc_occupied (y ∷ xs) x = refl

  -- What is open: nothing, or a piece.
  abbrev Opened : List Text → Type 0
  Opened current = (is_empty current ≡ true) ⊎ Fits current

  extended :
      (current : List Text) (x : Text)
      → Opened current
      → (not (is_empty current) && ltb s.policy.target_tokens (total s.count current + s.count x))
        ≡ false
      → Opened (current ++ x ∷ [])
  extended [] x open_piece roomy = inr (record { occupied = refl; small = inl refl })
  extended (y ∷ ys) x open_piece roomy = inr (record {
    occupied = refl;
    small = inr (ground (arith, roomy, total-append s.count (y ∷ ys) (x ∷ [])));
  })

  abbrev Splits : List Text → List (List Text) → Type 0
  Splits given pieces = (joined pieces ≡ given) × All Fits pieces

  -- Closing what is open.
  closed :
      (current : List Text)
      → Opened current
      → Splits current (if is_empty current then [] else current ∷ [])
  closed [] h = (refl, tt)
  closed (x ∷ xs) (inl e) = cc e
  closed (x ∷ xs) (inr f) = (append-nil (x ∷ xs), (f, tt))

  -- Both ways of taking a sentence in.
  taken :
      (full : Bool) (current : List Text) (used : ℕ) (x : Text) (rest given : List Text)
      → (full ≡ true → Splits given (current ∷ groups s (x ∷ []) (s.count x) rest))
      → (full ≡ false → Splits given (groups s (current ++ x ∷ []) (used + s.count x) rest))
      → Splits given (
          let more =
            groups s
              (if full then x ∷ [] else current ++ x ∷ [])
              (if full then s.count x else used + s.count x)
              rest in
          if full then current ∷ more else more)
  taken true current used x rest given ht hf = ht refl
  taken false current used x rest given ht hf = hf refl

  is_full : (current : List Text) → Opened current → not (is_empty current) ≡ true → Fits current
  is_full [] h e = cc e
  is_full (y ∷ ys) (inl e) f = cc e
  is_full (y ∷ ys) (inr f) e = f

  groups-Splits :
      (current : List Text) (used : ℕ) (rest : List Text)
      → used ≡ total s.count current
      → Opened current
      → Splits (current ++ rest) (groups s current used rest)
  unfolding groups
  groups-Splits current used [] sum h =
      subst (λ given. Splits given (groups s current used [])) (sym (append-nil current))
        (closed current h)
  groups-Splits current used (x ∷ rest) sum h =
      let full = not (is_empty current) && ltb s.policy.target_tokens (used + s.count x) in
      taken full current used x rest (current ++ x ∷ rest)
        (λ e.
          let (whole, fit) =
            groups-Splits (x ∷ []) (s.count x) rest (omega arith)
              (inr (record { occupied = refl; small = inl refl })) in
          (ap (λ given. current ++ given) whole, (is_full current h (ground (arith, e)), fit)))
        (λ e.
          subst (λ given. Splits given (groups s (current ++ x ∷ []) (used + s.count x) rest))
            (append_assoc current (x ∷ []) rest)
            (groups-Splits (current ++ x ∷ []) (used + s.count x) rest
              (omega (arith, sum, total-append s.count current (x ∷ [])))
              (extended current x h (
                subst
                  (λ n.
                    (not (is_empty current) && ltb s.policy.target_tokens (n + s.count x)) ≡ false)
                  sum e))))

  nil_map : (xss : List (List Text)) → is_empty (map join_words xss) ≡ is_empty xss
  nil_map [] = refl
  nil_map (xs ∷ xss) = refl

-- `_split_oversized` cuts a text without losing, repeating or reordering a sentence: its pieces are
-- the texts of groups of sentences that are, one behind the other, its sentences; no group is
-- empty, and a group of more than one sentence stays within the target by the counter's estimates.
-- A text without sentences is kept whole.
pub split_oversized-Splits :
    (s : Segmenter) (text : Text)
    → (pieces : List (List Text)) × (split_oversized s text
        ≡ (if is_empty pieces then text ∷ [] else map join_words pieces))
      × (joined pieces ≡ sentences s.lib text)
      × All (Fits s) pieces
unfolding split_oversized
split_oversized-Splits s text =
    let pieces = groups s [] 0 (sentences s.lib text) in
    let split = groups-Splits s [] 0 (sentences s.lib text) refl (inl refl) in
    (
      pieces,
      ap (λ b. if b then text ∷ [] else map join_words pieces) (nil_map s pieces),
      split.0,
      split.1,
    )
