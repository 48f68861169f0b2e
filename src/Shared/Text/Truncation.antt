-- ===== src/Shared/Text/Truncation.antt =====
-- Truncation to a token budget (shared/text.py). The token counter is any function, as in the
-- source; the position of the last cut is an exact fraction of the length.
use leanlm.Common.{
  ℕ, ◌+◌, ◌*◌, ◌/◌, ◌≤◌, max, ◌≡◌, true, false, Option, none, some, List, [], ◌∷◌, ◌++◌, arith, leb,
  ltb, ◌==◌, if◌then◌else◌, is_empty, length, total, ◌⊎◌, inl, inr, Bool-cases,
}
use leanlm.Shared.Text.{Text, TextLibrary, sentences, take, join_words}

-- What stands before the last space, if there is one.
abbrev before_last_space : Text → Option Text
before_last_space [] = none
before_last_space (c ∷ cs) =
    let rest = before_last_space cs in
    elim rest [ some before ↦ some (c ∷ before) | none ↦ if c == 32 then some [] else none ]

-- `text.rsplit(" ", 1)[0]`
abbrev cut_word : Text → Text
cut_word text = elim (before_last_space text) [ some before ↦ before | none ↦ text ]

module _ (lib : TextLibrary) (count : Text → ℕ) (max_tokens : ℕ) where
  -- The loop over the sentences, up to its `break`.
  unfoldable pub fit : ℕ → List Text → List Text
  fit used [] = []
  fit used (s ∷ ss) =
      let rest = fit (used + (count s + 1)) ss in
      if ltb max_tokens (used + (count s + 1)) then [] else s ∷ rest

  -- The cut by characters, when not even one sentence fits.
  unfoldable pub cut_text : Text → Text
  cut_text text = cut_word (take (max 1 (length text * max_tokens / max 1 (count text))) text)

  unfoldable pub truncate_to_tokens : Text → Text
  unfolding fit cut_text sentences
  truncate_to_tokens text =
      let kept = fit 0 (sentences lib text) in
      if max_tokens == 0
      then []
      else if leb (count text) max_tokens
      then text
      else if is_empty kept
      then cut_text text
      else join_words kept

  fit-total :
      (used : ℕ) (ss : List Text)
      → used ≤ max_tokens
      → used + total (λ s. count s + 1) (fit used ss) ≤ max_tokens
  unfolding fit
  fit-total used [] h = omega arith
  fit-total used (s ∷ ss) h = elim (Bool-cases (ltb max_tokens (used + (count s + 1)))) [
    | inl over ↦ rw over (omega arith)
    | inr fits ↦ rw fits (omega (arith, fit-total (used + (count s + 1)) ss (ground arith)))
  ]

  join_words-total :
      (s : Text) (ss : List Text)
      → ((a b : Text) → count (a ++ 32 ∷ b) ≤ count a + count b + 1)
      → count (join_words (s ∷ ss)) ≤ total (λ s. count s + 1) (s ∷ ss)
  join_words-total s [] joins = omega arith
  join_words-total s (t ∷ ss) joins =
      omega (arith, join_words-total t ss joins, joins s (join_words (t ∷ ss)))

  kept-total :
      (kept : List Text)
      → ((a b : Text) → count (a ++ 32 ∷ b) ≤ count a + count b + 1)
      → is_empty kept ≡ false
      → total (λ s. count s + 1) kept ≤ max_tokens
      → count (join_words kept) ≤ max_tokens
  kept-total [] joins h le = cc
  kept-total (s ∷ ss) joins h le = omega (arith, join_words-total s ss joins)

-- If the counter counts nothing for the empty text, and at most one token more for two texts
-- joined by a space than for the two, a truncated text is within the budget, unless not even the
-- first sentence fits.
pub truncate_to_tokens_within :
    (lib : TextLibrary) (count : Text → ℕ) (max_tokens : ℕ) (text : Text)
    → count [] ≡ 0
    → ((a b : Text) → count (a ++ 32 ∷ b) ≤ count a + count b + 1)
    → (count (truncate_to_tokens lib count max_tokens text) ≤ max_tokens)
      ⊎ (is_empty (fit lib count max_tokens 0 (sentences lib text)) ≡ true)
unfolding truncate_to_tokens
truncate_to_tokens_within lib count max_tokens text empty joins =
    let kept = fit lib count max_tokens 0 (sentences lib text) in
    elim (Bool-cases (is_empty kept)) [
      | inl nothing ↦ inr nothing
      | inr something ↦ inl (
          ground (
            arith,
            kept-total lib count max_tokens kept joins something (
                omega (arith, fit-total lib count max_tokens 0 (sentences lib text) (omega arith))),
          ))
    ]
