-- ===== src/Shared/Text/Normalization/Cleanliness.antt =====
-- What normalization leaves in a text (shared/text.py, `normalize_text`).
use leanlm.Common.{ℕ, ◌+◌, Bool, true, ◌&&◌, ◌||◌, [], ◌∷◌, leb, ltb, ◌==◌, if◌then◌else◌, not}
use leanlm.Shared.Text.{Text}
use leanlm.Shared.Text.Normalization.{is_control}

-- A line break, or a visible character other than the two marks, or the space.
abbrev pub is_plain : ℕ → Bool
is_plain c = c == 10 || (leb 32 c && (not (c == 127) && (not (c == 0xa0) && not (c == 0xfeff))))

-- No run of `d` in the text is longer than `k`; `seen` of them come before the text.
abbrev pub runs_within : ℕ → ℕ → ℕ → Text → Bool
runs_within d k seen [] = true
runs_within d k seen (c ∷ cs) =
    let longer = runs_within d k (seen + 1) cs in
    let other = runs_within d k 0 cs in if c == d then ltb seen k && longer else other

-- The text does not begin with a character that `is_space` accepts.
abbrev pub starts_visibly : (ℕ → Bool) → Text → Bool
starts_visibly is_space [] = true
starts_visibly is_space (c ∷ cs) = not (is_space c)

abbrev no_return : ℕ → Bool
no_return c = not (c == 13)

abbrev unmarked : ℕ → Bool
unmarked c = not (c == 13) && (not (c == 0xa0) && not (c == 0xfeff))

abbrev printable : ℕ → Bool
printable c = unmarked c && not (is_control c)
