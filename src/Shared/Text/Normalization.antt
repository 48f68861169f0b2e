-- ===== src/Shared/Text/Normalization.antt =====
-- Minimal normalization (`normalize_text` in shared/text.py, with its patterns). The Unicode
-- composition and `str.isspace` are the standard library's, so they are arguments; the character
-- classes of the three patterns are written out.
pub mod Cleanliness
use leanlm.Common.{
  ℕ, ◌+◌, Bool, true, false, ◌&&◌, ◌||◌, List, [], ◌∷◌, ◌++◌, map, leb, ◌==◌, if◌then◌else◌, keep,
  not,
}
use leanlm.Shared.Text.{Text, join_with}

-- `text.replace("\r\n", "\n").replace("\r", "\n")`
unfoldable pub unify_lines : Text → Text
unify_lines [] = []
unify_lines (c ∷ []) = (if c == 13 then 10 else c) ∷ []
unify_lines (c ∷ d ∷ cs) =
    let rest = unify_lines (d ∷ cs) in
    let after = unify_lines cs in
    if c == 13 then (if d == 10 then 10 ∷ after else 10 ∷ rest) else c ∷ rest

-- A no-break space becomes a space, and a byte-order mark disappears.
unfoldable pub replace_marks : Text → Text
replace_marks [] = []
replace_marks (c ∷ cs) =
    let rest = replace_marks cs in
    if c == 0xa0 then 32 ∷ rest else if c == 0xfeff then rest else c ∷ rest

-- `_CONTROL`: `[\x00-\x08\x0e-\x1f\x7f]`
abbrev pub is_control : ℕ → Bool
is_control c = leb c 8 || (leb 14 c && leb c 31 || c == 127)

-- `_WS`: `[ \t\x0b\f\r]+`
abbrev pub is_blank : ℕ → Bool
is_blank c = c == 32 || (c == 9 || (c == 11 || (c == 12 || c == 13)))

-- `_WS.sub(" ", line)`; the test is whether a run has been replaced already.
unfoldable pub collapse_from : Bool → Text → Text
collapse_from inside [] = []
collapse_from inside (c ∷ cs) =
    let within = collapse_from true cs in
    let outside = collapse_from false cs in
    if is_blank c then (if inside then within else 32 ∷ within) else c ∷ outside

-- `text.split("\n")`; the first line is begun.
unfoldable pub lines_from : Text → Text → List Text
lines_from begun [] = begun ∷ []
lines_from begun (c ∷ cs) =
    let fresh = lines_from [] cs in
    let longer = lines_from (begun ++ c ∷ []) cs in if c == 10 then begun ∷ fresh else longer

-- `_MULTI_NL.sub("\n\n", text)`, with the number of line breaks just written.
unfoldable pub squeeze_from : ℕ → Text → Text
squeeze_from seen [] = []
squeeze_from seen (c ∷ cs) =
    let more = squeeze_from (seen + 1) cs in
    let other = squeeze_from 0 cs in
    if c == 10 then (if leb 2 seen then more else 10 ∷ more) else c ∷ other

module _ (is_space : ℕ → Bool) where
  unfoldable pub lstrip : Text → Text
  lstrip [] = []
  lstrip (c ∷ cs) = let rest = lstrip cs in if is_space c then rest else c ∷ cs

  unfoldable pub rstrip : Text → Text
  rstrip [] = []
  rstrip (c ∷ cs) = elim (rstrip cs) [
    | [] ↦ if is_space c then [] else c ∷ []
    | d ∷ ds ↦ c ∷ d ∷ ds
  ]

  unfoldable pub clean_line : Text → Text
  unfolding collapse_from rstrip
  clean_line line = rstrip (collapse_from false line)

  -- The lines, cleaned and joined again.
  unfoldable pub rejoin_lines : Text → Text
  unfolding lines_from clean_line
  rejoin_lines text = join_with (10 ∷ []) (map clean_line (lines_from [] text))

  unfoldable pub normalize_text : (Text → Text) → Text → Text
  unfolding unify_lines replace_marks rejoin_lines squeeze_from lstrip rstrip
  normalize_text nfc raw =
      let unified = replace_marks (unify_lines (nfc raw)) in
      let printable = keep (λ c. not (is_control c)) unified in
      lstrip (rstrip (squeeze_from 0 (rejoin_lines printable)))
