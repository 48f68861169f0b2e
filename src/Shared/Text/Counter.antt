-- ===== src/Shared/Text/Counter.antt =====
-- The heuristic token counter (shared/text.py): 3.6 characters or 1/1.32 words for a token, as the
-- exact fractions 18/5 and 33/25.
use leanlm.Common.{
  suc, ◌++◌, [], ◌∷◌, ◌≡◌, length-append, ℕ, ◌+◌, ◌-◌, ◌*◌, ◌/◌, ◌≤◌, max, arith, length, is_empty,
  if◌then◌else◌,
}
use leanlm.Shared.Text.{Text, TextLibrary}

-- `math.ceil(n / d)`.
abbrev pub ceil_div : ℕ → ℕ → ℕ
ceil_div n d = (n + (d - 1)) / d

-- The two estimates over the one denominator 450: 5·25·len and 33·18·words.
unfoldable pub estimate : ℕ → ℕ → ℕ
estimate chars words = max 1 (max (ceil_div (5 * chars) 18) (ceil_div (33 * words) 25))

unfoldable pub count : TextLibrary → Text → ℕ
unfolding estimate
count lib text =
    if is_empty text then 0 else estimate (length text) (length (lib.split_whitespace text))

-- The estimate of a joined text is at most one more than the sum of the estimates, when it has one
-- character more and as many words.
pub estimate-joined : (a b v w : ℕ) → estimate (a + 1 + b) (v + w) ≤ estimate a v + estimate b w + 1
unfolding estimate
estimate-joined a b v w = ground arith

estimate-one : (a w : ℕ) → estimate (a + 1) w ≤ estimate a w + 1
unfolding estimate
estimate-one a w = ground arith

-- What `str.split` does with a line break between two texts: the words are those of the two.
pub record SplitsLines (lib : TextLibrary) : Type 0 where
  pub none_in_empty : length (lib.split_whitespace []) ≡ 0
  pub of_both :
      (a b : Text)
      → length (lib.split_whitespace (a ++ 10 ∷ b))
        ≡ length (lib.split_whitespace a) + length (lib.split_whitespace b)

-- The heuristic counter counts at most one token more for two texts joined by a line break than
-- for the two.
pub count-joined :
    (lib : TextLibrary) (a b : Text)
    → SplitsLines lib
    → count lib (a ++ 10 ∷ b) ≤ count lib a + count lib b + 1
unfolding count
count-joined lib [] [] s =
    let w : length (lib.split_whitespace (10 ∷ [])) ≡ 0 =
      omega (arith, s.of_both [] [], s.none_in_empty) in
    rw (w, estimate) (omega arith)
count-joined lib [] (y ∷ b) s =
    let w : length (lib.split_whitespace (10 ∷ y ∷ b)) ≡ length (lib.split_whitespace (y ∷ b)) =
      omega (arith, s.of_both [] (y ∷ b), s.none_in_empty) in
    rw w (omega (arith, estimate-one (length (y ∷ b)) (length (lib.split_whitespace (y ∷ b)))))
count-joined lib (x ∷ a) [] s =
    let w : length (lib.split_whitespace (x ∷ a ++ 10 ∷ []))
        ≡ length (lib.split_whitespace (x ∷ a)) =
      omega (arith, s.of_both (x ∷ a) [], s.none_in_empty) in
    let l : length (a ++ 10 ∷ []) ≡ length a + 1 = length-append a (10 ∷ []) in
    rw (w, l) (omega (arith, estimate-one (length (x ∷ a)) (length (lib.split_whitespace (x ∷ a)))))
count-joined lib (x ∷ a) (y ∷ b) s =
    let l : suc (length (a ++ 10 ∷ y ∷ b)) ≡ length (x ∷ a) + 1 + length (y ∷ b) =
      omega (arith, length-append a (10 ∷ y ∷ b)) in
    rw (s.of_both (x ∷ a) (y ∷ b), l)
      (estimate-joined (length (x ∷ a)) (length (y ∷ b)) (length (lib.split_whitespace (x ∷ a)))
        (length (lib.split_whitespace (y ∷ b))))
