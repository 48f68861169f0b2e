-- ===== src/Shared/Text.antt =====
-- Text and token accounting (shared/text.py). A text is the list of its code points, so `length`
-- is Python's `len`. Regular expressions, Unicode tables and `str.lower` are the standard
-- library's: they are the fields of `TextLibrary`. Fractions stand for floating-point numbers, so
-- the rounding of a division is not modelled.
pub mod Stopwords
pub mod Counter
pub mod Truncation
pub mod Normalization
use Prim.Native.Char.{code}
use leanlm.Common.{
  ℕ, zero, suc, ◌+◌, ◌-◌, ◌*◌, ◌/◌, ◌≤◌, max, String, Bool, true, false, not, ◌&&◌, ◌||◌, List, [],
  ◌∷◌, ◌++◌, map, ltb, leb, ◌==◌, if◌then◌else◌, length, drop, any, keep, is_empty, Option, none,
  some,
}
use Stopwords.{stopwords}

abbrev pub Text : Type 0
Text = List ℕ

abbrev pub codes : String → Text
codes String.[] = []
codes (String.◌∷◌ c s) = code c ∷ codes s

unfoldable pub same_text : Text → Text → Bool
same_text [] [] = true
same_text (x ∷ xs) (y ∷ ys) = x == y && same_text xs ys
same_text _ _ = false

abbrev pub is_member : Text → List Text → Bool
is_member w ws = any (same_text w) ws

-- What the module takes from `re`, `unicodedata` and `str`.
pub record TextLibrary : Type 0 where
  pub lower : Text → Text
  pub sub_elision : Text → Text
  pub nfd : Text → Text
  pub nfc : Text → Text
  pub is_combining : ℕ → Bool
  pub find_words : Text → List Text
  pub split_sentences : Text → List Text
  pub split_whitespace : Text → List Text
  pub strip : Text → Text
  pub find_numbers : Text → List Text

-- `text.startswith(prefix)`
abbrev pub starts_with : Text → Text → Bool
starts_with text [] = true
starts_with [] (p ∷ ps) = false
starts_with (x ∷ xs) (p ∷ ps) = x == p && starts_with xs ps

-- `part in text`
unfoldable pub contains : Text → Text → Bool
contains [] part = is_empty part
contains (c ∷ cs) part = starts_with (c ∷ cs) part || contains cs part

unfoldable pub ends_with : Text → Text → Bool
unfolding same_text
ends_with word suffix =
    leb (length suffix) (length word) && same_text (drop (length word - length suffix) word) suffix

abbrev pub take : ℕ → Text → Text
take zero xs = []
take (suc n) [] = []
take (suc n) (x ∷ xs) = x ∷ take n xs

-- Equality of tuples of texts, such as section paths.
unfoldable pub same_path : List Text → List Text → Bool
unfolding same_text
same_path [] [] = true
same_path (x ∷ xs) (y ∷ ys) = same_text x y && same_path xs ys
same_path _ _ = false

-- `sep.join`
abbrev pub join_with : Text → List Text → Text
join_with sep [] = []
join_with sep (w ∷ []) = w
join_with sep (w ∷ ws) = w ++ (sep ++ join_with sep ws)

-- `" ".join`
abbrev pub join_words : List Text → Text
join_words [] = []
join_words (w ∷ []) = w
join_words (w ∷ ws) = w ++ 32 ∷ join_words ws

abbrev enclitics : List Text
enclitics =
    codes "-t-il"
    ∷ codes "-t-elle"
    ∷ codes "-t-on"
    ∷ codes "-il"
    ∷ codes "-elle"
    ∷ codes "-on"
    ∷ codes "-ils"
    ∷ codes "-elles"
    ∷ codes "-je"
    ∷ codes "-nous"
    ∷ codes "-vous"
    ∷ []

-- The first enclitic that the word ends with is cut off, if more than two letters stay.
unfoldable pub strip_enclitic : List Text → Text → Text
unfolding ends_with
strip_enclitic [] word = word
strip_enclitic (e ∷ es) word =
    let rest = strip_enclitic es word in
    if ends_with word e && ltb (length e + 2) (length word)
    then take (length word - length e) word
    else rest

unfoldable pub is_stopword : Text → Bool
is_stopword word = any (λ s. same_text (codes s) word) stopwords

module _ (lib : TextLibrary) where
  unfoldable pub fold_accents : Text → Text
  fold_accents text = lib.nfc (keep (λ c. not (lib.is_combining c)) (lib.nfd text))

  unfoldable pub words : Text → List Text
  unfolding fold_accents
  words text = lib.find_words (fold_accents (lib.sub_elision (lib.lower text)))

  unfoldable pub content_words : Text → List Text
  unfolding words strip_enclitic is_stopword
  content_words text =
      keep (λ w. not (is_stopword w) && ltb 1 (length w))
        (map (strip_enclitic enclitics) (words text))

  unfoldable pub sentences : Text → List Text
  sentences text = keep (λ s. not (is_empty s)) (map lib.strip (lib.split_sentences text))

-- Sets are lists without repetition, in the order of first occurrence.
module _ {A : Type 0} (same : A → A → Bool) where
  unfoldable pub to_set : List A → List A
  to_set [] = []
  to_set (x ∷ xs) = x ∷ keep (λ y. not (same x y)) (to_set xs)

  -- `a & b`
  unfoldable pub intersection : List A → List A → List A
  intersection a b = keep (λ x. any (same x) b) a

  -- `a <= b`
  abbrev pub is_subset : List A → List A → Bool
  is_subset [] b = true
  is_subset (x ∷ xs) b = any (same x) b && is_subset xs b

-- A word n-gram.
abbrev pub Gram : Type 0
Gram = List Text

unfoldable pub same_gram : Gram → Gram → Bool
unfolding same_text
same_gram [] [] = true
same_gram (x ∷ xs) (y ∷ ys) = same_text x y && same_gram xs ys
same_gram _ _ = false

abbrev pub take_words : ℕ → List Text → List Text
take_words zero xs = []
take_words (suc n) [] = []
take_words (suc n) (x ∷ xs) = x ∷ take_words n xs

-- `tuple(tokens[i:i + size])` for `i` below `count`.
unfoldable pub windows : ℕ → ℕ → List Text → List Gram
windows zero size tokens = []
windows (suc count) size tokens = take_words size tokens ∷ windows count size (drop 1 tokens)

unfoldable pub shingles : TextLibrary → Text → ℕ → List Gram
unfolding windows to_set same_gram content_words
shingles lib text size =
    let tokens = content_words lib text in
    if ltb (length tokens) size
    then if is_empty tokens then [] else tokens ∷ []
    else to_set same_gram (windows (length tokens + 1 - size) size tokens)

-- A fraction; the denominator is not zero where one is made.
pub record Ratio : Type 0 where
  pub num : ℕ
  pub den : ℕ

abbrev pub ratio_ge : Ratio → Ratio → Bool
ratio_ge a b = leb (b.num * a.den) (a.num * b.den)

abbrev pub ratio_gt : Ratio → Ratio → Bool
ratio_gt a b = ltb (b.num * a.den) (a.num * b.den)

abbrev pub ratio_add : Ratio → Ratio → Ratio
ratio_add a b = record { num = a.num * b.den + b.num * a.den; den = a.den * b.den }

abbrev pub ratio_mul : Ratio → Ratio → Ratio
ratio_mul a b = record { num = a.num * b.num; den = a.den * b.den }

unfoldable pub jaccard : List Gram → List Gram → Ratio
unfolding to_set intersection same_gram
jaccard left right =
    let a = to_set same_gram left in
    let b = to_set same_gram right in
    if is_empty a && is_empty b
    then record { num = 1; den = 1 }
    else if is_empty a || is_empty b
    then record { num = 0; den = 1 }
    else let common = length (intersection same_gram a b) in
      record { num = common; den = length a + length b - common }
