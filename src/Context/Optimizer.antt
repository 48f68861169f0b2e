-- ===== src/Context/Optimizer.antt =====
-- The context optimizer (packages/context/services.py): noise and duplicates are dropped, adjacent
-- fragments are merged. The token counter, the boilerplate patterns and the digest are parameters.
pub mod Accounting
pub mod Figures
pub mod Merging
use mathlib.Core.Logic.{ite}
use leanlm.Common.{
  ℕ, zero, suc, ◌+◌, String, Bool, true, false, not, ◌&&◌, ◌||◌, Option, none, some, List, [], ◌∷◌,
  ◌++◌, map, ltb, leb, ◌==◌, str_eq, if◌then◌else◌, length, any, all, keep, is_empty, total,
}
use leanlm.Shared.Text.{
  same_path, join_words, Text, codes, same_text, is_member, TextLibrary, content_words, to_set,
  is_subset, Gram, shingles, Ratio, ratio_ge, jaccard,
}
use leanlm.Contracts.Dto.{
  UnitKind, UnitKind-discrete, table, SemanticUnit, ContextPackage, ContextBudget, OptimizedContext,
}

-- `str.replace` of one character by a text.
abbrev pub replace_char : ℕ → Text → Text → Text
replace_char c by [] = []
replace_char c by (x ∷ xs) =
    let rest = replace_char c by xs in if x == c then by ++ rest else x ∷ rest

-- `str.rstrip` of the given characters.
abbrev pub rstrip : List ℕ → Text → Text
rstrip cs [] = []
rstrip cs (x ∷ xs) =
    let rest = rstrip cs xs in if is_empty rest && any (λ c. c == x) cs then [] else x ∷ rest

-- `text.strip(chars)` is not empty.
abbrev pub has_more_than : List ℕ → Text → Bool
has_more_than cs text = not (all (λ x. any (λ c. c == x) cs) text)

abbrev pub normalize_number : Text → Text
normalize_number s = replace_char 44 (codes ".") (rstrip (codes ".,") (replace_char 32 [] s))

unfoldable pub numeric_signature : TextLibrary → Text → List Text
unfolding same_text to_set
numeric_signature lib text =
    to_set same_text
      (map normalize_number (keep (has_more_than (codes " .,")) (lib.find_numbers text)))

-- `==` on sets of texts.
abbrev pub same_set : List Text → List Text → Bool
same_set a b = is_subset same_text a b && is_subset same_text b a

-- The policy, the counter and the functions of the standard library.
pub record ContextOptimizer : Type 0 where
  pub lib : TextLibrary
  pub sha256_text : Text → Text
  pub count : Text → ℕ
  pub boilerplate : List (Text → Bool)
  pub near_duplicate_threshold : Ratio
  pub merge_adjacent_below_tokens : ℕ
  pub drop_below_content_words : ℕ

-- The order of `(len(t), t)`, and `min` by it.
abbrev pub text_less : Text → Text → Bool
text_less [] [] = false
text_less [] (y ∷ ys) = true
text_less (x ∷ xs) [] = false
text_less (x ∷ xs) (y ∷ ys) = ltb x y || x == y && text_less xs ys

abbrev pub is_rarer : Text → Text → Bool
is_rarer a b = ltb (length a) (length b) || length a == length b && text_less a b

abbrev pub rarest : Text → List Text → Text
rarest best [] = best
rarest best (t ∷ ts) = rarest (if is_rarer t best then t else best) ts

abbrev pub bucket_key : List Text → Option Text
bucket_key [] = none
bucket_key (t ∷ ts) = some (rarest t ts)

-- A unit that has been compared: its bucket, its signatures, and whether it is kept.
pub record Entry : Type 0 where
  pub unit : SemanticUnit
  pub key : Option Text
  pub signature : List Gram
  pub numbers : List Text
  pub kept : Bool

unfoldable pub same_key : Option Text → Option Text → Bool
unfolding same_text
same_key (some a) (some b) = same_text a b
same_key _ _ = false

abbrev pub Units : Type 0
Units = List SemanticUnit

module _ (o : ContextOptimizer) where
  unfoldable pub is_noise : SemanticUnit → Bool
  unfolding content_words UnitKind-discrete
  is_noise unit =
      let body = o.lib.strip unit.text in
      any (λ rx. rx body) o.boilerplate
      || ltb (length (content_words o.lib body)) o.drop_below_content_words
        && ite (UnitKind-discrete unit.kind table) false true

  unfoldable pub drop_noise : Units → Units × ℕ
  unfolding is_noise
  drop_noise [] = ([], 0)
  drop_noise (u ∷ us) =
      let (kept, dropped) = drop_noise us in
      if is_noise u then (kept, dropped + 1) else (u ∷ kept, dropped)

  unfoldable pub digest_of : SemanticUnit → Text
  unfolding content_words
  digest_of unit = o.sha256_text (join_words (content_words o.lib unit.text))

  -- `seen` holds the digests of the units before.
  unfoldable pub drop_exact_duplicates : List Text → Units → Units × ℕ
  unfolding digest_of same_text
  drop_exact_duplicates seen [] = ([], 0)
  drop_exact_duplicates seen (u ∷ us) =
      let again = is_member (digest_of u) seen in
      let (kept, dropped) = drop_exact_duplicates (if again then seen else digest_of u ∷ seen) us in
      if again then (kept, dropped + 1) else (u ∷ kept, dropped)

  unfoldable pub entry_of : SemanticUnit → Entry
  unfolding content_words shingles numeric_signature
  entry_of unit = record {
    unit = unit;
    key = bucket_key (content_words o.lib unit.text);
    signature = shingles o.lib unit.text 4;
    numbers = numeric_signature o.lib unit.text;
    kept = true;
  }

  -- The two are in one bucket, the other is still kept, and they carry the same figures in nearly
  -- the same words.
  unfoldable pub is_near : Entry → Entry → Bool
  unfolding same_key jaccard same_text
  is_near e other =
      same_key e.key other.key
      && (other.kept
          && (same_set e.numbers other.numbers
              && ratio_ge (jaccard e.signature other.signature) o.near_duplicate_threshold))

  -- The inner loop over the units before, up to its `break`: what they become, whether the new one
  -- is kept, and how many were dropped.
  unfoldable pub settle : Entry → List Entry → List Entry × Bool × ℕ
  unfolding is_near
  settle e [] = ([], true, 0)
  settle e (other ∷ past) =
      let (rest, stays, dropped) = settle e past in
      if is_near e other
      then if leb e.unit.token_estimate other.unit.token_estimate
        then (other ∷ past, false, 1)
        else (record other { kept = false } ∷ past, true, 1)
      else (other ∷ rest, stays, dropped)

  unfoldable pub near_loop : List Entry → Units → List Entry × ℕ
  unfolding settle entry_of
  near_loop past [] = (past, 0)
  near_loop past (u ∷ us) =
      let (past', stays, dropped) = settle (entry_of u) past in
      let (all_entries, more) = near_loop (past' ++ record (entry_of u) { kept = stays } ∷ []) us in
      (all_entries, dropped + more)

  unfoldable pub kept_units : List Entry → Units
  kept_units [] = []
  kept_units (e ∷ es) = let rest = kept_units es in if e.kept then e.unit ∷ rest else rest

  unfoldable pub drop_near_duplicates : Units → Units × ℕ
  unfolding near_loop kept_units
  drop_near_duplicates us =
      let (entries, dropped) = near_loop [] us in (kept_units entries, dropped)

  unfoldable pub may_merge : SemanticUnit → SemanticUnit → Bool
  unfolding same_path
  may_merge previous unit =
      ltb unit.token_estimate o.merge_adjacent_below_tokens
      && (ltb previous.token_estimate o.merge_adjacent_below_tokens
          && (str_eq previous.document_id unit.document_id
              && same_path previous.section_path unit.section_path))

  unfoldable pub merge : SemanticUnit → SemanticUnit → SemanticUnit
  merge previous unit =
      let text = previous.text ++ 10 ∷ unit.text in
      record previous { text = text; token_estimate = o.count text; char_end = unit.char_end }

  -- The loop once it has a last unit.
  unfoldable pub merge_after : SemanticUnit → Units → Units × ℕ
  unfolding may_merge merge
  merge_after last [] = (last ∷ [], 0)
  merge_after last (u ∷ us) =
      let joined = may_merge last u in
      let (rest, merged) = merge_after (if joined then merge last u else u) us in
      if joined then (rest, merged + 1) else (last ∷ rest, merged)

  unfoldable pub merge_fragments : Units → Units × ℕ
  unfolding merge_after
  merge_fragments [] = ([], 0)
  merge_fragments (u ∷ us) = merge_after u us

  abbrev pub tokens : Units → ℕ
  tokens us = total (λ u. u.token_estimate) us

  -- `operations.append` if the number is not zero.
  abbrev pub note : String → ℕ → List (String × ℕ)
  note name n = if n == 0 then [] else (name, n) ∷ []

  unfoldable pub optimize : ContextPackage → ContextBudget → OptimizedContext
  unfolding drop_noise drop_exact_duplicates drop_near_duplicates merge_fragments
  optimize loaded budget =
      let (clean, noise) = drop_noise loaded.units in
      let (single, exact) = drop_exact_duplicates [] clean in
      let (distinct, near) = drop_near_duplicates single in
      let (result, merged) = merge_fragments distinct in
      record {
        units = result;
        budget = some budget;
        input_tokens = tokens loaded.units;
        output_tokens = tokens result;
        dropped_units = noise + exact + near;
        merged_units = merged;
        duplicate_units = exact + near;
        operations =
            note "drop_boilerplate" noise
            ++ note "drop_exact_duplicates" exact
            ++ note "drop_near_duplicates" near
            ++ note "merge_adjacent" merged;
      }
