-- ===== src/Scenarios/Documents.antt =====
-- A small library of text functions, an optimizer that uses it, and two passages of a document.
use leanlm.Common.{
  true, is_empty, length-append, ◌⊎◌, ℕ, ◌+◌, ◌*◌, ◌≤◌, ◌≡◌, refl, Bool, false, not, ◌||◌, List, [],
  ◌∷◌, ◌++◌, map, arith, ◌==◌, ltb, ◌&&◌, length, keep, All, if◌then◌else◌,
}
use leanlm.Shared.Text.{sentences, Text, codes, TextLibrary}
use leanlm.Shared.Text.Truncation.{fit, truncate_to_tokens, truncate_to_tokens_within}
use leanlm.Shared.Text.Counter.{count, SplitsLines, count-joined}
use leanlm.Contracts.Dto.{UnitKind, SemanticUnit, ContextPackage, ContextBudget}
use leanlm.Context.Optimizer.{
  ContextOptimizer, Units, numeric_signature, drop_near_duplicates, merge_fragments, optimize,
}
use leanlm.Context.Optimizer.Figures.{Survives, drop_near_duplicates-Survives}
use leanlm.Context.Optimizer.Merging.{lines, GrowsBy, merge_fragments-lines, optimize-tokens}

abbrev is_space : ℕ → Bool
is_space c = c == 32 || c == 10

abbrev is_digit : ℕ → Bool
is_digit c = ltb 47 c && ltb c 58

abbrev single : ℕ → Text
single c = c ∷ []

-- The pieces between spaces; the first one is begun.
abbrev pub split_on : Text → Text → List Text
split_on begun [] = begun ∷ []
split_on begun (c ∷ cs) =
    let rest = split_on (if is_space c then [] else begun ++ c ∷ []) cs in
    if is_space c then begun ∷ rest else rest

-- Every letter counts as a word here, and every digit as a number.
abbrev pub letters : Text → List Text
letters t = map single (keep (λ c. not (is_space c)) t)

abbrev pub small_library : TextLibrary
small_library = record {
  lower = λ t. t;
  sub_elision = λ t. t;
  nfd = λ t. t;
  nfc = λ t. t;
  is_combining = λ c. false;
  find_words = split_on [];
  split_sentences = λ t. t ∷ [];
  split_whitespace = letters;
  strip = λ t. t;
  find_numbers = λ t. map single (keep is_digit t);
}

pub letters-append :
    (a b : Text) → length (letters (a ++ 10 ∷ b)) ≡ length (letters a) + length (letters b)
letters-append [] b = omega arith
letters-append (x ∷ a) b = ground (arith, letters-append a b)

small_library-SplitsLines : SplitsLines small_library
small_library-SplitsLines = record { none_in_empty = refl; of_both = letters-append }

abbrev pub optimizer : ContextOptimizer
optimizer = record {
  lib = small_library;
  sha256_text = λ t. t;
  count = count small_library;
  boilerplate = [];
  near_duplicate_threshold = record { num = 92; den = 100 };
  merge_adjacent_below_tokens = 70;
  drop_below_content_words = 1;
}

abbrev pub passage : Text → SemanticUnit
passage t = record {
  unit_id = "u";
  document_id = "d";
  document_name = "a.txt";
  kind = UnitKind.paragraph;
  text = t;
  section_path = [];
  order = 0;
  char_start = 0;
  char_end = 0;
  token_estimate = count small_library t;
  heading_level = 0;
}

abbrev pub passages : Units
passages =
    passage (codes "remboursement sous 30 jours")
    ∷ passage (codes "remboursement sous 45 jours")
    ∷ []

abbrev pub loaded : ContextPackage
loaded = record {
  units = passages;
  document_ids = "d" ∷ [];
  total_units = 2;
  total_tokens = 40;
  corpus_checksum = "c";
}

abbrev pub budget : ContextBudget
budget = record {
  max_context_tokens = 2048;
  evidence_tokens = 800;
  reserved_output_tokens = 256;
  reserved_prompt_overhead = 160;
  max_passages = 4;
  limiting_factor = "model_context";
}

pub optimizer-GrowsBy : GrowsBy optimizer 1
optimizer-GrowsBy a b = count-joined small_library a b small_library-SplitsLines

optimize-tokens_example :
    (optimize optimizer loaded budget).output_tokens
    ≤ (optimize optimizer loaded budget).input_tokens
      + 1 * (optimize optimizer loaded budget).merged_units
optimize-tokens_example =
    optimize-tokens optimizer 1 loaded budget optimizer-GrowsBy (refl, (refl, tt))

drop_near_duplicates-Survives_example :
    All
      (λ u.
        Survives optimizer
          (numeric_signature small_library u.text)
          u.token_estimate
          (drop_near_duplicates optimizer passages).0)
      passages
drop_near_duplicates-Survives_example = drop_near_duplicates-Survives optimizer passages

merge_fragments-lines_example : lines (merge_fragments optimizer passages).0 ≡ lines passages
merge_fragments-lines_example = merge_fragments-lines optimizer passages

letters_counted : (a b : Text) → length (a ++ 32 ∷ b) ≤ length a + length b + 1
letters_counted a b = omega (arith, length-append a (32 ∷ b))

truncate_to_tokens_within_example :
    (length (truncate_to_tokens small_library length 20 (codes "remboursement sous 30 jours")) ≤ 20)
    ⊎ (is_empty (
          fit small_library length 20 0
            (sentences small_library (codes "remboursement sous 30 jours")))
        ≡ true)
truncate_to_tokens_within_example =
    truncate_to_tokens_within small_library length 20 (codes "remboursement sous 30 jours") refl
      letters_counted
