-- ===== src/Retrieval/Index.antt =====
-- The BM25 index (packages/retrieval/services.py, `BM25Index`, and policies.py). Scores are exact
-- fractions; the logarithm is a parameter. `1 - b` stops at zero.
use leanlm.Common.{
  ℕ, ◌+◌, ◌-◌, ◌*◌, leb, ◌==◌, Bool, true, not, ◌&&◌, List, [], ◌∷◌, ◌++◌, map, keep, length, total,
  is_empty, if◌then◌else◌,
}
use leanlm.Shared.Text.{
  Text, TextLibrary, content_words, same_text, is_member, to_set, take, Ratio, ratio_add, ratio_mul,
}
use leanlm.Contracts.Dto.{SemanticUnit}

pub record RetrievalPolicy : Type 0 where
  pub bm25_k1 : Ratio
  pub bm25_b : Ratio
  pub candidate_pool : ℕ
  pub section_match_boost : Ratio
  pub title_match_boost : Ratio
  pub table_boost : Ratio
  pub exact_phrase_boost : Ratio
  pub numeric_question_boost : Ratio
  pub diversity_lambda : Ratio
  pub max_per_document : ℕ
  pub min_score : Ratio
  pub relative_score_floor : Ratio
  pub unsupported_term_ratio : Ratio

abbrev pub zero_ratio : Ratio
zero_ratio = record { num = 0; den = 1 }

abbrev pub one_ratio : Ratio
one_ratio = record { num = 1; den = 1 }

abbrev ratio_sub : Ratio → Ratio → Ratio
ratio_sub a b = record { num = a.num * b.den - b.num * a.den; den = a.den * b.den }

abbrev ratio_div : Ratio → Ratio → Ratio
ratio_div a b = record { num = a.num * b.den; den = a.den * b.num }

abbrev whole : ℕ → Ratio
whole n = record { num = n; den = 1 }

-- `_PREFIX`
abbrev pub prefix_length : ℕ
prefix_length = 7

pub record Bm25Index : Type 0 where
  pub tokens : List (List Text)
  pub avg_length : Ratio
  pub vocabulary : List Text
  pub prefixes : List Text

abbrev all_terms : TextLibrary → List SemanticUnit → List Text
all_terms lib [] = []
all_terms lib (u ∷ us) = content_words lib u.text ++ all_terms lib us

abbrev path_terms : TextLibrary → List Text → List Text
path_terms lib [] = []
path_terms lib (part ∷ parts) = content_words lib part ++ path_terms lib parts

abbrev section_terms : TextLibrary → List SemanticUnit → List Text
section_terms lib [] = []
section_terms lib (u ∷ us) = path_terms lib u.section_path ++ section_terms lib us

unfoldable pub build_index : TextLibrary → List SemanticUnit → Bm25Index
unfolding content_words to_set same_text
build_index lib units =
    let tokens = map (λ (u : SemanticUnit). content_words lib u.text) units in
    let vocabulary = to_set same_text (all_terms lib units ++ section_terms lib units) in
    record {
      tokens = tokens;
      avg_length =
          if is_empty units
          then zero_ratio
          else record { num = total length tokens; den = length units };
      vocabulary = vocabulary;
      prefixes =
          to_set same_text
            (map (take prefix_length) (keep (λ t. leb prefix_length (length t)) vocabulary));
    }

-- `self._freqs[index].get(term, 0)`
unfoldable pub frequency : Text → List Text → ℕ
unfolding same_text
frequency term tokens = length (keep (same_text term) tokens)

-- `self._doc_freq.get(term, 0)`
unfoldable pub document_frequency : Text → Bm25Index → ℕ
unfolding same_text
document_frequency term index = length (keep (is_member term) index.tokens)

-- `(n - df + 0.5) / (df + 0.5)` is `(2 (n - df) + 1) / (2 df + 1)`.
unfoldable pub idf : (Ratio → Ratio) → Text → Bm25Index → Ratio
unfolding document_frequency
idf log term index =
    let df = document_frequency term index in
    if df == 0
    then zero_ratio
    else log (record { num = 2 * df + 1 + (2 * (length index.tokens - df) + 1); den = 2 * df + 1 })

unfoldable pub is_supported : Bm25Index → Text → Bool
unfolding same_text
is_supported index term =
    if is_member term index.vocabulary
    then true
    else leb prefix_length (length term) && is_member (take prefix_length term) index.prefixes

unfoldable pub unsupported_terms : Bm25Index → List Text → List Text
unfolding to_set is_supported same_text
unsupported_terms index query_terms =
    keep (λ t. not (is_supported index t)) (to_set same_text query_terms)

-- What one term adds to the score of a unit with these tokens.
unfoldable pub term_score : RetrievalPolicy → (Ratio → Ratio) → Bm25Index → List Text → Text → Ratio
unfolding idf frequency
term_score p log index tokens term =
    let weight = idf log term index in
    let freq = whole (frequency term tokens) in
    let norm =
      ratio_add (ratio_sub one_ratio p.bm25_b)
        (ratio_mul p.bm25_b (ratio_div (whole (length tokens)) index.avg_length)) in
    if weight.num == 0
    then zero_ratio
    else if freq.num == 0
    then zero_ratio
    else ratio_div (ratio_mul weight (ratio_mul freq (ratio_add p.bm25_k1 one_ratio)))
        (ratio_add freq (ratio_mul p.bm25_k1 norm))

abbrev sum_scores : (Text → Ratio) → List Text → Ratio
sum_scores f [] = zero_ratio
sum_scores f (t ∷ ts) = ratio_add (f t) (sum_scores f ts)

-- The scores of all units: the loops over the terms and over the units are exchanged.
unfoldable pub score : RetrievalPolicy → (Ratio → Ratio) → Bm25Index → List Text → List Ratio
unfolding term_score to_set same_text
score p log index query_terms =
    map
      (λ tokens.
        if is_empty query_terms
        then zero_ratio
        else if index.avg_length.num == 0
        then zero_ratio
        else sum_scores (term_score p log index tokens) (to_set same_text query_terms))
      index.tokens
