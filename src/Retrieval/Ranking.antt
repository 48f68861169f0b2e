-- ===== src/Retrieval/Ranking.antt =====
-- The selection of evidence for a question (packages/retrieval/services.py, `select`): the gate
-- for questions off the topic, the scores, the pool and the labels. Patterns, `str.isdigit` and
-- `round` are parameters.
pub mod Provenance
use leanlm.Common.{
  ℕ, zero, suc, ◌+◌, ◌*◌, leb, ltb, ◌==◌, String, str_append, str_eq, Bool, true, false, not, ◌&&◌,
  ◌||◌, Option, none, some, List, [], ◌∷◌, ◌++◌, map, any, keep, length, is_empty, if◌then◌else◌,
  max, min, ◌-◌,
}
use Prim.Native.String.{compare}
use Prim.Native.Nat.{Ordering}
use mathlib.Core.Logic.{ite}
use leanlm.Shared.Text.{
  Text, codes, TextLibrary, content_words, same_text, is_member, to_set, intersection, contains,
  join_words, windows, Ratio, ratio_add, ratio_mul, ratio_ge, ratio_gt,
}
use leanlm.Contracts.Dto.{
  UnitKind, UnitKind-discrete, table, SemanticUnit, IntentClassification, OptimizedContext,
  ContextBudget, SelectedEvidence,
}
use leanlm.Retrieval.Index.{
  RetrievalPolicy, zero_ratio, one_ratio, Bm25Index, build_index, unsupported_terms, score,
}
use leanlm.Retrieval.Selector.{ScoredUnit, EvidenceSelector, Selection, greedy_diverse_fit}

-- The selector with its policy, and what it takes from the standard library.
pub record Retriever : Type 0 where
  pub policy : RetrievalPolicy
  pub lib : TextLibrary
  pub count : Text → ℕ
  pub log : Ratio → Ratio
  -- `round(x, 9)` and `round(x, 6)`
  pub round_key : Ratio → Ratio
  pub round_score : Ratio → Ratio
  -- `re.split(r"\W+", question)`
  pub split_words : Text → List Text
  -- `_NUMERIC_QUESTION.search`
  pub is_numeric : Text → Bool
  pub is_digit : ℕ → Bool
  pub format : ℕ → String

pub record EvidenceCandidate : Type 0 where
  pub unit : SemanticUnit
  pub score : Ratio
  pub lexical_score : Ratio
  pub structural_boost : Ratio
  pub diversity_penalty : Ratio

abbrev generic_question_terms : List Text
generic_question_terms = map codes (
    "long" ∷ "longer" ∷ "last" ∷ "lasts" ∷ "end" ∷ "ends" ∷ "ended" ∷ "start" ∷ "starts" ∷ "take"
    ∷ "takes" ∷ "taken" ∷ "happen" ∷ "happens" ∷ "occur" ∷ "occurs" ∷ "apply" ∷ "applies" ∷ "cover"
    ∷ "covers" ∷ "mean" ∷ "means" ∷ "case" ∷ "cases" ∷ "duree" ∷ "dure" ∷ "durer" ∷ "passe"
    ∷ "arrive" ∷ "concerne" ∷ "sagit" ∷ [])

unfoldable pub is_generic : Text → Bool
unfolding same_text
is_generic t = is_member t generic_question_terms

-- `ScoredUnit.total`
abbrev pub total_of : ScoredUnit → Ratio
total_of s = ratio_mul s.lexical (ratio_add one_ratio s.boost)

-- `document_name.replace("_", " ")`
abbrev spaced : String → Text
spaced name = map (λ c. if c == 95 then 32 else c) (codes name)

abbrev add_when : Bool → Ratio → Ratio → Ratio
add_when b r sum = if b then ratio_add sum r else sum

-- `min(1.0, overlap * 2.0)` for `found` of `all` terms.
abbrev doubled_share : ℕ → ℕ → Ratio
doubled_share found all =
    if leb all (found * 2) then one_ratio else record { num = found * 2; den = all }

module _ (r : Retriever) where
  unfoldable pub phrases : Text → List Text
  unfolding windows
  phrases question =
      let tokens = keep (λ t. not (is_empty t)) (r.split_words question) in
      if ltb (length tokens) 3
      then []
      else map join_words (windows (length tokens + 1 - 3) 3 tokens)

  unfoldable pub structural_boost : Text → List Text → SemanticUnit → Ratio
  unfolding content_words to_set intersection phrases contains same_text UnitKind-discrete
  structural_boost question query_terms unit =
      let p = r.policy in
      let terms = to_set same_text query_terms in
      let shared =
        intersection same_text
          (to_set same_text (content_words r.lib (join_words unit.section_path))) terms in
      let in_section = not (is_empty unit.section_path) && not (is_empty shared) in
      let in_title =
        not (str_eq unit.document_name "")
        && any (λ w. is_member w terms) (content_words r.lib (spaced unit.document_name)) in
      let asked = phrases (r.lib.lower question) in
      let quoted = any (contains (r.lib.lower unit.text)) asked in
      let section =
        ratio_mul p.section_match_boost (doubled_share (length shared) (max 1 (length terms))) in
      r.round_score (
        add_when (r.is_numeric question && any r.is_digit unit.text) p.numeric_question_boost (
          add_when quoted p.exact_phrase_boost (
            add_when (ite (UnitKind-discrete unit.kind table) true false) p.table_boost
              (add_when in_title p.title_match_boost (add_when in_section section zero_ratio)))))

  -- The sort key: the rounded score downwards, then the identifier upwards.
  unfoldable pub goes_before : ScoredUnit → ScoredUnit → Bool
  goes_before a b =
      let x = r.round_key (total_of a) in
      let y = r.round_key (total_of b) in
      ratio_gt x y
      || ratio_ge x y
        && elim (compare a.unit.unit_id b.unit.unit_id) [ Ordering.lt ↦ true | _ ↦ false ]

  unfoldable pub insert : ScoredUnit → List ScoredUnit → List ScoredUnit
  unfolding goes_before
  insert x [] = x ∷ []
  insert x (y ∷ ys) = let rest = insert x ys in if goes_before y x then y ∷ rest else x ∷ y ∷ ys

  abbrev pub sort_scored : List ScoredUnit → List ScoredUnit
  sort_scored [] = []
  sort_scored (x ∷ xs) = insert x (sort_scored xs)

  -- `[ScoredUnit(i, lexical[i], boosts[i]) for i in range(len(units))]`
  abbrev pub scored_from : Text → List Text → ℕ → List SemanticUnit → List Ratio → List ScoredUnit
  scored_from question terms i [] lexical = []
  scored_from question terms i (u ∷ us) [] = []
  scored_from question terms i (u ∷ us) (s ∷ ss) =
      record { index = i; unit = u; lexical = s; boost = structural_boost question terms u }
      ∷ scored_from question terms (i + 1) us ss

  abbrev pub best_of : List ScoredUnit → Ratio
  best_of [] = zero_ratio
  best_of (s ∷ ss) = total_of s

  abbrev pub take_first : ℕ → List ScoredUnit → List ScoredUnit
  take_first zero xs = []
  take_first (suc n) [] = []
  take_first (suc n) (x ∷ xs) = x ∷ take_first n xs

  unfoldable pub pool_of : List ScoredUnit → List ScoredUnit
  pool_of scored =
      let best = best_of scored in
      let relative = ratio_mul best r.policy.relative_score_floor in
      let floor = if ratio_gt relative r.policy.min_score then relative else r.policy.min_score in
      let pool =
        take_first r.policy.candidate_pool (keep (λ s. ratio_ge (total_of s) floor) scored) in
      if is_empty pool && ratio_gt best r.policy.min_score
      then take_first (min 3 (length scored)) scored
      else pool

  -- The topical terms of the question that the corpus does not know are too many.
  unfoldable pub is_off_topic : List Text → Bm25Index → Bool
  unfolding to_set is_generic unsupported_terms same_text
  is_off_topic query_terms index =
      let topical = keep (λ t. not (is_generic t)) (to_set same_text query_terms) in
      let unsupported = keep (λ t. not (is_generic t)) (unsupported_terms index query_terms) in
      not (is_empty topical)
      && ratio_ge (record { num = length unsupported; den = length topical })
          r.policy.unsupported_term_ratio

  abbrev pub keywords_of : Option IntentClassification → List Text
  keywords_of none = []
  keywords_of (some intent) = intent.keywords

  unfoldable pub rank : Text → List SemanticUnit → Option IntentClassification → List ScoredUnit
  unfolding build_index content_words score structural_boost insert
  rank question units intent =
      let query_terms = content_words r.lib question ++ keywords_of intent in
      sort_scored (
        scored_from question query_terms 0 units
          (score r.policy r.log (build_index r.lib units) query_terms))

  abbrev pub limits : Option ContextBudget → EvidenceSelector
  limits none = record {
    lib = r.lib;
    count = r.count;
    diversity_lambda = r.policy.diversity_lambda;
    max_per_document = r.policy.max_per_document;
    max_tokens = 1024;
    max_passages = 5;
  }
  limits (some b) = record {
    lib = r.lib;
    count = r.count;
    diversity_lambda = r.policy.diversity_lambda;
    max_per_document = r.policy.max_per_document;
    max_tokens = b.evidence_tokens;
    max_passages = b.max_passages;
  }

  -- The passages in the order of choice, with their penalties.
  unfoldable pub chosen_for :
      Text → OptimizedContext → Option IntentClassification → List (ScoredUnit × Ratio)
  unfolding content_words build_index is_off_topic rank pool_of greedy_diverse_fit
  chosen_for question optimized intent =
      let units = optimized.units in
      let query_terms = content_words r.lib question in
      let chosen =
        (greedy_diverse_fit (limits optimized.budget)
          (pool_of (rank question units intent))).chosen in
      if is_empty units
      then []
      else if is_off_topic query_terms (build_index r.lib units)
      then []
      else chosen

  abbrev pub label : ℕ → String
  label n = str_append "S" (r.format n)

  abbrev pub evidence_from : ℕ → List (ScoredUnit × Ratio) → List SelectedEvidence
  evidence_from n [] = []
  evidence_from n ((item, penalty) ∷ rest) =
      let u = item.unit in
      (record {
        label = label n;
        unit_id = u.unit_id;
        document_name = u.document_name;
        section_path = u.section_path;
        text = u.text;
        token_estimate = u.token_estimate;
      })
      ∷ evidence_from (n + 1) rest

  abbrev pub candidates_of : List (ScoredUnit × Ratio) → List EvidenceCandidate
  candidates_of [] = []
  candidates_of ((item, penalty) ∷ rest) =
      (record {
        unit = item.unit;
        score = r.round_score (total_of item);
        lexical_score = r.round_score item.lexical;
        structural_boost = r.round_score item.boost;
        diversity_penalty = r.round_score penalty;
      })
      ∷ candidates_of rest

  unfoldable pub select :
      Text
      → OptimizedContext
      → Option IntentClassification
      → List SelectedEvidence × List EvidenceCandidate
  unfolding chosen_for
  select question optimized intent =
      let chosen = chosen_for question optimized intent in
      (evidence_from 1 chosen, candidates_of chosen)

  -- Before the rounding to four places.
  unfoldable pub retrieval_precision : List SelectedEvidence → Text → Ratio
  unfolding content_words same_text
  retrieval_precision selected question =
      let terms = content_words r.lib question in
      let hits = length (
        keep (λ (e : SelectedEvidence). any (λ w. is_member w terms) (content_words r.lib e.text))
          selected) in
      if is_empty selected
      then zero_ratio
      else if is_empty terms
      then zero_ratio
      else record { num = hits; den = length selected }
