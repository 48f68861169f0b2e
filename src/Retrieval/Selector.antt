-- ===== src/Retrieval/Selector.antt =====
-- The greedy selection of evidence (packages/retrieval/services.py): maximal marginal relevance
-- under a token budget. Scores are exact fractions, and an item of the pool carries the unit that
-- its index stands for. The labels of the selected passages are left out.
pub mod Bounds
pub mod Exhaustion
pub mod Origin
use Prim.Native.String.{compare}
use Prim.Native.Nat.{Ordering}
use leanlm.Common.{
  ℕ, zero, suc, ◌+◌, ◌*◌, String, Bool, true, false, not, ◌&&◌, ◌||◌, Option, none, some, List, [],
  ◌∷◌, ◌++◌, map, ltb, leb, ◌==◌, str_eq, if◌then◌else◌, length, is_empty,
}
use leanlm.Shared.Text.{
  ratio_add, ratio_mul, ratio_gt, Text, TextLibrary, Gram, shingles, Ratio, ratio_ge, jaccard,
}
use leanlm.Contracts.Dto.{SemanticUnit}

abbrev ratio_eq : Ratio → Ratio → Bool
ratio_eq a b = a.num * b.den == b.num * a.den

abbrev ratio_max : Ratio → List Ratio → Ratio
ratio_max best [] = best
ratio_max best (r ∷ rs) = ratio_max (if ratio_gt r best then r else best) rs

pub record ScoredUnit : Type 0 where
  pub index : ℕ
  pub unit : SemanticUnit
  pub lexical : Ratio
  pub boost : Ratio

abbrev score_of : ScoredUnit → Ratio
score_of item = ratio_mul item.lexical (ratio_add (record { num = 1; den = 1 }) item.boost)

-- `==` on scored units.
unfoldable pub same_item : ScoredUnit → ScoredUnit → Bool
same_item a b = a.index == b.index && (ratio_eq a.lexical b.lexical && ratio_eq a.boost b.boost)

-- `Counter`: a missing key counts 0.
unfoldable pub count_of : String → List (String × ℕ) → ℕ
count_of d [] = 0
count_of d ((k, n) ∷ m) = let rest = count_of d m in if str_eq k d then n else rest

unfoldable pub bump : String → List (String × ℕ) → List (String × ℕ)
bump d [] = (d, 1) ∷ []
bump d ((k, n) ∷ m) = let rest = bump d m in if str_eq k d then (k, n + 1) ∷ m else (k, n) ∷ rest

-- `list.remove`: the first equal item.
unfoldable pub remove : ScoredUnit → List ScoredUnit → List ScoredUnit
unfolding same_item
remove x [] = []
remove x (y ∷ ys) = let rest = remove x ys in if same_item x y then ys else y ∷ rest

-- The local variables of the loop.
pub record Selection : Type 0 where
  pub chosen : List (ScoredUnit × Ratio)
  pub chosen_signatures : List (List Gram)
  pub per_document : List (String × ℕ)
  pub used_tokens : ℕ
  pub remaining : List ScoredUnit

-- The policy, the counter and the budget.
pub record EvidenceSelector : Type 0 where
  pub lib : TextLibrary
  pub count : Text → ℕ
  pub diversity_lambda : Ratio
  pub max_per_document : ℕ
  pub max_tokens : ℕ
  pub max_passages : ℕ

module _ (s : EvidenceSelector) where
  -- `unit.token_estimate or self.counter.count(unit.text)`
  unfoldable pub cost_of : SemanticUnit → ℕ
  cost_of unit = if unit.token_estimate == 0 then s.count unit.text else unit.token_estimate

  -- The item passes both `continue` tests.
  unfoldable pub is_eligible : Selection → ScoredUnit → Bool
  unfolding count_of cost_of
  is_eligible st item =
      not (leb s.max_per_document (count_of item.unit.document_id st.per_document))
      && not (ltb s.max_tokens (st.used_tokens + cost_of item.unit) && not (is_empty st.chosen))

  unfoldable pub penalty_of : Selection → ScoredUnit → Ratio
  unfolding shingles jaccard
  penalty_of st item =
      if is_empty st.chosen_signatures
      then record { num = 0; den = 1 }
      else ratio_mul s.diversity_lambda (
          ratio_max (record { num = 0; den = 1 })
            (map (λ other. jaccard (shingles s.lib item.unit.text 4) other) st.chosen_signatures))

  -- The value is the score less the penalty; the comparison is written without the subtraction.
  unfoldable pub improves : ScoredUnit × Ratio → Option (ScoredUnit × Ratio) → Bool
  improves new none = true
  improves (item, penalty) (some (best, best_penalty)) =
      let value = ratio_add (score_of item) best_penalty in
      let best_value = ratio_add (score_of best) penalty in
      ratio_gt value best_value
      || ratio_eq value best_value
        && elim (compare item.unit.unit_id best.unit.unit_id) [ Ordering.lt ↦ true | _ ↦ false ]

  -- The `for` loop over the remaining items.
  unfoldable pub pick :
      Selection → List ScoredUnit → Option (ScoredUnit × Ratio) → Option (ScoredUnit × Ratio)
  unfolding is_eligible penalty_of improves
  pick st [] best = best
  pick st (item ∷ items) best = pick st items (
      if is_eligible st item && improves (item, penalty_of st item) best
      then some (item, penalty_of st item)
      else best)

  unfoldable pub choose : ScoredUnit → Ratio → Selection → Selection
  unfolding bump cost_of remove shingles
  choose item penalty st = record {
    chosen = st.chosen ++ (item, penalty) ∷ [];
    chosen_signatures = st.chosen_signatures ++ shingles s.lib item.unit.text 4 ∷ [];
    per_document = bump item.unit.document_id st.per_document;
    used_tokens = st.used_tokens + cost_of item.unit;
    remaining = remove item st.remaining;
  }

  -- One round of the `while` loop; `none` is the `break`.
  unfoldable pub step : Selection → Option Selection
  unfolding pick choose
  step st = elim (pick st st.remaining none) [
    | none ↦ none
    | some (item, penalty) ↦ some (choose item penalty st)
  ]

  abbrev pub is_over : Selection → Bool
  is_over st = is_empty st.remaining || leb s.max_passages (length st.chosen)

  -- The `while` loop. Each round removes an item, so their number is the fuel.
  unfoldable pub rounds : ℕ → Selection → Selection
  unfolding step
  rounds zero st = st
  rounds (suc fuel) st =
      if is_over st then st else elim (step st) [ none ↦ st | some st' ↦ rounds fuel st' ]

  unfoldable pub greedy_diverse_fit : List ScoredUnit → Selection
  unfolding rounds
  greedy_diverse_fit pool = rounds (length pool) (record {
    chosen = [];
    chosen_signatures = [];
    per_document = [];
    used_tokens = 0;
    remaining = pool;
  })
