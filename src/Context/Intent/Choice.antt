-- ===== src/Context/Intent/Choice.antt =====
-- Which intent the analysis (packages/context/services.py) chooses.
use leanlm.Common.{
  ◌++◌, ap, ==_iff, ℕ, ◌≤◌, ◌<◌, ◌≡◌, refl, ◌==◌, String, true, false, ◌⊎◌, inl, inr, List, [], ◌∷◌,
  keep, All, arith, if-ind,
}
use leanlm.Shared.Text.{Text, TextLibrary}
use leanlm.Contracts.Dto.{IntentType, factual, IntentClassification}
use leanlm.Context.Intent.{marked_intents, score_of, best_score, first_intent, padded, analyze}

-- Every score is within a bound that the best one is within.
scores_within :
    (lowered : Text) (b : ℕ) (is : List IntentType)
    → best_score lowered is ≤ b
    → All (λ i. score_of lowered i ≤ b) is
scores_within lowered b [] h = tt
scores_within lowered b (i ∷ is) h =
    (omega (arith, h), scores_within lowered b is (omega (arith, h)))

best_score_below :
    (lowered : Text) (b : ℕ) (is : List IntentType)
    → All (λ i. score_of lowered i < b) is
    → 0 < b
    → best_score lowered is < b
best_score_below lowered b [] h positive = positive
best_score_below lowered b (i ∷ is) h positive =
    omega (arith, h.0, best_score_below lowered b is h.1 positive)

-- The list has a first intent of the score `b`, and `chosen` is it.
pub record IsFirst (lowered : Text) (b : ℕ) (is : List IntentType) (chosen : IntentType)
    : Type 0 where
  pub before : List IntentType
  pub after : List IntentType
  pub split : is ≡ before ++ chosen ∷ after
  pub reached : score_of lowered chosen ≡ b
  pub lower_before : All (λ i. score_of lowered i < b) before
  pub none_above : All (λ i. score_of lowered i ≤ b) after

first_winner :
    (lowered : Text) (b : ℕ) (is : List IntentType)
    → All (λ i. score_of lowered i ≤ b) is
    → All (λ i. score_of lowered i < b) is
      ⊎ IsFirst lowered b is (first_intent (keep (λ i. score_of lowered i == b) is))
first_winner lowered b [] h = inl tt
first_winner lowered b (i ∷ is) h =
    let Q = λ (l : List IntentType).
      All (λ i. score_of lowered i < b) (i ∷ is) ⊎ IsFirst lowered b (i ∷ is) (first_intent l) in
    if-ind Q (score_of lowered i == b)
      (λ same. inr (record {
        before = [];
        after = is;
        split = refl;
        reached = (==_iff (score_of lowered i) b).0 same;
        lower_before = tt;
        none_above = h.1;
      }))
      (λ other.
        let low : score_of lowered i < b = ground (arith, h.0, other) in
        elim (first_winner lowered b is h.1) [
          | inl all_low ↦ inl (low, all_low)
          | inr f ↦ inr (record {
            before = i ∷ f.before;
            after = f.after;
            split = ap (λ l. i ∷ l) f.split;
            reached = f.reached;
            lower_before = (low, f.lower_before);
            none_above = f.none_above;
          })
        ])

zero_of : (n : ℕ) → (n == 0) ≡ true → n ≤ 0
zero_of n h = ground (arith, h)

positive_of : (n : ℕ) → (n == 0) ≡ false → 0 < n
positive_of n h = ground (arith, h)

lt_irrefl : (n : ℕ) → ¬ (n < n)
lt_irrefl n h = omega (arith, h)

-- What the analysis of a question says.
abbrev pub IsBest : Text → IntentClassification → Type 0
IsBest lowered c =
    ((c.intent ≡ factual) × (c.signals ≡ []) × All (λ i. score_of lowered i ≤ 0) marked_intents)
    ⊎ (b : ℕ) × (0 < b) × IsFirst lowered b marked_intents c.intent

-- The question is factual, without signals, when no marker of any intent occurs in it; otherwise
-- the intent has markers in it, no intent has more, and each intent before it in alphabetical
-- order has fewer.
pub analyze-IsBest :
    (lib : TextLibrary) (sorted : List String → List String) (question : Text)
    → IsBest (padded lib question) (analyze lib sorted question)
unfolding analyze
analyze-IsBest lib sorted question =
    let lowered = padded lib question in
    let best = best_score lowered marked_intents in
    let within = scores_within lowered best marked_intents (omega arith) in
    if-ind (IsBest lowered) (best == 0)
      (λ none_hit. inl (refl, refl, scores_within lowered 0 marked_intents (zero_of best none_hit)))
      (λ some_hit.
        let positive : 0 < best = positive_of best some_hit in
        elim (first_winner lowered best marked_intents within) [
          | inl all_low ↦
              absurd
                (lt_irrefl best (best_score_below lowered best marked_intents all_low positive))
          | inr f ↦ inr (best, positive, f)
        ])
