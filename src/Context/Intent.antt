-- ===== src/Context/Intent.antt =====
-- The analysis of the question (packages/context/services.py). `str.lower` and `str.strip` are the
-- text library's; `sorted` of the signals is a parameter.
pub mod Choice
use leanlm.Common.{
  ℕ, leb, ◌==◌, max, String, Bool, true, false, ◌||◌, List, [], ◌∷◌, ◌++◌, map, any, keep, length,
  is_empty, if◌then◌else◌,
}
use leanlm.Shared.Text.{Text, codes, TextLibrary, contains, content_words, take_words}
use leanlm.Contracts.Dto.{
  IntentType, factual, comparison, summary, extraction, explanation, drafting, IntentClassification,
}

abbrev pub markers_of : IntentType → List String
markers_of comparison =
    "compare" ∷ "comparer" ∷ "comparaison" ∷ "difference" ∷ "differences" ∷ "versus" ∷ "vs"
    ∷ "plutot que" ∷ "par rapport" ∷ "mieux que" ∷ "ecart" ∷ "entre" ∷ []
markers_of summary =
    "resume" ∷ "resumer" ∷ "synthese" ∷ "synthetise" ∷ "summary" ∷ "summarize" ∷ "overview"
    ∷ "vue d'ensemble" ∷ "en bref" ∷ "grandes lignes" ∷ "recapitule" ∷ []
markers_of extraction =
    "liste" ∷ "lister" ∷ "list" ∷ "enumere" ∷ "extract" ∷ "extraire" ∷ "combien" ∷ "quels sont"
    ∷ "quelles sont" ∷ "montant" ∷ "date" ∷ "delai" ∷ "taux" ∷ "how many" ∷ []
markers_of explanation =
    "pourquoi" ∷ "explique" ∷ "expliquer" ∷ "why" ∷ "explain" ∷ "comment fonctionne" ∷ "how does"
    ∷ "raison" ∷ "justifie" ∷ []
markers_of drafting =
    "redige" ∷ "rediger" ∷ "ecris" ∷ "ecrire" ∷ "draft" ∷ "write" ∷ "propose un" ∷ "genere"
    ∷ "formule" ∷ "mail" ∷ "courrier" ∷ "note de service" ∷ []
markers_of factual = []

-- The keys of the lexicon, in the order of their values, which is that of `sorted`.
abbrev pub marked_intents : List IntentType
marked_intents = comparison ∷ drafting ∷ explanation ∷ extraction ∷ summary ∷ []

-- `f" {m}" in lowered or f"{m} " in lowered`
unfoldable pub is_hit : Text → String → Bool
unfolding contains
is_hit lowered m = contains lowered (32 ∷ codes m) || contains lowered (codes m ++ 32 ∷ [])

unfoldable pub hits_of : Text → IntentType → List String
unfolding is_hit
hits_of lowered intent = keep (is_hit lowered) (markers_of intent)

abbrev pub score_of : Text → IntentType → ℕ
score_of lowered intent = length (hits_of lowered intent)

-- The largest score, and zero for no score.
abbrev pub best_score : Text → List IntentType → ℕ
best_score lowered [] = 0
best_score lowered (i ∷ is) = max (score_of lowered i) (best_score lowered is)

-- The intents with that score, and the first of them.
abbrev pub winners : Text → List IntentType
winners lowered = keep (λ i. score_of lowered i == best_score lowered marked_intents) marked_intents

abbrev pub first_intent : List IntentType → IntentType
first_intent [] = factual
first_intent (i ∷ is) = i

abbrev pub padded : TextLibrary → Text → Text
padded lib question = 32 ∷ (lib.strip (lib.lower question) ++ 32 ∷ [])

unfoldable pub analyze : TextLibrary → (List String → List String) → Text → IntentClassification
unfolding hits_of content_words
analyze lib sorted question =
    let lowered = padded lib question in
    let best = best_score lowered marked_intents in
    let intent = first_intent (winners lowered) in
    let keywords = take_words 24 (content_words lib question) in
    if best == 0
    then record { intent = factual; confidence = "medium"; signals = []; keywords = keywords }
    else record {
      intent = intent;
      confidence = if leb 2 best || length (winners lowered) == 1 then "high" else "low";
      signals = sorted (hits_of lowered intent);
      keywords = keywords;
    }
