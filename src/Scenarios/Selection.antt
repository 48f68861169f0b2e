-- ===== src/Scenarios/Selection.antt =====
-- The selection of evidence from two passages.
use leanlm.Common.{◌+◌, ◌≡◌, List, [], ◌∷◌, length}
use leanlm.Shared.Text.{codes}
use leanlm.Shared.Text.Counter.{count}
use leanlm.Retrieval.Selector.{ScoredUnit, EvidenceSelector, greedy_diverse_fit}
use leanlm.Retrieval.Selector.Bounds.{IsWithin, greedy_diverse_fit-IsWithin}
use leanlm.Retrieval.Selector.Exhaustion.{
  IsExhausted, times, items_of, greedy_diverse_fit-IsExhausted,
}
use leanlm.Scenarios.Documents.{small_library, passage}

abbrev selector : EvidenceSelector
selector = record {
  lib = small_library;
  count = count small_library;
  diversity_lambda = record { num = 35; den = 100 };
  max_per_document = 4;
  max_tokens = 30;
  max_passages = 4;
}

abbrev pool : List ScoredUnit
pool =
    record {
      index = 0;
      unit = passage (codes "remboursement sous 30 jours");
      lexical = record { num = 5; den = 2 };
      boost = record { num = 22; den = 100 };
    }
    ∷ record {
      index = 1;
      unit = passage (codes "taux de la taxe");
      lexical = record { num = 3; den = 2 };
      boost = record { num = 0; den = 1 };
    }
    ∷ []

greedy_diverse_fit-IsWithin_example : IsWithin selector (greedy_diverse_fit selector pool)
greedy_diverse_fit-IsWithin_example = greedy_diverse_fit-IsWithin selector pool

greedy_diverse_fit-IsExhausted_example :
    let st = greedy_diverse_fit selector pool in
    IsExhausted selector st
    × (times 1 (items_of st.chosen) + times 1 st.remaining ≡ times 1 pool)
    × (length st.chosen + length st.remaining ≡ length pool)
greedy_diverse_fit-IsExhausted_example = greedy_diverse_fit-IsExhausted selector pool 1
