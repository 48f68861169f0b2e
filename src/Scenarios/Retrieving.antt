-- ===== src/Scenarios/Retrieving.antt =====
-- A question on two passages of a contract, and the retrieval stage.
use leanlm.Common.{
  ℕ, ◌≡◌, refl, none, some, [], ◌∷◌, length, All, true, ◌==◌, leb, ◌&&◌, if◌then◌else◌,
}
use leanlm.Shared.Errors.{ok}
use leanlm.Shared.Text.{codes, Ratio}
use leanlm.Shared.Text.Counter.{count}
use leanlm.Contracts.Dto.{OptimizedContext}
use leanlm.Contracts.Iec.{InferenceExecutionContext, evidence_retrieval}
use leanlm.Contracts.Capability.{execute}
use leanlm.Retrieval.Ranking.{Retriever, select, label}
use leanlm.Retrieval.Ranking.Provenance.{Quotes, AreLabelled, select-IsDrawn}
use leanlm.Retrieval.Contract.{RetrievalStage, retrieval_capability}
use leanlm.Retrieval.Contract.Keeping.{retrieved, execute-retrieved}
use leanlm.Runtime.Asking.{new_context}
use leanlm.Scenarios.Documents.{small_library, passage, split_on}
use leanlm.Scenarios.Wiring.{bus}

abbrev percent : ℕ → Ratio
percent n = record { num = n; den = 100 }

abbrev retriever : Retriever
retriever = record {
  policy = record {
    bm25_k1 = percent 140;
    bm25_b = percent 72;
    candidate_pool = 40;
    section_match_boost = percent 22;
    title_match_boost = percent 10;
    table_boost = percent 6;
    exact_phrase_boost = percent 18;
    numeric_question_boost = percent 12;
    diversity_lambda = percent 35;
    max_per_document = 4;
    min_score = percent 2;
    relative_score_floor = percent 15;
    unsupported_term_ratio = percent 40;
  };
  lib = small_library;
  count = count small_library;
  log = λ x. x;
  round_key = λ x. x;
  round_score = λ x. x;
  split_words = split_on [];
  is_numeric = λ t. true;
  is_digit = λ c. leb 48 c && leb c 57;
  format = λ n. if n == 1 then "1" else "2";
}

abbrev optimized : OptimizedContext
optimized = record {
  units = passage (codes "remboursement sous 30 jours") ∷ passage (codes "taux de la taxe") ∷ [];
  budget = none;
  input_tokens = 12;
  output_tokens = 12;
  dropped_units = 0;
  merged_units = 0;
  duplicate_units = 0;
  operations = [];
}

abbrev asked : InferenceExecutionContext
asked = record (new_context "s" "r" "remboursement sous combien" "p") {
  optimized_context = some optimized;
}

abbrev pub retrieval_stage : RetrievalStage
retrieval_stage = record { retriever = retriever; describe = λ evidence candidates precision. [] }

select_runs : length (select retriever (codes "remboursement sous 30") optimized none).0 ≡ 1
unfolding select count
select_runs = refl

select-IsDrawn_example :
    All (Quotes optimized.units) (select retriever (codes "remboursement") optimized none).0
    × AreLabelled (label retriever) 1 (select retriever (codes "remboursement") optimized none).0
    × (length (select retriever (codes "remboursement") optimized none).1
        ≡ length (select retriever (codes "remboursement") optimized none).0)
select-IsDrawn_example = select-IsDrawn retriever (codes "remboursement") optimized none

execute-retrieved_example :
    (execute (retrieval_capability retrieval_stage) asked evidence_retrieval bus).0
    ≡ ok (retrieved retrieval_stage optimized asked)
execute-retrieved_example = execute-retrieved retrieval_stage optimized asked bus refl
