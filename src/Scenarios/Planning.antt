-- ===== src/Scenarios/Planning.antt =====
-- A question about a refund on a warm machine: its intent, its budget and its context stage.
use leanlm.Common.{ℕ, ◌≡◌, refl, some, [], ◌∷◌, length}
use leanlm.Shared.Events.{new}
use leanlm.Shared.Text.{Text, codes, Ratio}
use leanlm.Contracts.Dto.{ResourceObservation, extraction}
use leanlm.Contracts.Iec.{InferenceExecutionContext, context_optimization}
use leanlm.Contracts.Capability.{execute}
use leanlm.Context.Intent.{analyze, padded}
use leanlm.Context.Intent.Choice.{IsBest, analyze-IsBest}
use leanlm.Context.Budget.{ContextBudgeter, compute}
use leanlm.Context.Budget.Limits.{IsLimited, compute-IsLimited}
use leanlm.Context.Contract.{ContextStage, optimized_of, context_capability}
use leanlm.Context.Contract.Compaction.{compacted, IsWeighed, execute-IsWeighed}
use leanlm.Scenarios.Documents.{small_library, optimizer, optimizer-GrowsBy, letters, loaded}
use leanlm.Scenarios.Wiring.{blank}

abbrev letter_count : Text → ℕ
letter_count t = length (letters t)

abbrev whole : ℕ → Ratio
whole n = record { num = n; den = 1 }

abbrev budgeter : ContextBudgeter
budgeter = record {
  policy = record {
    min_context_tokens = 256;
    prompt_overhead_tokens = 160;
    ram_headroom_mb = whole 512;
    ram_soft_floor_mb = whole 900;
    thermal_warn_c = whole 78;
    thermal_critical_c = whole 92;
    cpu_warn_percent = whole 85;
    max_passages_hard_cap = 12;
    intent_factors = ("extraction", record { num = 65; den = 100 }) ∷ [];
    intent_passages = ("extraction", 5) ∷ [];
  };
  count = letter_count;
  round = λ r. r;
}

abbrev pub warm : ResourceObservation
warm = record {
  available_ram_mb = whole 4000;
  cpu_percent = whole 20;
  temperature_c = some (whole 85);
}

abbrev asked : Text
asked = codes "combien de jours, liste"

extraction_found : (analyze small_library (λ xs. xs) asked).intent ≡ extraction
unfolding analyze
extraction_found = refl

-- 4096 tokens, less 512 and 180, by 0.7 for the temperature and 0.65 for the intent.
evidence_left :
    (compute budgeter 4096 512 asked extraction (some warm) (whole 0)).evidence_tokens ≡ 1548
unfolding compute
evidence_left = refl

analyze-IsBest_example :
    IsBest (padded small_library asked) (analyze small_library (λ xs. xs) asked)
analyze-IsBest_example = analyze-IsBest small_library (λ xs. xs) asked

compute-IsLimited_example :
    IsLimited budgeter 4096 512 asked
      (compute budgeter 4096 512 asked extraction (some warm) (whole 0))
compute-IsLimited_example =
    compute-IsLimited budgeter 4096 512 asked extraction (some warm) (whole 0)

abbrev pub context_stage : ContextStage
context_stage = record {
  lib = small_library;
  sorted = λ xs. xs;
  budgeter = budgeter;
  optimizer = optimizer;
  model_context_tokens = 4096;
  max_output_tokens = 512;
  model_footprint_mb = whole 0;
  describe = λ intent budget optimized. budget.limiting_factor ∷ [];
}

abbrev ready : InferenceExecutionContext
ready = record blank { context_package = some loaded; resources = some warm }

execute-IsWeighed_example :
    IsWeighed
      (optimized_of context_stage ready loaded)
      (compacted context_stage loaded ready)
      (execute (context_capability context_stage) ready context_optimization (new 8)).0
execute-IsWeighed_example =
    execute-IsWeighed context_stage 1 loaded ready (new 8) refl optimizer-GrowsBy (refl, (refl, tt))
