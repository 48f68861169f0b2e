-- ===== src/Scenarios/Prompting.antt =====
-- A prompt with two passages, of which only one fits.
use leanlm.Common.{◌≡◌, refl, true, List, [], ◌∷◌, length}
use leanlm.Shared.Text.{Text, codes, join_with}
use leanlm.Contracts.Dto.{SelectedEvidence}
use leanlm.Inference.Prompt.{PromptBuilder, render_evidence, build}
use leanlm.Inference.Prompt.Evidence.{IsPrefix, render_evidence-IsPrefix}
use leanlm.Scenarios.Documents.{small_library}

abbrev builder : PromptBuilder
builder = record {
  policy = record {
    thinking_suffix = [];
    evidence_separator = 10 ∷ 10 ∷ [];
    max_evidence_chars = 30;
    include_section_path = true;
  };
  count = λ t. length t;
  lib = small_library;
}

abbrev first_passage : SelectedEvidence
first_passage = record {
  label = "S1";
  unit_id = "u1";
  document_name = "a.txt";
  section_path = codes "Prix" ∷ [];
  text = codes "30 euros";
  token_estimate = 2;
}

abbrev second_passage : SelectedEvidence
second_passage = record {
  label = "S2";
  unit_id = "u2";
  document_name = "b.txt";
  section_path = [];
  text = codes "45 euros";
  token_estimate = 2;
}

only_first :
    render_evidence builder (first_passage ∷ second_passage ∷ [])
    ≡ codes "[S1] a.txt > Prix\n30 euros"
unfolding render_evidence
only_first = refl

-- The label of a passage that is not shown is listed all the same.
both_labels :
    (build builder (codes "prix") (first_passage ∷ second_passage ∷ [])).evidence_labels
    ≡ "S1" ∷ "S2" ∷ []
unfolding build
both_labels = refl

render_evidence-IsPrefix_example :
    (blocks : List Text) × (render_evidence builder (first_passage ∷ second_passage ∷ [])
      ≡ join_with builder.policy.evidence_separator blocks)
    × IsPrefix builder 0 (first_passage ∷ second_passage ∷ []) blocks
render_evidence-IsPrefix_example =
    render_evidence-IsPrefix builder first_passage (second_passage ∷ [])
