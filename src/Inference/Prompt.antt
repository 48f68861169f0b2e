-- ===== src/Inference/Prompt.antt =====
-- The assembly of the prompt (packages/inference/services.py). `str.lower` and `str.strip` are the
-- text library's; the separate system and user parts of the package are only their concatenation.
pub mod Evidence
use leanlm.Common.{
  ℕ, ◌+◌, ltb, String, Bool, true, false, not, ◌&&◌, List, [], ◌∷◌, ◌++◌, map, any, length,
  is_empty, if◌then◌else◌,
}
use leanlm.Shared.Text.{Text, codes, TextLibrary, contains, join_with}
use leanlm.Contracts.Dto.{SelectedEvidence, PromptPackage}

pub record PromptPolicy : Type 0 where
  pub thinking_suffix : Text
  pub evidence_separator : Text
  pub max_evidence_chars : ℕ
  pub include_section_path : Bool

pub record PromptBuilder : Type 0 where
  pub policy : PromptPolicy
  pub count : Text → ℕ
  pub lib : TextLibrary

-- `SYSTEM_TEMPLATE`, before and behind the answer that stands for insufficiency.
abbrev system_head : Text
system_head =
    codes
      "You are LeanLM, an offline assistant answering strictly from the supplied excerpts.\n\nRules:\n1. Use only the excerpts below. Never rely on outside knowledge.\n2. Cite the excerpt label in square brackets after each claim, e.g. [S1].\n3. If the excerpts do not contain the answer, reply exactly: "

abbrev system_tail : Text
system_tail =
    codes
      "\n4. Quote figures, dates and amounts exactly as they appear.\n5. Answer in the language of the question. Be concise and factual.\n"

abbrev insufficient_answer : Text
insufficient_answer = codes "The supplied documents do not allow a conclusion."

abbrev insufficient_answer_fr : Text
insufficient_answer_fr = codes "Les documents fournis ne permettent pas de conclure."

abbrev no_evidence_block : Text
no_evidence_block = codes "(no excerpt matched this question)"

abbrev french_markers : List Text
french_markers = map codes (
    " quel" ∷ " quelle" ∷ " comment" ∷ " pourquoi" ∷ " quels" ∷ " quelles" ∷ " combien" ∷ " est-ce"
    ∷ " liste" ∷ " resume" ∷ " qui " ∷ " ou " ∷ " des " ∷ " les " ∷ " une " ∷ " dans " ∷ [])

abbrev prompt_label : SelectedEvidence → String
prompt_label e = e.label

module _ (b : PromptBuilder) where
  unfoldable pub looks_french : Text → Bool
  unfolding contains
  looks_french question = any (contains (32 ∷ (b.lib.lower question ++ 32 ∷ []))) french_markers

  abbrev header_of : SelectedEvidence → Text
  header_of e =
      let plain = 91 ∷ (codes e.label ++ (codes "] " ++ codes e.document_name)) in
      if b.policy.include_section_path && not (is_empty e.section_path)
      then plain ++ (codes " > " ++ join_with (codes " > ") e.section_path)
      else plain

  abbrev pub block_of : SelectedEvidence → Text
  block_of e = header_of e ++ 10 ∷ b.lib.strip e.text

  -- The loop, which stops at the first block that does not fit.
  unfoldable pub blocks_from : ℕ → List SelectedEvidence → List Text
  blocks_from used [] = []
  blocks_from used (e ∷ es) =
      let block = block_of e in
      let rest = blocks_from (used + length block) es in
      if ltb b.policy.max_evidence_chars (used + length block) then [] else block ∷ rest

  unfoldable pub render_evidence : List SelectedEvidence → Text
  unfolding blocks_from
  render_evidence evidence =
      if is_empty evidence
      then no_evidence_block
      else join_with b.policy.evidence_separator (blocks_from 0 evidence)

  abbrev asked_of : Text → Text
  asked_of question =
      let asked = b.lib.strip question in
      if is_empty b.policy.thinking_suffix
      then asked
      else asked ++ 32 ∷ b.lib.strip b.policy.thinking_suffix

  unfoldable pub build : Text → List SelectedEvidence → PromptPackage
  unfolding looks_french render_evidence
  build question evidence =
      let missing = if looks_french question then insufficient_answer_fr else insufficient_answer in
      let system = system_head ++ (missing ++ system_tail) in
      let block = render_evidence evidence in
      let user =
        codes "### Excerpts\n"
        ++ (block
            ++ (codes "\n\n### Question\n" ++ (asked_of question ++ codes "\n\n### Answer\n"))) in
      let rendered = system ++ 10 ∷ user in
      record {
        rendered = rendered;
        prompt_tokens = b.count rendered;
        context_tokens = b.count block;
        evidence_labels = map prompt_label evidence;
      }
