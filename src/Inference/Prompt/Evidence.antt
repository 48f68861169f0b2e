-- ===== src/Inference/Prompt/Evidence.antt =====
-- The passages that reach the prompt (packages/inference/services.py).
use leanlm.Common.{
  ℕ, ◌+◌, ◌≤◌, ◌<◌, ◌≡◌, refl, ap, true, false, ◌⊎◌, inl, inr, List, [], ◌∷◌, ◌++◌, map, length,
  ltb, total, arith, if-ind,
}
use leanlm.Shared.Text.{Text, join_with}
use leanlm.Contracts.Dto.{SelectedEvidence}
use leanlm.Inference.Prompt.{PromptBuilder, block_of, blocks_from, render_evidence}

abbrev size : Text → ℕ
size t = length t

-- The passages that are shown, the ones that are left out, and why the first of these is.
pub record IsPrefix (b : PromptBuilder) (used : ℕ) (evidence : List SelectedEvidence)
    (blocks : List Text) : Type 0 where
  pub shown : List SelectedEvidence
  pub omitted : List SelectedEvidence
  pub split : evidence ≡ shown ++ omitted
  pub rendered : blocks ≡ map (block_of b) shown
  pub within : used + total size blocks ≤ b.policy.max_evidence_chars
  pub full :
      (omitted ≡ [])
      ⊎ (e : SelectedEvidence) × (es : List SelectedEvidence) × (omitted ≡ e ∷ es)
        × (b.policy.max_evidence_chars < used + total size blocks + length (block_of b e))

too_long : (cap used k : ℕ) → ltb cap (used + k) ≡ true → cap < used + 0 + k
too_long cap used k h = ground (arith, h)

room_left : (cap n : ℕ) → ltb cap n ≡ false → n ≤ cap
room_left cap n h = ground (arith, h)

blocks_from-IsPrefix :
    (b : PromptBuilder) (used : ℕ) (evidence : List SelectedEvidence)
    → used ≤ b.policy.max_evidence_chars
    → IsPrefix b used evidence (blocks_from b used evidence)
unfolding blocks_from
blocks_from-IsPrefix b used [] h = record {
  shown = [];
  omitted = [];
  split = refl;
  rendered = refl;
  within = omega (arith, h);
  full = inl refl;
}
blocks_from-IsPrefix b used (e ∷ es) h =
    if-ind (IsPrefix b used (e ∷ es))
      (ltb b.policy.max_evidence_chars (used + length (block_of b e)))
      (λ over. record {
        shown = [];
        omitted = e ∷ es;
        split = refl;
        rendered = refl;
        within = omega (arith, h);
        full = inr (e, es, refl, too_long _ _ _ over);
      })
      (λ fits.
        let rest = blocks_from-IsPrefix b (used + length (block_of b e)) es (room_left _ _ fits) in
        record {
          shown = e ∷ rest.shown;
          omitted = rest.omitted;
          split = ap (λ l. e ∷ l) rest.split;
          rendered = ap (λ l. block_of b e ∷ l) rest.rendered;
          within = omega (arith, rest.within);
          full = elim rest.full [
            | inl none_left ↦ inl none_left
            | inr (next, more, split, long) ↦ inr (next, more, split, omega (arith, long))
          ];
        })

-- The prompt shows a first part of the passages, in their order and each whole, joined by the
-- separator: the blocks together have at most the policy's number of characters, and a passage is
-- left out only when the first of those left out would exceed it.
pub render_evidence-IsPrefix :
    (b : PromptBuilder) (e : SelectedEvidence) (es : List SelectedEvidence)
    → (blocks : List Text) × (render_evidence b (e ∷ es)
        ≡ join_with b.policy.evidence_separator blocks)
      × IsPrefix b 0 (e ∷ es) blocks
unfolding render_evidence
render_evidence-IsPrefix b e es =
    (blocks_from b 0 (e ∷ es), refl, blocks_from-IsPrefix b 0 (e ∷ es) (omega arith))
