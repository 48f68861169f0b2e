-- ===== src/Scenarios/Cleaning.antt =====
-- A generation with a reasoning block between angle brackets.
use leanlm.Common.{
  ap, sym, ◌∙◌, ℕ, ◌+◌, ◌≤◌, ◌<◌, ◌≡◌, refl, ◌==◌, Option, none, some, [], ◌∷◌, arith, length, drop,
  if◌then◌else◌, inl, inr, Bool-cases,
}
use leanlm.Shared.Text.{Text, codes}
use leanlm.Inference.Cleaning.{
  strip_tool_scaffolding, ThinkBlock, CleaningLibrary, strip_blocks, clean_generation,
}
use leanlm.Inference.Cleaning.Thinking.{Searches, strip_blocks-done}
use leanlm.Inference.Cleaning.Emptiness.{IsExplained, clean_generation-IsExplained}

-- The place of a character, counted from `pos`.
abbrev place_of : ℕ → ℕ → Text → Option ℕ
place_of pos c [] = none
place_of pos c (x ∷ xs) = let rest = place_of (pos + 1) c xs in if x == c then some pos else rest

place_of_within :
    (pos c p : ℕ) (text : Text) → place_of pos c text ≡ some p → (pos ≤ p) × (p < pos + length text)
place_of_within pos c p [] h = cc h
place_of_within pos c p (x ∷ xs) h = elim (Bool-cases (x == c)) [
  | inl same ↦
      let e : some pos ≡ some p = rw same at h in
      let at : pos ≡ p = cc e in (omega (arith, at), omega (arith, at))
  | inr other ↦
      let (low, high) = place_of_within (pos + 1) c p xs (rw other at h) in
      (omega (arith, low), omega (arith, high))
]

abbrev span_of : Option ℕ → Option (ℕ × ℕ)
span_of none = none
span_of (some p) = some (p, p + 1)

abbrev angles : ThinkBlock
angles = record {
  opener = λ t. span_of (place_of 0 60 t);
  closer = λ t start. place_of (start + 1) 62 (drop start t);
}

opened_at :
    (o : Option ℕ) (span : ℕ × ℕ)
    → span_of o ≡ some span
    → (o ≡ some span.0) × (span.1 ≡ span.0 + 1)
opened_at none span h = cc h
opened_at (some p) span h =
    let e : (p, p + 1) ≡ span = cc h in
    (
      ap (λ (s : ℕ × ℕ). some s.0) e,
      sym (ap (λ (s : ℕ × ℕ). s.1) e) ∙ ap (λ (s : ℕ × ℕ). s.0 + 1) e,
    )

angles-Searches : Searches angles
angles-Searches = record {
  opens = λ text span h.
      let (found, wide) = opened_at (place_of 0 60 text) span h in
      let (low, high) = place_of_within 0 60 span.0 text found in
      (omega (arith, wide), omega (arith, wide, high));
  closes = λ text start stop h.
      omega (arith, (place_of_within (start + 1) 62 stop (drop start text) h).0);
}

abbrev thoughtful : Text
thoughtful = codes "<30 days?>The refund takes 30 days."

thought_removed :
    (strip_blocks (length thoughtful) angles thoughtful).0 ≡ codes "The refund takes 30 days."
thought_removed = refl

strip_blocks-done_example :
    (angles.opener (strip_blocks (length thoughtful) angles thoughtful).0 ≡ none)
    × (length (strip_blocks (length thoughtful) angles thoughtful).0 ≤ length thoughtful)
strip_blocks-done_example = strip_blocks-done angles thoughtful angles-Searches

abbrev cleaner : CleaningLibrary
cleaner = record {
  strip = λ t. t;
  lstrip = λ t. t;
  lstrip_marks = λ t. t;
  lower = λ t. t;
  splitlines = λ t. t ∷ [];
  think_blocks = angles ∷ [];
  remove_noise = λ t. t;
  last_answer = λ t. none;
}

-- A thought that is never closed leaves nothing, and says so.
only_thought : (clean_generation cleaner (codes "<30 days") []).0 ≡ []
unfolding clean_generation
only_thought = refl

clean_generation-IsExplained_example :
    IsExplained cleaner
      (strip_tool_scaffolding cleaner thoughtful []).0
      (clean_generation cleaner thoughtful [])
clean_generation-IsExplained_example =
    clean_generation-IsExplained cleaner thoughtful [] (λ t. refl) refl
