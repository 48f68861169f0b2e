-- ===== src/Inference/Cleaning/Thinking.antt =====
-- The loop that removes reasoning blocks (packages/inference/cleaning.py).
use leanlm.Common.{
  ℕ, zero, suc, ◌≤◌, ◌<◌, ◌≡◌, Bool, none, some, [], ◌∷◌, arith, length, length-append, length-drop,
  drop, inl, inr, Option-cases,
}
use leanlm.Shared.Errors.{Option-ind}
use leanlm.Shared.Text.{Text, take}
use leanlm.Inference.Cleaning.{ThinkBlock, remove_span, strip_blocks}

-- What a search is known to do: a match of the opening marker is not empty and lies in the text, and
-- the closing one is found behind the position that the search begins at.
pub record Searches (b : ThinkBlock) : Type 0 where
  pub opens :
      (text : Text) (span : ℕ × ℕ)
      → b.opener text ≡ some span
      → (span.0 < span.1) × (span.1 ≤ length text)
  pub closes : (text : Text) (start stop : ℕ) → b.closer text start ≡ some stop → start ≤ stop

length-take : (n : ℕ) (text : Text) → length (take n text) ≤ n
length-take zero text = omega arith
length-take (suc n) [] = omega arith
length-take (suc n) (c ∷ cs) = omega (arith, length-take n cs)

remove_span_shorter :
    (b : ThinkBlock) (text : Text) (span : ℕ × ℕ)
    → Searches b
    → b.opener text ≡ some span
    → length (remove_span b span text) < length text
remove_span_shorter b text span known found =
    let (ordered, inside) = known.opens text span found in
    Option-ind (λ (t : Text). length t < length text) (b.closer text span.1)
      (λ stop closed. omega (
        arith,
        ordered,
        inside,
        known.closes text span.1 stop closed,
        length-append (take span.0 text) (drop stop text),
        length-take span.0 text,
        length-drop stop text,
      ))
      (λ _. omega (arith, ordered, inside, length-take span.0 text))

no_room : (a b n : ℕ) → a < b → b ≤ n → n ≤ 0 → ⊥
no_room a b n ordered inside h = omega (arith, ordered, inside, h)

nothing_open : (b : ThinkBlock) (text : Text) → Searches b → length text ≤ 0 → b.opener text ≡ none
nothing_open b text known h = elim (Option-cases (b.opener text)) [
  | inl e ↦ e
  | inr (span, found) ↦
      let (ordered, inside) = known.opens text span found in absurd (no_room _ _ _ ordered inside h)
]

abbrev Leaves : ThinkBlock → Text → Text × Bool → Type 0
Leaves b text out = (b.opener out.0 ≡ none) × (length out.0 ≤ length text)

strip_blocks-Leaves :
    (b : ThinkBlock) (fuel : ℕ) (text : Text)
    → Searches b
    → length text ≤ fuel
    → Leaves b text (strip_blocks fuel b text)
strip_blocks-Leaves b zero text known enough = (nothing_open b text known enough, omega arith)
strip_blocks-Leaves b (suc fuel) text known enough =
    Option-ind (Leaves b text) (b.opener text)
      (λ span found.
        let shorter = remove_span_shorter b text span known found in
        let rest =
          strip_blocks-Leaves b fuel (remove_span b span text) known
            (omega (arith, shorter, enough)) in
        (rest.0, omega (arith, rest.1, shorter)))
      (λ clear. (clear, omega arith))

-- The loop ends by itself: with as much fuel as the text is long, no opening marker of the kind is
-- left in the result, which is not longer than the text, whether or not its blocks are
-- closed.
pub strip_blocks-done :
    (b : ThinkBlock) (text : Text)
    → Searches b
    → let out = strip_blocks (length text) b text in
      (b.opener out.0 ≡ none) × (length out.0 ≤ length text)
strip_blocks-done b text known = strip_blocks-Leaves b (length text) text known (omega arith)
