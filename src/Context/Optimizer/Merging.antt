-- ===== src/Context/Optimizer/Merging.antt =====
-- The text and the tokens of merged units (packages/context/services.py).
use leanlm.Common.{
  append-nil, subst, ℕ, ◌+◌, ◌*◌, ◌≤◌, ◌≡◌, refl, sym, ap, ◌∙◌, List, [], ◌∷◌, ◌++◌, map, arith,
  append_assoc, map-append, Bool-cases, inl, inr, All,
}
use leanlm.Shared.Text.{Text, is_member}
use leanlm.Contracts.Dto.{SemanticUnit, ContextPackage, ContextBudget}
use leanlm.Context.Optimizer.{
  ContextOptimizer, Units, Entry, is_noise, drop_noise, drop_exact_duplicates, digest_of, settle,
  near_loop, kept_units, entry_of, drop_near_duplicates, may_merge, merge, merge_after,
  merge_fragments, tokens, optimize,
}

-- The texts one after the other, each with a line break behind it.
abbrev pub lines : Units → Text
lines [] = []
lines (u ∷ us) = u.text ++ 10 ∷ lines us

merge_after-lines :
    (o : ContextOptimizer) (last : SemanticUnit) (us : Units)
    → lines (merge_after o last us).0 ≡ lines (last ∷ us)
unfolding merge_after
merge_after-lines o last [] = refl
merge_after-lines o last (u ∷ us) = elim (Bool-cases (may_merge o last u)) [
  | inr apart ↦ rw apart (ap (λ l. last.text ++ 10 ∷ l) (merge_after-lines o u us))
  | inl joined ↦ rw joined (
      unfold merge in
      merge_after-lines o (merge o last u) us
      ∙ append_assoc last.text (10 ∷ u.text) (10 ∷ lines us))
]

-- Merging changes no text: the lines of the merged units are the lines of the units.
pub merge_fragments-lines :
    (o : ContextOptimizer) (us : Units) → lines (merge_fragments o us).0 ≡ lines us
unfolding merge_fragments
merge_fragments-lines o [] = refl
merge_fragments-lines o (u ∷ us) = merge_after-lines o u us

-- Two texts put together count at most `slack` more than the two.
abbrev pub GrowsBy : ContextOptimizer → ℕ → Type 0
GrowsBy o slack = (a b : Text) → o.count (a ++ 10 ∷ b) ≤ o.count a + o.count b + slack

-- The estimates are the counter's.
abbrev pub AreCounted : ContextOptimizer → Units → Type 0
AreCounted o us = All (λ u. u.token_estimate ≡ o.count u.text) us

module _ (o : ContextOptimizer) where
  drop_noise-tokens : (us : Units) → tokens o (drop_noise o us).0 ≤ tokens o us
  unfolding drop_noise
  drop_noise-tokens [] = omega arith
  drop_noise-tokens (u ∷ us) = ground (arith, drop_noise-tokens us)

  drop_noise-AreCounted : (us : Units) → AreCounted o us → AreCounted o (drop_noise o us).0
  unfolding drop_noise
  drop_noise-AreCounted [] h = tt
  drop_noise-AreCounted (u ∷ us) h = elim (Bool-cases (is_noise o u)) [
    | inl noise ↦ rw noise (drop_noise-AreCounted us h.1)
    | inr good ↦ rw good (h.0, drop_noise-AreCounted us h.1)
  ]

  drop_exact-tokens :
      (seen : List Text) (us : Units) → tokens o (drop_exact_duplicates o seen us).0 ≤ tokens o us
  unfolding drop_exact_duplicates
  drop_exact-tokens seen [] = omega arith
  drop_exact-tokens seen (u ∷ us) = elim (Bool-cases (is_member (digest_of o u) seen)) [
    | inl again ↦ rw again (omega (arith, drop_exact-tokens seen us))
    | inr new ↦ rw new (omega (arith, drop_exact-tokens (digest_of o u ∷ seen) us))
  ]

  drop_exact-AreCounted :
      (seen : List Text) (us : Units)
      → AreCounted o us
      → AreCounted o (drop_exact_duplicates o seen us).0
  unfolding drop_exact_duplicates
  drop_exact-AreCounted seen [] h = tt
  drop_exact-AreCounted seen (u ∷ us) h = elim (Bool-cases (is_member (digest_of o u) seen)) [
    | inl again ↦ rw again (drop_exact-AreCounted seen us h.1)
    | inr new ↦ rw new (h.0, drop_exact-AreCounted (digest_of o u ∷ seen) us h.1)
  ]

  abbrev unit_of : Entry → SemanticUnit
  unit_of e = e.unit

  settle-units :
      (e : Entry) (past : List Entry) → map unit_of (settle o e past).0 ≡ map unit_of past
  unfolding settle
  settle-units e [] = refl
  settle-units e (other ∷ past) = ground (arith, settle-units e past)

  near_loop-units :
      (past : List Entry) (us : Units)
      → map unit_of (near_loop o past us).0 ≡ map unit_of past ++ us
  unfolding near_loop entry_of
  near_loop-units past [] = sym (append-nil (map unit_of past))
  near_loop-units past (u ∷ us) =
      let e = entry_of o u in
      near_loop-units ((settle o e past).0 ++ record e { kept = (settle o e past).1 } ∷ []) us
      ∙ ap (λ l. l ++ us)
          (map-append unit_of (settle o e past).0 (record e { kept = (settle o e past).1 } ∷ [])
            ∙ ap (λ l. l ++ u ∷ []) (settle-units e past))
      ∙ append_assoc (map unit_of past) (u ∷ []) us

  kept_units-tokens : (es : List Entry) → tokens o (kept_units o es) ≤ tokens o (map unit_of es)
  unfolding kept_units
  kept_units-tokens [] = omega arith
  kept_units-tokens (e ∷ es) = ground (arith, kept_units-tokens es)

  kept_units-AreCounted :
      (es : List Entry) → AreCounted o (map unit_of es) → AreCounted o (kept_units o es)
  unfolding kept_units
  kept_units-AreCounted [] h = tt
  kept_units-AreCounted (e ∷ es) h = elim (Bool-cases e.kept) [
    | inl k ↦ rw k (h.0, kept_units-AreCounted es h.1)
    | inr d ↦ rw d (kept_units-AreCounted es h.1)
  ]

  drop_near-tokens : (us : Units) → tokens o (drop_near_duplicates o us).0 ≤ tokens o us
  unfolding drop_near_duplicates
  drop_near-tokens us = rw (near_loop-units [] us) at (kept_units-tokens (near_loop o [] us).0)

  drop_near-AreCounted : (us : Units) → AreCounted o us → AreCounted o (drop_near_duplicates o us).0
  unfolding drop_near_duplicates
  drop_near-AreCounted us h =
      kept_units-AreCounted (near_loop o [] us).0
        (subst (AreCounted o) (sym (near_loop-units [] us)) h)

  merge_after-tokens :
      (slack : ℕ) (last : SemanticUnit) (us : Units)
      → GrowsBy o slack
      → AreCounted o (last ∷ us)
      → tokens o (merge_after o last us).0
        ≤ tokens o (last ∷ us) + slack * (merge_after o last us).1
  unfolding merge_after merge
  merge_after-tokens slack last [] g h = omega arith
  merge_after-tokens slack last (u ∷ us) g h = elim (Bool-cases (may_merge o last u)) [
    | inr apart ↦ rw apart (omega (arith, merge_after-tokens slack u us g h.1))
    | inl joined ↦ rw joined (
        omega (
          arith,
          merge_after-tokens slack (merge o last u) us g (refl, h.1.1),
          g last.text u.text,
          h.0,
          h.1.0,
        ))
  ]

  merge_fragments-tokens :
      (slack : ℕ) (us : Units)
      → GrowsBy o slack
      → AreCounted o us
      → tokens o (merge_fragments o us).0 ≤ tokens o us + slack * (merge_fragments o us).1
  unfolding merge_fragments
  merge_fragments-tokens slack [] g h = omega arith
  merge_fragments-tokens slack (u ∷ us) g h = merge_after-tokens slack u us g h

-- If the counter counts at most `slack` more for two joined texts than for the two, and the units
-- carry the counter's estimates, the optimized context exceeds its input by at most `slack` tokens
-- for each merged unit; with a slack of 0 it never grows, which is the contract CTX-003.
pub optimize-tokens :
    (o : ContextOptimizer) (slack : ℕ) (loaded : ContextPackage) (budget : ContextBudget)
    → GrowsBy o slack
    → AreCounted o loaded.units
    → let out = optimize o loaded budget in
      out.output_tokens ≤ out.input_tokens + slack * out.merged_units
unfolding optimize
optimize-tokens o slack loaded budget g h =
    let clean = (drop_noise o loaded.units).0 in
    let single = (drop_exact_duplicates o [] clean).0 in
    let distinct = (drop_near_duplicates o single).0 in
    let counted =
      drop_near-AreCounted o single
        (drop_exact-AreCounted o [] clean (drop_noise-AreCounted o loaded.units h)) in
    omega (
      arith,
      merge_fragments-tokens o slack distinct g counted,
      drop_near-tokens o single,
      drop_exact-tokens o [] clean,
      drop_noise-tokens o loaded.units,
    )
