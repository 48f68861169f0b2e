-- ===== src/Context/Optimizer/Accounting.antt =====
-- How many units the optimizer (packages/context/services.py) keeps, drops and merges.
use leanlm.Common.{
  ℕ, ◌+◌, ◌≡◌, refl, Bool, true, false, List, [], ◌∷◌, ◌++◌, arith, length, Bool-cases, inl, inr,
}
use leanlm.Shared.Text.{Text, is_member}
use leanlm.Contracts.Dto.{SemanticUnit, ContextPackage, ContextBudget}
use leanlm.Context.Optimizer.{
  ContextOptimizer, Units, Entry, drop_noise, drop_exact_duplicates, digest_of, is_near, settle,
  near_loop, kept_units, entry_of, drop_near_duplicates, may_merge, merge, merge_after,
  merge_fragments, optimize,
}

module _ (o : ContextOptimizer) where
  drop_noise-length : (us : Units) → length (drop_noise o us).0 + (drop_noise o us).1 ≡ length us
  unfolding drop_noise
  drop_noise-length [] = refl
  drop_noise-length (u ∷ us) = ground (arith, drop_noise-length us)

  drop_exact_duplicates-length :
      (seen : List Text) (us : Units)
      → length (drop_exact_duplicates o seen us).0 + (drop_exact_duplicates o seen us).1 ≡ length us
  unfolding drop_exact_duplicates
  drop_exact_duplicates-length seen [] = refl
  drop_exact_duplicates-length seen (u ∷ us) = elim (Bool-cases (is_member (digest_of o u) seen)) [
    | inl again ↦ rw again (omega (arith, drop_exact_duplicates-length seen us))
    | inr new ↦ rw new (omega (arith, drop_exact_duplicates-length (digest_of o u ∷ seen) us))
  ]

  -- How many entries are kept.
  abbrev alive : List Entry → ℕ
  alive es = length (kept_units o es)

  kept_units-append :
      (es fs : List Entry) → kept_units o (es ++ fs) ≡ kept_units o es ++ kept_units o fs
  unfolding kept_units
  kept_units-append [] fs = refl
  kept_units-append (e ∷ es) fs = ground (arith, kept_units-append es fs)

  -- The new entry, if it stays.
  abbrev one : Bool → ℕ
  one true = 1
  one false = 0

  is_near_kept : (e other : Entry) → is_near o e other ≡ true → other.kept ≡ true
  unfolding is_near
  is_near_kept e other h = ground arith

  settle-alive :
      (e : Entry) (past : List Entry)
      → alive (settle o e past).0 + one (settle o e past).1 + (settle o e past).2 ≡ alive past + 1
  unfolding settle kept_units
  settle-alive e [] = refl
  settle-alive e (other ∷ past) = ground (arith, settle-alive e past, is_near_kept e other)

  alive-snoc :
      (past : List Entry) (e : Entry) (stays : Bool)
      → alive (past ++ record e { kept = stays } ∷ []) ≡ alive past + one stays
  unfolding kept_units
  alive-snoc [] e true = refl
  alive-snoc [] e false = refl
  alive-snoc (x ∷ past) e stays = ground (arith, alive-snoc past e stays)

  near_loop-alive :
      (past : List Entry) (us : Units)
      → alive (near_loop o past us).0 + (near_loop o past us).1 ≡ alive past + length us
  unfolding near_loop
  near_loop-alive past [] = omega arith
  near_loop-alive past (u ∷ us) =
      let stays = (settle o (entry_of o u) past).1 in
      let after = (settle o (entry_of o u) past).0 in
      omega (
        arith,
        near_loop-alive (after ++ record (entry_of o u) { kept = stays } ∷ []) us,
        alive-snoc after (entry_of o u) stays,
        settle-alive (entry_of o u) past,
      )

  drop_near_duplicates-length :
      (us : Units)
      → length (drop_near_duplicates o us).0 + (drop_near_duplicates o us).1 ≡ length us
  unfolding drop_near_duplicates near_loop kept_units
  drop_near_duplicates-length us = omega (arith, near_loop-alive [] us)

  merge_after-length :
      (last : SemanticUnit) (us : Units)
      → length (merge_after o last us).0 + (merge_after o last us).1 ≡ length us + 1
  unfolding merge_after
  merge_after-length last [] = refl
  merge_after-length last (u ∷ us) = elim (Bool-cases (may_merge o last u)) [
    | inl joined ↦ rw joined (omega (arith, merge_after-length (merge o last u) us))
    | inr apart ↦ rw apart (omega (arith, merge_after-length u us))
  ]

  merge_fragments-length :
      (us : Units) → length (merge_fragments o us).0 + (merge_fragments o us).1 ≡ length us
  unfolding merge_fragments
  merge_fragments-length [] = refl
  merge_fragments-length (u ∷ us) = omega (arith, merge_after-length u us)

-- Every unit of the package is accounted for: the units of the optimized context, those reported
-- as dropped and those reported as merged are together as many as the package has.
optimize-accounts :
    (o : ContextOptimizer) (loaded : ContextPackage) (budget : ContextBudget)
    → let out = optimize o loaded budget in
      length out.units + out.dropped_units + out.merged_units ≡ length loaded.units
unfolding optimize
optimize-accounts o loaded budget =
    let clean = (drop_noise o loaded.units).0 in
    let single = (drop_exact_duplicates o [] clean).0 in
    let distinct = (drop_near_duplicates o single).0 in
    omega (
      arith,
      drop_noise-length o loaded.units,
      drop_exact_duplicates-length o [] clean,
      drop_near_duplicates-length o single,
      merge_fragments-length o distinct,
    )
