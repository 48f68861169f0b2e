-- ===== src/Trust/OfflineGuard/Hosts.antt =====
-- The hosts that the guard (trust/offline_guard.py, `_is_loopback`) takes for local.
use leanlm.Common.{
  ◌≡◌, refl, ap, ◌∙◌, ◌==◌, Bool, true, false, ◌||◌, ◌⊎◌, inl, inr, [], ◌∷◌, ◌++◌, ◌↔◌, Bool-cases,
  arith,
}
use leanlm.Shared.Text.{Text, codes, starts_with, same_text}
use leanlm.Trust.OfflineGuard.{is_loopback}

abbrev pub StartsWith : Text → Text → Type 0
StartsWith prefix host = (rest : Text) × (host ≡ prefix ++ rest)

-- The four kinds of host that pass.
abbrev pub IsLocal : Text → Type 0
IsLocal host =
    StartsWith (codes "127.") host
    ⊎ (StartsWith (codes "::1") host
        ⊎ (StartsWith (codes "localhost") host ⊎ StartsWith (codes "0.0.0.0") host))

starts_with-StartsWith :
    (host prefix : Text) → starts_with host prefix ≡ true → StartsWith prefix host
starts_with-StartsWith host [] h = (host, refl)
starts_with-StartsWith [] (p ∷ ps) h = absurd (cc h)
starts_with-StartsWith (x ∷ xs) (p ∷ ps) h = elim (Bool-cases (x == p)) [
  | inr other ↦ absurd (cc (rw other at h))
  | inl same ↦
      let here : x ≡ p = ground (arith, same) in
      let (rest, e) = starts_with-StartsWith xs ps (rw same at h) in (rest, cc (here, e))
]

starts_with-append : (prefix rest : Text) → starts_with (prefix ++ rest) prefix ≡ true
starts_with-append [] [] = refl
starts_with-append [] (c ∷ rest) = refl
starts_with-append (p ∷ ps) rest = ground (arith, starts_with-append ps rest)

same_text-starts_with :
    (host prefix : Text) → same_text host prefix ≡ true → starts_with host prefix ≡ true
unfolding same_text
same_text-starts_with host [] h = refl
same_text-starts_with [] (p ∷ ps) h = cc h
same_text-starts_with (x ∷ xs) (p ∷ ps) h = elim (Bool-cases (x == p)) [
  | inr other ↦ absurd (cc (rw other at h))
  | inl same ↦ rw same (same_text-starts_with xs ps (rw same at h))
]

or_same :
    (host prefix : Text)
    → (starts_with host prefix || same_text host prefix) ≡ true
    → starts_with host prefix ≡ true
or_same host prefix h = elim (Bool-cases (starts_with host prefix)) [
  | inl good ↦ good
  | inr bad ↦ same_text-starts_with host prefix (rw bad at h)
]

-- One of the four tests.
passes_prefix :
    (host prefix : Text)
    → (starts_with host prefix || same_text host prefix) ≡ true
    → StartsWith prefix host
passes_prefix host prefix h = starts_with-StartsWith host prefix (or_same host prefix h)

StartsWith-true :
    (host prefix : Text)
    → StartsWith prefix host
    → (starts_with host prefix || same_text host prefix) ≡ true
StartsWith-true host prefix (rest, e) =
    let good : starts_with host prefix ≡ true =
      ap (λ h. starts_with h prefix) e ∙ starts_with-append prefix rest in
    ap (λ b. b || same_text host prefix) good

any_of_four :
    (a b c d : Bool)
    → (a || (b || (c || (d || false)))) ≡ true
    → (a ≡ true) ⊎ ((b ≡ true) ⊎ ((c ≡ true) ⊎ (d ≡ true)))
any_of_four true b c d h = inl refl
any_of_four false true c d h = inr (inl refl)
any_of_four false false true d h = inr (inr (inl refl))
any_of_four false false false true h = inr (inr (inr refl))
any_of_four false false false false h = absurd (cc h)

four_of_any :
    (a b c d : Bool)
    → (a ≡ true) ⊎ ((b ≡ true) ⊎ ((c ≡ true) ⊎ (d ≡ true)))
    → (a || (b || (c || (d || false)))) ≡ true
four_of_any a b c d (inl e) = rw e refl
four_of_any true b c d h = refl
four_of_any false b c d (inr (inl e)) = rw e refl
four_of_any false true c d h = refl
four_of_any false false c d (inr (inr (inl e))) = rw e refl
four_of_any false false true d h = refl
four_of_any false false false d (inr (inr (inr e))) = rw e refl

abbrev test : Text → Text → Bool
test host prefix = starts_with host prefix || same_text host prefix

pub is_loopback-IsLocal : (host : Text) → (is_loopback host ≡ true) ↔ IsLocal host
unfolding is_loopback
is_loopback-IsLocal host =
    let a = codes "127." in
    let b = codes "::1" in
    let c = codes "localhost" in
    let d = codes "0.0.0.0" in
    (
      λ h. elim (any_of_four (test host a) (test host b) (test host c) (test host d) h) [
        | inl e ↦ inl (passes_prefix host a e)
        | inr (inl e) ↦ inr (inl (passes_prefix host b e))
        | inr (inr (inl e)) ↦ inr (inr (inl (passes_prefix host c e)))
        | inr (inr (inr e)) ↦ inr (inr (inr (passes_prefix host d e)))
      ],
      λ h. four_of_any (test host a) (test host b) (test host c) (test host d) (elim h [
        | inl e ↦ inl (StartsWith-true host a e)
        | inr (inl e) ↦ inr (inl (StartsWith-true host b e))
        | inr (inr (inl e)) ↦ inr (inr (inl (StartsWith-true host c e)))
        | inr (inr (inr e)) ↦ inr (inr (inr (StartsWith-true host d e)))
      ]),
    )
