-- ===== src/Contracts/Capability/Registry.antt =====
-- What the registry (contracts/capability.py) holds after capabilities have been registered.
use text.Mathlib.TextPositions.{eq_refl}
use leanlm.Common.{
  String, ◌≡◌, refl, sym, ap, subst, true, false, none, some, List, [], ◌∷◌, ◌++◌, map, arith,
  eq_iff, str_eq, if◌then◌else◌, All, append-nil, append_assoc, map-append, Bool-cases,
  Option-cases, inl, inr,
}
use leanlm.Shared.Errors.{Result, ok, Result-cases, ◌>>=◌}
use leanlm.Contracts.Capability.{
  Capability, CapabilityRegistry, empty_registry, owns, lookup, register, get, owners, for_stage,
  specs, specs_of,
}

abbrev pub id_of : Capability → String
id_of c = c.spec.capability_id

abbrev pub entry_of : Capability → String × Capability
entry_of c = (id_of c, c)

abbrev pub entries : List Capability → List (String × Capability)
entries cs = map entry_of cs

-- Registration of a list in its order; it stops at the first error.
abbrev pub register_all : List Capability → CapabilityRegistry → Result CapabilityRegistry
register_all [] r = ok r
register_all (c ∷ cs) r = register c r >>= register_all cs

-- No two capabilities have one id.
abbrev Distinct : List Capability → Type 0
Distinct [] = Unit
Distinct (c ∷ cs) = (lookup (id_of c) (entries cs) ≡ none) × Distinct cs

lookup-snoc :
    (k : String) (m : List (String × Capability)) (j : String) (c : Capability)
    → lookup k (m ++ (j, c) ∷ [])
      ≡ elim (lookup k m) [ some x ↦ some x | none ↦ if str_eq j k then some c else none ]
unfolding lookup
lookup-snoc k [] j c = ground arith
lookup-snoc k ((i, d) ∷ m) j c = ground (arith, lookup-snoc k m j c)

-- `lookup` in a map with two entries in front agrees on absence.
lookup-cons-none :
    (k : String) (c : Capability) (m : List (String × Capability))
    → lookup k ((id_of c, c) ∷ m) ≡ none
    → (str_eq (id_of c) k ≡ false) × (lookup k m ≡ none)
unfolding lookup
lookup-cons-none k c m h = ground arith

Distinct-snoc :
    (cs : List Capability) (c : Capability)
    → Distinct cs
    → lookup (id_of c) (entries cs) ≡ none
    → Distinct (cs ++ c ∷ [])
unfolding lookup
Distinct-snoc [] c d h = (refl, tt)
Distinct-snoc (x ∷ cs) c d h =
    let (other, rest) = lookup-cons-none (id_of c) x (entries cs) h in
    let swapped : str_eq (id_of c) (id_of x) ≡ false =
      ground (arith, eq_iff (id_of c) (id_of x), eq_iff (id_of x) (id_of c)) in
    (
      rw (map-append entry_of cs (c ∷ []))
          (rw (lookup-snoc (id_of x) (entries cs) (id_of c) c) (ground arith)),
      Distinct-snoc cs c d.1 rest,
    )

found_after :
    (c d : Capability) (cs : List Capability)
    → lookup (id_of c) (entries cs) ≡ none
    → lookup (id_of d) (entries cs) ≡ some d
    → lookup (id_of d) (entries (c ∷ cs)) ≡ some d
unfolding lookup
found_after c d cs absent found = elim (Bool-cases (str_eq (id_of c) (id_of d))) [
  | inr other ↦ rw other found
  | inl same ↦ let e = (eq_iff (id_of c) (id_of d)).0 same in cc (ap (λ k. lookup k (entries cs)) e)
]

found_after-All :
    (c : Capability) (cs ds : List Capability)
    → lookup (id_of c) (entries cs) ≡ none
    → All (λ d. lookup (id_of d) (entries cs) ≡ some d) ds
    → All (λ d. lookup (id_of d) (entries (c ∷ cs)) ≡ some d) ds
found_after-All c cs [] absent h = tt
found_after-All c cs (d ∷ ds) absent h =
    (found_after c d cs absent h.0, found_after-All c cs ds absent h.1)

Distinct-found :
    (cs : List Capability) → Distinct cs → All (λ d. lookup (id_of d) (entries cs) ≡ some d) cs
unfolding lookup
Distinct-found [] d = tt
Distinct-found (c ∷ cs) d =
    (rw (eq_refl (id_of c)), found_after-All c cs cs d.0 (Distinct-found cs d.1))

specs_of-found :
    (m : List (String × Capability)) (cs : List Capability)
    → All (λ d. lookup (id_of d) m ≡ some d) cs
    → specs_of (map id_of cs) m ≡ ok (map (λ c. c.spec) cs)
unfolding specs_of
specs_of-found m [] h = refl
specs_of-found m (c ∷ cs) h = ground (arith, specs_of-found m cs h.1)

abbrev registry_of : List Capability → CapabilityRegistry
registry_of cs = record { by_id = entries cs; order = map id_of cs }

register-registry_of :
    (cs : List Capability) (c : Capability) {r : CapabilityRegistry}
    → register c (registry_of cs) ≡ ok r
    → (r ≡ registry_of (cs ++ c ∷ [])) × (lookup (id_of c) (entries cs) ≡ none)
unfolding register
register-registry_of cs c h = elim (Option-cases (lookup (id_of c) (entries cs))) [
  | inl absent ↦ ground (arith, map-append entry_of cs (c ∷ []), map-append id_of cs (c ∷ []))
  | inr (d, present) ↦ ground arith
]

register_all-registry_of :
    (cs done : List Capability) {r : CapabilityRegistry}
    → Distinct done
    → register_all cs (registry_of done) ≡ ok r
    → (r ≡ registry_of (done ++ cs)) × Distinct (done ++ cs)
register_all-registry_of [] done d h = rw (append-nil done) (ground arith, d)
register_all-registry_of (c ∷ cs) done {r} d h =
    elim (Result-cases (register c (registry_of done))) [
      | inr (e, refused) ↦ ground arith
      | inl (next, accepted) ↦
          let (same, absent) = register-registry_of done c accepted in
          let rest : register_all cs (registry_of (done ++ c ∷ [])) ≡ ok r =
            rw same at (rw accepted at h) in
          rw (sym (append_assoc done (c ∷ []) cs))
            (register_all-registry_of cs (done ++ c ∷ []) (Distinct-snoc done c d absent) rest)
    ]

get-All :
    (cs ds : List Capability)
    → All (λ d. lookup (id_of d) (entries cs) ≡ some d) ds
    → All (λ c. get (id_of c) (registry_of cs) ≡ ok c) ds
unfolding get
get-All cs [] h = tt
get-All cs (d ∷ ds) h = (rw (get, h.0), get-All cs ds h.1)

-- After any registrations that raise nothing, `specs` returns the specifications of exactly the
-- registered capabilities in the order of registration, and `get` returns each of them by its id.
register_all-specs :
    (cs : List Capability) (r : CapabilityRegistry)
    → register_all cs empty_registry ≡ ok r
    → (specs r ≡ ok (map (λ c. c.spec) cs)) × All (λ c. get (id_of c) r ≡ ok c) cs
unfolding specs
register_all-specs cs r h =
    let (same, distinct) = register_all-registry_of cs [] tt h in
    let found = Distinct-found cs distinct in
    rw same (specs_of-found (entries cs) cs found, get-All cs cs found)

-- Nothing in a part of the registry owns the stage.
abbrev pub NoOwner : String → List (String × Capability) → Type 0
NoOwner stage m = All (λ e. owns (e.1).spec stage ≡ false) m

owners-nil :
    (stage : String) (m : List (String × Capability)) → owners stage m ≡ [] → NoOwner stage m
unfolding owners
owners-nil stage [] h = tt
owners-nil stage ((j, c) ∷ m) h = elim (Bool-cases (owns c.spec stage)) [
  | inl mine ↦ cc (rw mine at h)
  | inr other ↦ (other, owners-nil stage m (rw other at h))
]

-- Where a stage has its owner in the registry, and nothing else owns it.
pub record IsSoleOwner (stage : String) (c : Capability) (m : List (String × Capability))
    : Type 0 where
  pub before : List (String × Capability)
  pub key : String
  pub after : List (String × Capability)
  pub split : m ≡ before ++ (key, c) ∷ after
  pub owning : owns c.spec stage ≡ true
  pub none_before : NoOwner stage before
  pub none_after : NoOwner stage after

owners-sole :
    (stage : String) (c : Capability) (m : List (String × Capability))
    → owners stage m ≡ c ∷ []
    → IsSoleOwner stage c m
unfolding owners
owners-sole stage c [] h = cc
owners-sole stage c ((j, d) ∷ m) h = elim (Bool-cases (owns d.spec stage)) [
  | inl mine ↦
      let only : d ∷ owners stage m ≡ c ∷ [] = rw mine at h in
      let same : d ≡ c = cc only in
      subst (λ x. IsSoleOwner stage x ((j, d) ∷ m)) same
        (record {
          before = [];
          key = j;
          after = m;
          split = refl;
          owning = mine;
          none_before = tt;
          none_after = owners-nil stage m (cc only);
        })
  | inr other ↦
      let rest = owners-sole stage c m (rw other at h) in
      record {
        before = (j, d) ∷ rest.before;
        key = rest.key;
        after = rest.after;
        split = ap (λ l. (j, d) ∷ l) rest.split;
        owning = rest.owning;
        none_before = (other, rest.none_before);
        none_after = rest.none_after;
      }
]

-- When `for_stage` returns a capability, that one is registered and owns the stage, and no other
-- entry of the registry owns it.
for_stage-sole :
    (stage : String) (r : CapabilityRegistry) (c : Capability)
    → for_stage stage r ≡ ok (some c)
    → IsSoleOwner stage c r.by_id
unfolding for_stage
for_stage-sole stage r c h = owners-sole stage c r.by_id (ground arith)

-- When `for_stage` returns nothing, no entry of the registry owns the stage.
for_stage-none :
    (stage : String) (r : CapabilityRegistry) → for_stage stage r ≡ ok none → NoOwner stage r.by_id
unfolding for_stage
for_stage-none stage r h = owners-nil stage r.by_id (ground arith)
