-- ===== src/Performance/Thermal/Hottest.antt =====
-- Which thermal zone is read (packages/performance/services.py).
use leanlm.Common.{
  ℕ, ◌≤◌, ltb, ◌≡◌, refl, ◌⊎◌, inl, inr, String, true, false, Option, none, some, List, [], ◌∷◌,
  Bool-cases, subst, sym, str_append, arith,
}
use leanlm.Performance.Thermal.{
  Zone, milli_celsius, is_plausible, take_zone, scan_zones, or_unavailable, read_temperature,
}

-- No plausible zone of the list is hotter than `t`.
abbrev pub NoneAbove : ℕ → List (Option Zone) → Type 0
NoneAbove t [] = Unit
NoneAbove t (none ∷ zs) = NoneAbove t zs
NoneAbove t (some z ∷ zs) =
    ((is_plausible (milli_celsius z.raw) ≡ false) ⊎ (milli_celsius z.raw ≤ t)) × NoneAbove t zs

abbrev pub NonePlausible : List (Option Zone) → Type 0
NonePlausible [] = Unit
NonePlausible (none ∷ zs) = NonePlausible zs
NonePlausible (some z ∷ zs) = (is_plausible (milli_celsius z.raw) ≡ false) × NonePlausible zs

-- A plausible zone of the list has this temperature and name.
abbrev pub IsRead : ℕ → String → List (Option Zone) → Type 0
IsRead t source [] = ⊥
IsRead t source (none ∷ zs) = IsRead t source zs
IsRead t source (some z ∷ zs) =
    (is_plausible t ≡ true) × (t ≡ milli_celsius z.raw) × (source ≡ str_append "sysfs:" z.zone_type)
    ⊎ IsRead t source zs

abbrev AtLeast : Option (ℕ × String) → ℕ → Type 0
AtLeast none t = Unit
AtLeast (some (b, _)) t = b ≤ t

abbrev Scanned : List (Option Zone) → Option (ℕ × String) → Option (ℕ × String) → Type 0
Scanned zs best none = (best ≡ none) × NonePlausible zs
Scanned zs best (some (t, source)) =
    NoneAbove t zs × AtLeast best t × ((best ≡ some (t, source)) ⊎ IsRead t source zs)

-- The zone is kept, with what it is worth.
abbrev Kept : Zone → Option (ℕ × String) → Option (ℕ × String) → Type 0
Kept z best next =
    (is_plausible (milli_celsius z.raw) ≡ true)
    × (next ≡ some (milli_celsius z.raw, str_append "sysfs:" z.zone_type))
    × AtLeast best (milli_celsius z.raw)

-- The zone is passed over: it is not plausible, or not hotter.
abbrev Passed : Zone → Option (ℕ × String) → Option (ℕ × String) → Type 0
Passed z none next = (next ≡ none) × (is_plausible (milli_celsius z.raw) ≡ false)
Passed z (some (b, s)) next =
    (next ≡ some (b, s))
    × ((is_plausible (milli_celsius z.raw) ≡ false) ⊎ (milli_celsius z.raw ≤ b))

take_zone-cases :
    (z : Zone) (best : Option (ℕ × String))
    → Kept z best (take_zone (some z) best) ⊎ Passed z best (take_zone (some z) best)
take_zone-cases z none = elim (Bool-cases (is_plausible (milli_celsius z.raw))) [
  | inl e ↦ inl (e, rw e refl, tt)
  | inr e ↦ inr (rw e refl, e)
]
take_zone-cases z (some (b, s)) = elim (Bool-cases (is_plausible (milli_celsius z.raw))) [
  | inr e ↦ inr (rw e refl, inl e)
  | inl e ↦ elim (Bool-cases (ltb b (milli_celsius z.raw))) [
    | inl above ↦ inl (e, rw (e, above) refl, ground (arith, above))
    | inr below ↦ inr (rw (e, below) refl, inr (ground (arith, below)))
  ]
]

AtLeast-trans : (best : Option (ℕ × String)) (m t : ℕ) → AtLeast best m → m ≤ t → AtLeast best t
AtLeast-trans none m t h le = tt
AtLeast-trans (some (b, s)) m t h le = omega (arith, h, le)

abbrev worth : Zone → ℕ × String
worth z = (milli_celsius z.raw, str_append "sysfs:" z.zone_type)

after-Kept :
    (z : Zone) (zs : List (Option Zone)) (best out : Option (ℕ × String))
    → is_plausible (milli_celsius z.raw) ≡ true
    → AtLeast best (milli_celsius z.raw)
    → Scanned zs (some (worth z)) out
    → Scanned (some z ∷ zs) best out
after-Kept z zs best none p l (e, rest) = cc e
after-Kept z zs best (some (t, s)) p l (above, le, from) = (
  (inr le, above),
  AtLeast-trans best (milli_celsius z.raw) t l le,
  elim from [
    | inr read ↦ inr (inr read)
    | inl e ↦
        let hot : t ≡ milli_celsius z.raw = cc e in
        inr (inl (subst (λ x. is_plausible x ≡ true) (sym hot) p, hot, cc e))
  ],
)

after-Passed :
    (z : Zone) (zs : List (Option Zone)) (best out : Option (ℕ × String))
    → Passed z best best
    → Scanned zs best out
    → Scanned (some z ∷ zs) best out
after-Passed z zs none none (_, low) (e, rest) = (e, (low, rest))
after-Passed z zs (some b) none low (e, rest) = cc e
after-Passed z zs none (some (t, s)) (_, low) (above, le, from) =
    ((inl low, above), le, elim from [ inl e ↦ inl e | inr r ↦ inr (inr r) ])
after-Passed z zs (some (b, c)) (some (t, s)) (_, low) (above, le, from) = (
  (elim low [ inl no_heat ↦ inl no_heat | inr below ↦ inr (omega (arith, below, le)) ], above),
  le,
  elim from [ inl e ↦ inl e | inr r ↦ inr (inr r) ],
)

Passed-eq : (z : Zone) (best next : Option (ℕ × String)) → Passed z best next → next ≡ best
Passed-eq z none next h = h.0
Passed-eq z (some (b, s)) next h = h.0

scan_zones-Scanned :
    (zs : List (Option Zone)) (best : Option (ℕ × String)) → Scanned zs best (scan_zones zs best)
unfolding scan_zones
scan_zones-Scanned [] none = (refl, tt)
scan_zones-Scanned [] (some (t, s)) = (tt, omega arith, inl refl)
scan_zones-Scanned (none ∷ zs) best = pass_none zs best _ (scan_zones-Scanned zs best)
  where
    pass_none :
        (zs : List (Option Zone)) (best out : Option (ℕ × String))
        → Scanned zs best out
        → Scanned (none ∷ zs) best out
    pass_none zs best none h = h
    pass_none zs best (some (t, s)) h = h
scan_zones-Scanned (some z ∷ zs) best = elim (take_zone-cases z best) [
  | inl (p, is, l) ↦ after-Kept z zs best (scan_zones zs (take_zone (some z) best)) p l (
      subst (λ n. Scanned zs n (scan_zones zs (take_zone (some z) best))) is
        (scan_zones-Scanned zs (take_zone (some z) best)))
  | inr low ↦
      let same = Passed-eq z best (take_zone (some z) best) low in
      after-Passed z zs best (scan_zones zs (take_zone (some z) best))
        (subst (Passed z best) same low)
        (subst (λ n. Scanned zs n (scan_zones zs (take_zone (some z) best))) same
          (scan_zones-Scanned zs (take_zone (some z) best)))
]

-- The reading is the rounded temperature of the hottest plausible zone.
abbrev pub IsHottest : (ℕ → ℕ) → List (Option Zone) → Option ℕ × String → Type 0
IsHottest round zs (none, source) = NonePlausible zs × (source ≡ "unavailable")
IsHottest round zs (some r, source) = (t : ℕ) × (r ≡ round t) × NoneAbove t zs × IsRead t source zs

or_unavailable-IsHottest :
    (round : ℕ → ℕ) (zs : List (Option Zone)) (out : Option (ℕ × String))
    → Scanned zs none out
    → IsHottest round zs (or_unavailable round out)
or_unavailable-IsHottest round zs none h = (h.1, refl)
or_unavailable-IsHottest round zs (some (t, s)) (above, _, from) =
    (t, refl, above, elim from [ inl e ↦ absurd (cc e) | inr r ↦ r ])

-- Without a sensor that `psutil` reads, the temperature is the rounded one of a plausible thermal
-- zone than which, before rounding, no other is hotter, with its name as the source; it is `none`,
-- with the source "unavailable", just when no zone can be read or is plausible.
pub read_temperature-IsHottest :
    (round : ℕ → ℕ) (zs : List (Option Zone)) → IsHottest round zs (read_temperature round none zs)
unfolding read_temperature
read_temperature-IsHottest round zs =
    or_unavailable-IsHottest round zs (scan_zones zs none) (scan_zones-Scanned zs none)
