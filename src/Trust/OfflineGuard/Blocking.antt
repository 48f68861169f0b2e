-- ===== src/Trust/OfflineGuard/Blocking.antt =====
-- What a guard (trust/offline_guard.py) lets through, what it reports, and what it leaves.
use leanlm.Common.{
  ◌≡◌, refl, sym, ap, ap₂, subst, Bool, ◌∙◌, true, false, none, some, List, [], ◌∷◌, ◌++◌, map,
  arith, append-nil, append_assoc, Bool-cases, inl, inr, ◌⊎◌, All,
}
use leanlm.Trust.OfflineGuard.Hosts.{IsLocal, is_loopback-IsLocal}
use leanlm.Trust.OfflineGuard.{
  Attempt, connect, resolve, OfflineViolation, ignored, host_of, is_loopback, violation_of, Sockets,
  Hook, guarded, restored, OfflineGuard, enter, exit, Outcome, refused, passed_on, attempt,
  attempt_all,
}

-- What happens to an attempt on a host that is not local.
abbrev pub held_back : Bool → Attempt → Outcome
held_back true a = refused
held_back false (connect host port) = ignored
held_back false (resolve host port) = passed_on

-- What a guard does with one attempt.
abbrev pub IsGuarded : Bool → Attempt × Outcome → Type 0
IsGuarded strict (a, outcome) =
    (IsLocal (host_of a) × (outcome ≡ passed_on))
    ⊎ ((¬ IsLocal (host_of a)) × (outcome ≡ held_back strict a))

-- What is reported of the attempts, in their order.
abbrev pub IsReported : List Attempt → List OfflineViolation → Type 0
IsReported [] logged = logged ≡ []
IsReported (a ∷ tries) logged =
    (IsLocal (host_of a) × IsReported tries logged)
    ⊎ ((¬ IsLocal (host_of a))
        × ((rest : List OfflineViolation) × (logged ≡ violation_of a ∷ rest)
            × IsReported tries rest))

attempt-hooks :
    (a : Attempt) (g : OfflineGuard)
    → (((attempt a g).1).original_connect ≡ g.original_connect)
      × (((attempt a g).1).original_getaddrinfo ≡ g.original_getaddrinfo)
unfolding attempt
attempt-hooks a g = elim (Bool-cases (is_loopback (host_of a))) [
  | inl local ↦ rw local (refl, refl)
  | inr far ↦ rw far (refl, refl)
]

attempt_all-hooks :
    (tries : List Attempt) (g : OfflineGuard)
    → (((attempt_all tries g).1).original_connect ≡ g.original_connect)
      × (((attempt_all tries g).1).original_getaddrinfo ≡ g.original_getaddrinfo)
unfolding attempt_all
attempt_all-hooks [] g = (refl, refl)
attempt_all-hooks (a ∷ tries) g =
    let (c, d) = attempt_all-hooks tries (attempt a g).1 in
    let (e, f) = attempt-hooks a g in (c ∙ e, d ∙ f)

not-IsLocal : (a : Attempt) → is_loopback (host_of a) ≡ false → ¬ IsLocal (host_of a)
not-IsLocal a far h = cc (far, (is_loopback-IsLocal (host_of a)).1 h)

blocks :
    (a : Attempt) (g : OfflineGuard)
    → is_loopback (host_of a) ≡ false
    → ((attempt a g).0 ≡ held_back g.strict a)
      × ((attempt a g).1 ≡ record g { violations = g.violations ++ violation_of a ∷ [] })
unfolding attempt
blocks (connect host port) g far = elim (Bool-cases g.strict) [
  | inl strict ↦ (rw (far, strict) refl, rw far refl)
  | inr lenient ↦ (rw (far, lenient) refl, rw far refl)
]
blocks (resolve host port) g far = elim (Bool-cases g.strict) [
  | inl strict ↦ (rw (far, strict) refl, rw far refl)
  | inr lenient ↦ (rw (far, lenient) refl, rw far refl)
]

passes :
    (a : Attempt) (g : OfflineGuard) → is_loopback (host_of a) ≡ true → attempt a g ≡ (passed_on, g)
unfolding attempt
passes a g near = rw near refl

-- What a guard does with a session.
abbrev pub IsAnswered :
    List Attempt → OfflineGuard → List (Attempt × Outcome) × OfflineGuard → Type 0
IsAnswered tries g out =
    (map (λ t. t.0) out.0 ≡ tries)
    × All (IsGuarded g.strict) out.0
    × ((logged : List OfflineViolation) × (out.1.violations ≡ g.violations ++ logged)
        × IsReported tries logged)

-- In any sequence of attempts, a guard answers each: one whose host begins with "127.", "::1",
-- "localhost" or "0.0.0.0" is passed on; any other is refused by a strict guard, while one that is
-- not strict ignores a connection and passes a resolution on. Strict or not, the guard adds a
-- violation for each attempt of the second kind, in their order, and none for the first.
pub attempt_all-IsGuarded :
    (tries : List Attempt) (g : OfflineGuard) → IsAnswered tries g (attempt_all tries g)
unfolding attempt_all
attempt_all-IsGuarded [] g = (refl, tt, ([], sym (append-nil g.violations), refl))
attempt_all-IsGuarded (a ∷ tries) g = elim (Bool-cases (is_loopback (host_of a))) [
  | inl near ↦
      let e = passes a g near in
      let local = (is_loopback-IsLocal (host_of a)).0 near in
      let (same, guarded_all, (logged, grown, reported)) = attempt_all-IsGuarded tries g in
      subst
        (λ (p : Outcome × OfflineGuard).
          IsAnswered (a ∷ tries) g
            ((a, p.0) ∷ (attempt_all tries p.1).0, (attempt_all tries p.1).1))
        (sym e)
        (
          ap (λ xs. a ∷ xs) same,
          (inl (local, refl), guarded_all),
          (logged, grown, inl (local, reported)),
        )
  | inr far ↦
      let (out, kept) = blocks a g far in
      let g' = record g { violations = g.violations ++ violation_of a ∷ [] } in
      let (same, guarded_all, (logged, grown, reported)) = attempt_all-IsGuarded tries g' in
      subst
        (λ (h : OfflineGuard).
          IsAnswered (a ∷ tries) g
            ((a, (attempt a g).0) ∷ (attempt_all tries h).0, (attempt_all tries h).1))
        (sym kept)
        (
          ap (λ xs. a ∷ xs) same,
          (inr (not-IsLocal a far, out), guarded_all),
          (
            violation_of a ∷ logged,
            grown ∙ append_assoc g.violations (violation_of a ∷ []) logged,
            inr (not-IsLocal a far, (logged, refl, reported)),
          ),
        )
]

abbrev the_sockets : Hook → Hook → Sockets
the_sockets c d = record { connect_hook = c; getaddrinfo_hook = d }

-- The guard and the socket module inside.
abbrev armed : OfflineGuard → Sockets → OfflineGuard
armed g s = record g {
  original_connect = some s.connect_hook;
  original_getaddrinfo = some s.getaddrinfo_hook;
}

enter_on :
    (g : OfflineGuard) (s : Sockets)
    → g.enabled ≡ true
    → enter g s ≡ (armed g s, record { connect_hook = guarded; getaddrinfo_hook = guarded })
unfolding enter
enter_on g s on = ground arith

enter_off : (g : OfflineGuard) (s : Sockets) → g.enabled ≡ false → enter g s ≡ (g, s)
unfolding enter
enter_off g s off = ground arith

-- `exit` puts back what the guard remembers, or leaves the module alone.
exit_on :
    (g : OfflineGuard) (s now : Sockets)
    → g.original_connect ≡ some s.connect_hook
    → g.original_getaddrinfo ≡ some s.getaddrinfo_hook
    → (exit g now).1 ≡ s
unfolding exit
exit_on g s now c d =
    ap₂ (λ x y. the_sockets (restored x now.connect_hook) (restored y now.getaddrinfo_hook)) c d

exit_off :
    (g : OfflineGuard) (now : Sockets)
    → g.original_connect ≡ none
    → g.original_getaddrinfo ≡ none
    → (exit g now).1 ≡ now
unfolding exit
exit_off g now c d =
    ap₂ (λ x y. the_sockets (restored x now.connect_hook) (restored y now.getaddrinfo_hook)) c d

-- Leaving the guard undoes entering it: after any attempts, the socket module has the functions it
-- had before, if the guard was not entered already.
pub exit-enter :
    (g : OfflineGuard) (s : Sockets) (tries : List Attempt)
    → g.original_connect ≡ none
    → g.original_getaddrinfo ≡ none
    → (exit (attempt_all tries (enter g s).0).1 (enter g s).1).1 ≡ s
unfolding exit
exit-enter g s tries c d = elim (Bool-cases g.enabled) [
  | inr off ↦
      let (x, y) = attempt_all-hooks tries g in
      subst (λ p. (exit (attempt_all tries p.0).1 p.1).1 ≡ s) (sym (enter_off g s off))
        (exit_off (attempt_all tries g).1 s (x ∙ c) (y ∙ d))
  | inl on ↦
      let (x, y) = attempt_all-hooks tries (armed g s) in
      subst (λ p. (exit (attempt_all tries p.0).1 p.1).1 ≡ s) (sym (enter_on g s on))
        (exit_on (attempt_all tries (armed g s)).1 s _ x y)
]
