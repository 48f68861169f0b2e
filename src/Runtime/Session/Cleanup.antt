-- ===== src/Runtime/Session/Cleanup.antt =====
-- Cleaning up sessions and numbering requests (runtime/session.py).
use leanlm.Common.{
  ℕ, zero, suc, ◌+◌, String, ◌≡◌, refl, sym, ◌∙◌, List, [], ◌∷◌, ◌++◌, map, append-nil,
  append_assoc, arith, length, Bool-cases, inl, inr,
}
use leanlm.Runtime.Session.{Session, SessionManager, active, cleanup, request_id, next_request_id}

abbrev pub session_of : String × Session → Session
session_of e = e.1

-- Cleaning up keeps exactly the active sessions, in their order, and reports how many went; a
-- second clean-up finds nothing to do.
cleanup-active :
    (m : SessionManager)
    → (map session_of (cleanup m).0 ≡ active m)
      × (length (cleanup m).0 + (cleanup m).1 ≡ length m)
      × (cleanup (cleanup m).0 ≡ ((cleanup m).0, 0))
unfolding cleanup active
cleanup-active [] = (refl, refl, refl)
cleanup-active ((k, s) ∷ m) =
    let (kept, counted, again) = cleanup-active m in
    elim (Bool-cases s.is_closed) [
      | inl closed ↦ rw closed (kept, omega (arith, counted), again)
      | inr open_one ↦ (ground (arith, kept), ground (arith, counted), ground (arith, again))
    ]

abbrev pub requests : (ℕ → String) → ℕ → Session → Session
requests format zero s = s
requests format (suc n) s = requests format n (next_request_id format s).1

-- The identifiers with the numbers `from + 1`, `from + 2` and so on.
abbrev pub numbered : (ℕ → String) → String → ℕ → ℕ → List String
numbered format sid from zero = []
numbered format sid from (suc n) =
    request_id format sid (from + 1) ∷ numbered format sid (from + 1) n

-- A session numbers its requests without a gap from the count it has, keeps them all in its
-- history in that order, and never changes its own identifier.
requests-numbered :
    (format : ℕ → String) (n : ℕ) (s : Session)
    → ((requests format n s).history ≡ s.history ++ numbered format s.session_id s.request_count n)
      × ((requests format n s).request_count ≡ s.request_count + n)
      × ((requests format n s).session_id ≡ s.session_id)
unfolding next_request_id
requests-numbered format zero s = (sym (append-nil s.history), omega arith, refl)
requests-numbered format (suc n) s =
    let rid = request_id format s.session_id (s.request_count + 1) in
    let (h, c, i) = requests-numbered format n (next_request_id format s).1 in
    (
      h ∙ append_assoc s.history (rid ∷ []) (numbered format s.session_id (s.request_count + 1) n),
      omega (arith, c),
      i,
    )
