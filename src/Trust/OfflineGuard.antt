-- ===== src/Trust/OfflineGuard.antt =====
-- The offline guard (trust/offline_guard.py): what it installs in the socket module, and what it
-- does with each attempt to reach the network.
pub mod Hosts
pub mod Blocking
use leanlm.Common.{
  String, Bool, true, false, not, ◌||◌, ◌&&◌, ◌==◌, Option, none, some, List, [], ◌∷◌, ◌++◌, any,
  if◌then◌else◌,
}
use leanlm.Shared.Text.{starts_with, Text, codes, same_text}

abbrev loopback_prefixes : List Text
loopback_prefixes = codes "127." ∷ codes "::1" ∷ codes "localhost" ∷ codes "0.0.0.0" ∷ []

unfoldable pub is_loopback : Text → Bool
unfolding same_text
is_loopback host =
    any (λ prefix. starts_with host prefix || same_text host prefix) loopback_prefixes

pub data Attempt : Type 0 where
  connect : Text → String → Attempt
  resolve : Text → String → Attempt

abbrev pub host_of : Attempt → Text
host_of (connect host port) = host
host_of (resolve host port) = host

pub record OfflineViolation : Type 0 where
  pub host : Text
  pub port : String
  pub detail : String

-- What stands in the socket module: the system's function, another patch, or the guard's.
pub data Hook : Type 0 where
  system other_patch guarded : Hook

pub record Sockets : Type 0 where
  pub connect_hook : Hook
  pub getaddrinfo_hook : Hook

pub record OfflineGuard : Type 0 where
  pub enabled : Bool
  pub strict : Bool
  pub violations : List OfflineViolation
  pub original_connect : Option Hook
  pub original_getaddrinfo : Option Hook

-- `__enter__`
unfoldable pub enter : OfflineGuard → Sockets → OfflineGuard × Sockets
enter g s = if not g.enabled then (g, s) else (
  record g {
    original_connect = some s.connect_hook;
    original_getaddrinfo = some s.getaddrinfo_hook;
  },
  record { connect_hook = guarded; getaddrinfo_hook = guarded },
)

abbrev pub restored : Option Hook → Hook → Hook
restored none now = now
restored (some h) now = h

-- `__exit__`
unfoldable pub exit : OfflineGuard → Sockets → OfflineGuard × Sockets
exit g s = (
  record g { original_connect = none; original_getaddrinfo = none },
  record {
    connect_hook = restored g.original_connect s.connect_hook;
    getaddrinfo_hook = restored g.original_getaddrinfo s.getaddrinfo_hook;
  },
)

-- How an attempt ends: passed on to the original function, refused with `OfflineBreach`, or
-- answered with `None`.
pub data Outcome : Type 0 where
  passed_on refused ignored : Outcome

abbrev pub is_refused : Outcome → Bool
is_refused refused = true
is_refused _ = false

abbrev pub violation_of : Attempt → OfflineViolation
violation_of (connect host port) = record {
  host = host;
  port = port;
  detail = "socket.connect blocked";
}
violation_of (resolve host port) = record {
  host = host;
  port = port;
  detail = "DNS resolution blocked";
}

-- `guarded_connect` returns `None` when the guard is not strict; `guarded_getaddrinfo` goes on.
abbrev lenient : Attempt → Outcome
lenient (connect host port) = ignored
lenient (resolve host port) = passed_on

-- The two guarded functions.
unfoldable pub attempt : Attempt → OfflineGuard → Outcome × OfflineGuard
unfolding is_loopback
attempt a g = if is_loopback (host_of a) then (passed_on, g) else (
  if g.strict then refused else lenient a,
  record g { violations = g.violations ++ violation_of a ∷ [] },
)

-- A session: the attempts one after the other, each with its outcome.
unfoldable pub attempt_all : List Attempt → OfflineGuard → List (Attempt × Outcome) × OfflineGuard
unfolding attempt
attempt_all [] g = ([], g)
attempt_all (a ∷ rest) g =
    let (outcome, g') = attempt a g in
    let (outcomes, last) = attempt_all rest g' in ((a, outcome) ∷ outcomes, last)
