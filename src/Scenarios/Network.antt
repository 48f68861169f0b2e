-- ===== src/Scenarios/Network.antt =====
-- A session under the offline guard: one local and one remote address.
use leanlm.Common.{true, none, List, [], ◌∷◌}
use leanlm.Shared.Text.{codes}
use leanlm.Trust.OfflineGuard.{
  Attempt, connect, resolve, Sockets, system, other_patch, OfflineGuard, attempt_all,
}
use leanlm.Trust.OfflineGuard.Blocking.{IsAnswered, attempt_all-IsGuarded}

abbrev guard : OfflineGuard
guard = record {
  enabled = true;
  strict = true;
  violations = [];
  original_connect = none;
  original_getaddrinfo = none;
}

abbrev sockets : Sockets
sockets = record { connect_hook = system; getaddrinfo_hook = other_patch }

abbrev session : List Attempt
session = connect (codes "127.0.0.1") "8080" ∷ resolve (codes "example.com") "443" ∷ []

attempt_all-IsGuarded_example : IsAnswered session guard (attempt_all session guard)
attempt_all-IsGuarded_example = attempt_all-IsGuarded session guard
