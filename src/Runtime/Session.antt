-- ===== src/Runtime/Session.antt =====
-- Sessions and their manager (runtime/session.py). The identifier of a new session is an argument,
-- and `format` is Python's formatting of the number of a request.
pub mod Cleanup
use leanlm.Common.{
  ℕ, ◌+◌, String, str_append, Bool, true, false, not, Option, none, some, List, [], ◌∷◌, ◌++◌, map,
  str_eq, if◌then◌else◌, keep, length,
}

pub record Session : Type 0 where
  pub session_id : String
  pub profile_id : String
  pub request_count : ℕ
  pub history : List String
  pub is_closed : Bool

-- `_sessions`, in the order of insertion.
abbrev pub SessionManager : Type 0
SessionManager = List (String × Session)

abbrev new_session : String → String → Session
new_session sid profile = record {
  session_id = sid;
  profile_id = profile;
  request_count = 0;
  history = [];
  is_closed = false;
}

-- `self._sessions[sid] = session`
abbrev pub put : String → Session → SessionManager → SessionManager
put sid s [] = (sid, s) ∷ []
put sid s ((k, x) ∷ m) =
    let rest = put sid s m in if str_eq k sid then (k, s) ∷ m else (k, x) ∷ rest

unfoldable pub create : String → String → SessionManager → SessionManager
create sid profile m = put sid (new_session sid profile) m

unfoldable pub get : String → SessionManager → Option Session
get sid [] = none
get sid ((k, s) ∷ m) = let rest = get sid m in if str_eq k sid then some s else rest

-- What happens to the session object that the manager holds under the identifier.
abbrev update : (Session → Session) → String → SessionManager → SessionManager
update f sid [] = []
update f sid ((k, s) ∷ m) =
    let rest = update f sid m in if str_eq k sid then (k, f s) ∷ m else (k, s) ∷ rest

unfoldable pub close : String → SessionManager → SessionManager
close sid m = update (λ s. record s { is_closed = true }) sid m

unfoldable pub active : SessionManager → List Session
active [] = []
active ((k, s) ∷ m) = let rest = active m in if s.is_closed then rest else s ∷ rest

-- The manager without the closed sessions, and how many they were.
unfoldable pub cleanup : SessionManager → SessionManager × ℕ
cleanup [] = ([], 0)
cleanup ((k, s) ∷ m) =
    let (rest, closed) = cleanup m in
    if s.is_closed then (rest, closed + 1) else ((k, s) ∷ rest, closed)

-- f"{session}#{index:04d}"
abbrev pub request_id : (ℕ → String) → String → ℕ → String
request_id format session index = str_append session (str_append "#" (format index))

unfoldable pub next_request_id : (ℕ → String) → Session → String × Session
next_request_id format s =
    let rid = request_id format s.session_id (s.request_count + 1) in
    (rid, record s { request_count = s.request_count + 1; history = s.history ++ rid ∷ [] })
