-- ===== src/Scenarios/Sessions.antt =====
-- A session and three of its requests.
use leanlm.Common.{zero, suc, ℕ, String, false, []}
use leanlm.Runtime.Session.{Session}

abbrev running : Session
running = record {
  session_id = "sess_1";
  profile_id = "balanced";
  request_count = 0;
  history = [];
  is_closed = false;
}

abbrev four_digits : ℕ → String
four_digits (suc zero) = "0001"
four_digits (suc (suc zero)) = "0002"
four_digits (suc (suc (suc zero))) = "0003"
four_digits _ = "0004"
