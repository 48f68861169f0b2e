-- ===== src/Performance/Thermal.antt =====
-- The temperature of the machine (packages/performance/services.py, `_read_temperature`). A thermal
-- zone is what its two files hold; the value is an integer, and temperatures are in thousandths. A
-- negative value, which is passed over, counts as one that cannot be read. Python's `round(_, 2)`, on
-- thousandths, is a parameter.
pub mod Hottest
use leanlm.Common.{
  ℕ, ◌*◌, ltb, String, str_append, Bool, true, false, ◌&&◌, Option, none, some, List, [], ◌∷◌,
  is_empty, if◌then◌else◌,
}

-- `none` is a zone whose files cannot be read.
pub record Zone : Type 0 where
  pub zone_type : String
  pub raw : ℕ

-- `raw / 1000.0 if raw > 200 else raw`
unfoldable pub milli_celsius : ℕ → ℕ
milli_celsius raw = if ltb 200 raw then raw else raw * 1000

abbrev pub is_plausible : ℕ → Bool
is_plausible t = ltb 0 t && ltb t 130000

abbrev pub exceeds : ℕ → Option (ℕ × String) → Bool
exceeds t none = true
exceeds t (some (best, source)) = ltb best t

abbrev pub take_zone : Option Zone → Option (ℕ × String) → Option (ℕ × String)
take_zone none best = best
take_zone (some z) best =
    let t = milli_celsius z.raw in
    if is_plausible t && exceeds t best then some (t, str_append "sysfs:" z.zone_type) else best

-- The loop over the thermal zones.
unfoldable pub scan_zones : List (Option Zone) → Option (ℕ × String) → Option (ℕ × String)
unfolding milli_celsius
scan_zones [] best = best
scan_zones (z ∷ zs) best = scan_zones zs (take_zone z best)

module _ (round : ℕ → ℕ) where
  abbrev pub or_unavailable : Option (ℕ × String) → Option ℕ × String
  or_unavailable none = (none, "unavailable")
  or_unavailable (some (t, source)) = (some (round t), source)

  -- What `psutil` says, where it is there and has a sensor, and else the zones.
  unfoldable pub read_temperature : Option (ℕ × String) → List (Option Zone) → Option ℕ × String
  unfolding scan_zones
  read_temperature (some (t, source)) zones = (some (round t), source)
  read_temperature none zones = or_unavailable (scan_zones zones none)
