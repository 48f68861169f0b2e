-- ===== src/Performance/Sampler.antt =====
-- The peaks of the resource sampler (packages/performance/services.py, `ResourceSampler`). A
-- reading is what `sample` has measured, in hundredths, as it is rounded to two places; the
-- background thread, which the program never starts, would call `sample` like everyone else. A call
-- is one step, though the source has no lock around it.
pub mod Peaks
use leanlm.Common.{ℕ, max, Option, none, some, List, [], ◌∷◌}

pub record Reading : Type 0 where
  pub process_rss : ℕ
  pub cpu_percent : ℕ
  pub temperature : Option ℕ

pub record ResourceSampler : Type 0 where
  pub peak_rss : ℕ
  pub peak_cpu : ℕ
  pub peak_temp : Option ℕ

abbrev pub new_sampler : ResourceSampler
new_sampler = record { peak_rss = 0; peak_cpu = 0; peak_temp = none }

-- `self._peak_temp or 0.0`
abbrev or_zero : Option ℕ → ℕ
or_zero none = 0
or_zero (some t) = t

abbrev pub warmer : Option ℕ → Option ℕ → Option ℕ
warmer none peak = peak
warmer (some t) peak = some (max (or_zero peak) t)

-- The end of `sample`.
unfoldable pub sample : Reading → ResourceSampler → ResourceSampler
sample r s = record {
  peak_rss = max s.peak_rss r.process_rss;
  peak_cpu = max s.peak_cpu r.cpu_percent;
  peak_temp = warmer r.temperature s.peak_temp;
}

unfoldable pub reset : ResourceSampler → ResourceSampler
reset s = record { peak_rss = 0; peak_cpu = 0; peak_temp = none }

pub data SamplerCall : Type 0 where
  samples : Reading → SamplerCall
  resets : SamplerCall

unfoldable pub apply_call : SamplerCall → ResourceSampler → ResourceSampler
unfolding sample reset
apply_call (samples r) s = sample r s
apply_call resets s = reset s

abbrev pub apply_calls : List SamplerCall → ResourceSampler → ResourceSampler
apply_calls [] s = s
apply_calls (c ∷ cs) s = apply_calls cs (apply_call c s)
