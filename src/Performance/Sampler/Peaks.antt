-- ===== src/Performance/Sampler/Peaks.antt =====
-- What the peaks of the sampler are (packages/performance/services.py).
use leanlm.Common.{ℕ, max, ◌≡◌, refl, ap, ◌∙◌, Option, none, some, List, [], ◌∷◌, arith}
use leanlm.Performance.Sampler.{
  Reading, ResourceSampler, new_sampler, warmer, sample, reset, SamplerCall, samples, resets,
  apply_call, apply_calls,
}

-- The readings since the last reset, `seen` being those before the calls.
abbrev pub readings_after : List Reading → List SamplerCall → List Reading
readings_after seen [] = seen
readings_after seen (samples r ∷ cs) = readings_after (r ∷ seen) cs
readings_after seen (resets ∷ cs) = readings_after [] cs

abbrev pub most : (Reading → ℕ) → List Reading → ℕ
most f [] = 0
most f (r ∷ rs) = max (f r) (most f rs)

abbrev pub hotter : Option ℕ → Option ℕ → Option ℕ
hotter none b = b
hotter (some a) none = some a
hotter (some a) (some b) = some (max a b)

-- The highest temperature of the readings that have one.
abbrev pub hottest_of : List Reading → Option ℕ
hottest_of [] = none
hottest_of (r ∷ rs) = hotter r.temperature (hottest_of rs)

pub record ArePeaks (rs : List Reading) (s : ResourceSampler) : Type 0 where
  pub rss : s.peak_rss ≡ most (λ (r : Reading). r.process_rss) rs
  pub cpu : s.peak_cpu ≡ most (λ (r : Reading). r.cpu_percent) rs
  pub temperature : s.peak_temp ≡ hottest_of rs

warmer-hotter : (t p : Option ℕ) → warmer t p ≡ hotter t p
warmer-hotter none p = refl
warmer-hotter (some t) none = ap some (omega arith)
warmer-hotter (some t) (some p) = ap some (omega arith)

max_comm : (a b : ℕ) → max a b ≡ max b a
max_comm a b = omega arith

sample-ArePeaks :
    (r : Reading) (rs : List Reading) (s : ResourceSampler)
    → ArePeaks rs s
    → ArePeaks (r ∷ rs) (sample r s)
unfolding sample
sample-ArePeaks r rs s h = record {
  rss = max_comm s.peak_rss r.process_rss ∙ ap (max r.process_rss) h.rss;
  cpu = max_comm s.peak_cpu r.cpu_percent ∙ ap (max r.cpu_percent) h.cpu;
  temperature = warmer-hotter r.temperature s.peak_temp ∙ ap (hotter r.temperature) h.temperature;
}

calls-ArePeaks :
    (cs : List SamplerCall) (rs : List Reading) (s : ResourceSampler)
    → ArePeaks rs s
    → ArePeaks (readings_after rs cs) (apply_calls cs s)
unfolding apply_call reset
calls-ArePeaks [] rs s h = h
calls-ArePeaks (samples r ∷ cs) rs s h =
    calls-ArePeaks cs (r ∷ rs) (sample r s) (sample-ArePeaks r rs s h)
calls-ArePeaks (resets ∷ cs) rs s h =
    calls-ArePeaks cs [] (reset s) (record { rss = refl; cpu = refl; temperature = refl })

-- Whatever is sampled on a new sampler, by whom, and however often it is reset, each peak is the
-- largest value of the readings since the last reset: zero for the memory and the processor when
-- there are none, and no temperature when none of the readings has one.
pub apply_calls-ArePeaks :
    (cs : List SamplerCall) → ArePeaks (readings_after [] cs) (apply_calls cs new_sampler)
apply_calls-ArePeaks cs =
    calls-ArePeaks cs [] new_sampler (record { rss = refl; cpu = refl; temperature = refl })
