-- ===== src/Scenarios/Measuring.antt =====
-- Samples of a run with a reset, and the thermal zones of a laptop.
use leanlm.Common.{ℕ, ◌+◌, ◌*◌, ◌/◌, ◌≡◌, refl, Option, none, some, List, [], ◌∷◌}
use leanlm.Performance.Sampler.{new_sampler, SamplerCall, samples, resets, apply_call, apply_calls}
use leanlm.Performance.Sampler.Peaks.{ArePeaks, readings_after, apply_calls-ArePeaks}
use leanlm.Performance.Thermal.{Zone, read_temperature}
use leanlm.Performance.Thermal.Hottest.{IsHottest, read_temperature-IsHottest}

abbrev reading : ℕ → ℕ → Option ℕ → SamplerCall
reading rss cpu t = samples (record { process_rss = rss; cpu_percent = cpu; temperature = t })

abbrev calls : List SamplerCall
calls =
    reading 9000 100 (some 9900)
    ∷ resets
    ∷ reading 3200 250 none
    ∷ reading 4100 120 (some 6150)
    ∷ reading 3900 300 (some 5800)
    ∷ []

peaks_run :
    apply_calls calls new_sampler
    ≡ record { peak_rss = 4100; peak_cpu = 300; peak_temp = some 6150 }
unfolding apply_call
peaks_run = refl

apply_calls-ArePeaks_example : ArePeaks (readings_after [] calls) (apply_calls calls new_sampler)
apply_calls-ArePeaks_example = apply_calls-ArePeaks calls

abbrev zones : List (Option Zone)
zones =
    some (record { zone_type = "acpitz"; raw = 27 })
    ∷ none
    ∷ some (record { zone_type = "x86_pkg_temp"; raw = 61531 })
    ∷ some (record { zone_type = "broken"; raw = 255000 })
    ∷ []

-- On thousandths, the nearest multiple of ten, ties upwards.
abbrev to_hundredths : ℕ → ℕ
to_hundredths t = (t + 5) / 10 * 10

zones_run : read_temperature to_hundredths none zones ≡ (some 61530, "sysfs:x86_pkg_temp")
unfolding read_temperature
zones_run = refl

read_temperature-IsHottest_example :
    IsHottest to_hundredths zones (read_temperature to_hundredths none zones)
read_temperature-IsHottest_example = read_temperature-IsHottest to_hundredths zones
