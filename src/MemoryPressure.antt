-- ===== src/MemoryPressure.antt =====
-- crates/luchta-cli/src/memory_pressure/mod.rs: when the system reports memory pressure, no task is
-- started. The backends that read the system are a parameter, and so is the type of a percentage;
-- instants and durations count nanoseconds.
pub mod Staleness
mod Samples
use luchta.Prelude.{
  ℕ, ◌+◌, ◌-◌, ◌%◌, ◌^◌, Bool, true, false, Option, none, some, List, [], ◌∷◌, ltb, if◌then◌else◌,
}

module _ (Percent : Type 0) where
  pub data PressureDetail : Type 0 where
    stalled : Percent → PressureDetail
    warning critical low_memory : PressureDetail

  pub record MemoryPressure : Type 0 where
    pub paused : Bool
    pub detail : Option PressureDetail

  abbrev pub clear : MemoryPressure
  clear = record { paused = false; detail = none }

  unfoldable pub platform_reading_to_pressure : Bool → PressureDetail → MemoryPressure
  platform_reading_to_pressure paused detail = record {
    paused = paused;
    detail = if paused then some detail else none;
  }

  -- What the backend reads at a call.
  abbrev pub Reading : Type 0
  Reading = Option (Bool × PressureDetail)

  unfoldable pub platform_sample : Reading → Option MemoryPressure
  unfolding platform_reading_to_pressure
  platform_sample none = none
  platform_sample (some (paused, detail)) = some (platform_reading_to_pressure paused detail)

  -- `unwrap_or_else(MemoryPressure::clear)`
  abbrev pub unwrap_or_clear : Option MemoryPressure → MemoryPressure
  unwrap_or_clear none = clear
  unwrap_or_clear (some p) = p

  pub record MemoryMonitor : Type 0 where
    pub enabled : Bool
    pub cache : Option (ℕ × MemoryPressure)
    pub ttl : ℕ
    pub recompute_count : ℕ

  -- A reading is reused for 250 milliseconds.
  abbrev pub default_ttl : ℕ
  default_ttl = 250000000

  unfoldable pub with_sample_fn : Bool → MemoryMonitor
  with_sample_fn enabled = record {
    enabled = enabled;
    cache = none;
    ttl = default_ttl;
    recompute_count = 0;
  }

  -- A new sample, when the cache has none or an old one.
  unfoldable pub recompute : MemoryMonitor → ℕ → Reading → MemoryMonitor × MemoryPressure
  unfolding platform_sample
  recompute m now reading =
      let pressure = unwrap_or_clear (platform_sample reading) in
      (
        record m {
          cache = some (now, pressure);
          recompute_count = (m.recompute_count + 1) % 2 ^ 64;
        },
        pressure,
      )

  -- `duration_since` is zero for an instant in the future, as the subtraction here.
  unfoldable pub check_at : MemoryMonitor → ℕ → Reading → MemoryMonitor × MemoryPressure
  unfolding recompute
  check_at m now reading =
      if m.enabled
      then elim m.cache [
        | none ↦ recompute m now reading
        | some (sampled_at, pressure) ↦
            if ltb (now - sampled_at) m.ttl then (m, pressure) else recompute m now reading
      ]
      else (m, clear)

  -- The verdicts of checks, one after another.
  unfoldable pub check_all :
      MemoryMonitor → List (ℕ × Reading) → MemoryMonitor × List MemoryPressure
  unfolding check_at
  check_all m [] = (m, [])
  check_all m ((now, reading) ∷ checks) =
      let (m', pressure) = check_at m now reading in
      let (m'', verdicts) = check_all m' checks in (m'', pressure ∷ verdicts)
