-- ===== src/MemoryPressure/Samples.antt =====
-- A monitor that is asked three times (crates/luchta-cli/src/memory_pressure/mod.rs).
use luchta.Prelude.{ℕ, ◌-◌, ◌<◌, ◌≡◌, refl, ◌⊎◌, true, false, some, none, List, [], ◌∷◌, ◌++◌, In}
use luchta.MemoryPressure.{
  stalled, warning, MemoryPressure, clear, platform_reading_to_pressure, platform_sample, Reading,
  with_sample_fn, recompute, check_at, check_all, default_ttl,
}
use luchta.MemoryPressure.Staleness.{IsHonest, verdict_of, check_at-recent}

program : Unit {0}
unfolding platform_reading_to_pressure platform_sample with_sample_fn recompute check_at check_all
program = tt

abbrev past : List (ℕ × Reading ℕ)
past = (0, some (true, stalled 40)) ∷ (100, some (false, warning)) ∷ []

abbrev held : MemoryPressure ℕ
held = record { paused = true; detail = some (stalled 40) }

-- The second reading is not taken, and the third is.
asked :
    (check_all ℕ (with_sample_fn ℕ true) (past ++ (250000000, some (false, warning)) ∷ [])).1
    ≡ held ∷ held ∷ clear ℕ ∷ []
unfolding program
asked = refl

check_at-recent_example :
    let p = (check_at ℕ (check_all ℕ (with_sample_fn ℕ true) past).0 200 none).1 in
    IsHonest ℕ p
    × (((true ≡ false) × (p ≡ clear ℕ))
        ⊎ ((true ≡ true)
            × (t : ℕ) × (r : Reading ℕ) × In (t, r) (past ++ (200, none) ∷ [])
            × (p ≡ verdict_of ℕ r)
            × ((t ≡ 200) ⊎ (200 - t < default_ttl ℕ))))
check_at-recent_example = check_at-recent ℕ true past 200 none
