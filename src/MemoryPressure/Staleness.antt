-- ===== src/MemoryPressure/Staleness.antt =====
-- The verdicts of the monitor (crates/luchta-cli/src/memory_pressure/mod.rs).
use luchta.Prelude.{
  ℕ, ◌-◌, ◌<◌, ◌≡◌, refl, sym, subst, ap, ◌∙◌, inl, inr, ◌⊎◌, Bool, true, false, Option, some, none,
  some-injective, Option-cases, List, [], ◌∷◌, ◌++◌, append_nil, append_assoc, In, In-append, ltb,
  ltb→lt, Bool-cases,
}
use luchta.MemoryPressure.{
  MemoryPressure, clear, unwrap_or_clear, platform_reading_to_pressure, platform_sample, Reading,
  MemoryMonitor, with_sample_fn, recompute, check_at, check_all, default_ttl,
}

module _ (Percent : Type 0) where
  abbrev pub is_some : {A : Type 0} → Option A → Bool
  is_some none = false
  is_some (some a) = true

  -- A pause with its detail; no pressure when nothing is read, or nothing that calls for a pause.
  abbrev pub verdict_of : Reading Percent → MemoryPressure Percent
  verdict_of none = clear Percent
  verdict_of (some (true, detail)) = record { paused = true; detail = some detail }
  verdict_of (some (false, detail)) = clear Percent

  sampled-verdict_of :
      (reading : Reading Percent)
      → unwrap_or_clear Percent (platform_sample Percent reading) ≡ verdict_of reading
  unfolding platform_sample platform_reading_to_pressure
  sampled-verdict_of none = refl
  sampled-verdict_of (some (true, detail)) = refl
  sampled-verdict_of (some (false, detail)) = refl

  -- A detail stands exactly with a pause.
  abbrev pub IsHonest : MemoryPressure Percent → Type 0
  IsHonest p = is_some p.detail ≡ p.paused

  verdict_of-IsHonest : (reading : Reading Percent) → IsHonest (verdict_of reading)
  verdict_of-IsHonest none = refl
  verdict_of-IsHonest (some (true, detail)) = refl
  verdict_of-IsHonest (some (false, detail)) = refl

  -- The cached sample is one of those that were taken.
  abbrev pub IsCached : List (ℕ × Reading Percent) → MemoryMonitor Percent → Type 0
  IsCached past m =
      (t : ℕ) (p : MemoryPressure Percent)
      → m.cache ≡ some (t, p)
      → (reading : Reading Percent) × In (t, reading) past × (p ≡ verdict_of reading)

  -- A verdict for now: none when the monitor is off; when it is on, what was read at this check or at
  -- one less than the time to live ago.
  abbrev pub IsRecent :
      List (ℕ × Reading Percent) → MemoryMonitor Percent → ℕ → MemoryPressure Percent → Type 0
  IsRecent past m now p =
      ((m.enabled ≡ false) × (p ≡ clear Percent))
      ⊎ ((m.enabled ≡ true)
          × (t : ℕ) × (reading : Reading Percent) × In (t, reading) past
          × (p ≡ verdict_of reading)
          × ((t ≡ now) ⊎ (now - t < m.ttl)))

  abbrev sampled : Reading Percent → MemoryPressure Percent
  sampled reading = unwrap_or_clear Percent (platform_sample Percent reading)

  recompute-IsCached :
      (past : List (ℕ × Reading Percent)) (m : MemoryMonitor Percent) (now : ℕ)
      (reading : Reading Percent)
      → m.enabled ≡ true
      → IsCached (past ++ (now, reading) ∷ []) (recompute Percent m now reading).0
        × IsRecent (past ++ (now, reading) ∷ []) m now (recompute Percent m now reading).1
  unfolding recompute
  recompute-IsCached past m now reading on =
      let last : In {A = ℕ × Reading Percent} (now, reading) (past ++ (now, reading) ∷ []) =
        (In-append (now, reading) past ((now, reading) ∷ [])).1 (inr (inl refl)) in
      (
        λ t p h.
            let pair = some-injective (now, sampled reading) (t, p) h in
            (
              reading,
              subst
                  (λ (e : ℕ × MemoryPressure Percent).
                    In {A = ℕ × Reading Percent} (e.0, reading) (past ++ (now, reading) ∷ []))
                  pair last,
              ap (λ (e : ℕ × MemoryPressure Percent). e.1) (sym pair) ∙ sampled-verdict_of reading,
            ),
        inr (on, now, reading, last, sampled-verdict_of reading, inl refl),
      )

  -- The three ways of a check.
  check_at-cases :
      (m : MemoryMonitor Percent) (now : ℕ) (reading : Reading Percent)
      → ((m.enabled ≡ false) × (check_at Percent m now reading ≡ (m, clear Percent)))
        ⊎ (((m.enabled ≡ true) × (check_at Percent m now reading ≡ recompute Percent m now reading))
            ⊎ ((m.enabled ≡ true)
                × (t : ℕ) × (p : MemoryPressure Percent) × (m.cache ≡ some (t, p))
                × (now - t < m.ttl)
                × (check_at Percent m now reading ≡ (m, p))))
  unfolding check_at
  check_at-cases m now reading = elim (Bool-cases m.enabled) [
    | inr off ↦ inl (off, simp (off))
    | inl on ↦ elim (Option-cases m.cache) [
      | inl empty ↦ inr (inl (on, simp (on, empty)))
      | inr ((t, p), found) ↦ elim (Bool-cases (ltb (now - t) m.ttl)) [
        | inr old ↦ inr (inl (on, simp (on, found, old)))
        | inl young ↦
            inr (inr (on, t, p, found, ltb→lt (now - t) m.ttl young, simp (on, found, young)))
      ]
    ]
  ]

  check_at-IsRecent :
      (past : List (ℕ × Reading Percent)) (m : MemoryMonitor Percent) (now : ℕ)
      (reading : Reading Percent)
      → IsCached past m
      → IsCached (past ++ (now, reading) ∷ []) (check_at Percent m now reading).0
        × IsRecent (past ++ (now, reading) ∷ []) m now (check_at Percent m now reading).1
  check_at-IsRecent past m now reading cached =
      let kept : IsCached (past ++ (now, reading) ∷ []) m = λ t p h.
        let (r, i, q) = cached t p h in
        (r, (In-append (t, r) past ((now, reading) ∷ [])).1 (inl i), q) in
      elim (check_at-cases m now reading) [
        | inl (off, q) ↦ subst (Good past m now reading) (sym q) (kept, inl (off, refl))
        | inr (inl (on, q)) ↦
            subst (Good past m now reading) (sym q) (recompute-IsCached past m now reading on)
        | inr (inr (on, t, p, found, young, q)) ↦
            let (r, i, e) = kept t p found in
            subst (Good past m now reading) (sym q) (kept, inr (on, t, r, i, e, inr young))
      ]
    where
      Good :
          List (ℕ × Reading Percent)
          → MemoryMonitor Percent
          → ℕ
          → Reading Percent
          → MemoryMonitor Percent × MemoryPressure Percent
          → Type 0
      Good past m now reading r =
          IsCached (past ++ (now, reading) ∷ []) (r.0)
          × IsRecent (past ++ (now, reading) ∷ []) m now (r.1)

  check_at-settings :
      (m : MemoryMonitor Percent) (now : ℕ) (reading : Reading Percent)
      → ((check_at Percent m now reading).0.enabled ≡ m.enabled)
        × ((check_at Percent m now reading).0.ttl ≡ m.ttl)
  unfolding recompute
  check_at-settings m now reading = elim (check_at-cases m now reading) [
    | inl (off, q) ↦ subst (Same m) (sym q) (refl, refl)
    | inr (inl (on, q)) ↦ subst (Same m) (sym q) (refl, refl)
    | inr (inr (on, t, p, found, young, q)) ↦ subst (Same m) (sym q) (refl, refl)
  ]
    where
      Same : MemoryMonitor Percent → MemoryMonitor Percent × MemoryPressure Percent → Type 0
      Same m r = (r.0.enabled ≡ m.enabled) × (r.0.ttl ≡ m.ttl)

  check_all-IsCached :
      (before past : List (ℕ × Reading Percent)) (m : MemoryMonitor Percent)
      → IsCached before m
      → IsCached (before ++ past) (check_all Percent m past).0
        × ((check_all Percent m past).0.enabled ≡ m.enabled)
        × ((check_all Percent m past).0.ttl ≡ m.ttl)
  unfolding check_all
  check_all-IsCached before [] m cached =
      (subst (λ l. IsCached l m) (sym (append_nil before)) cached, refl, refl)
  check_all-IsCached before ((now, reading) ∷ past) m cached =
      let m' = (check_at Percent m now reading).0 in
      let (later, on, ttl) =
        check_all-IsCached (before ++ (now, reading) ∷ []) past m'
          (check_at-IsRecent before m now reading cached).0 in
      let (on', ttl') = check_at-settings m now reading in
      (
        subst (λ l. IsCached l (check_all Percent m' past).0)
            (append_assoc before (now, reading) past) later,
        on ∙ on',
        ttl ∙ ttl',
      )

  -- After any checks of a new monitor, the verdict of a check carries a detail exactly when it says to
  -- pause. Either the monitor is off and the verdict is clear, or the monitor is on and the verdict is
  -- that of what was read at this check, or at a past one less than 250 milliseconds ago, where an
  -- instant that is still to come counts as now: a pause with its detail if that called for a pause,
  -- and clear if it did not or nothing could be read.
  pub check_at-recent :
      (enabled : Bool) (past : List (ℕ × Reading Percent)) (now : ℕ) (reading : Reading Percent)
      → let p =
          (check_at Percent
            (check_all Percent (with_sample_fn Percent enabled) past).0
            now
            reading).1 in
        IsHonest p
        × (((enabled ≡ false) × (p ≡ clear Percent))
            ⊎ ((enabled ≡ true)
                × (t : ℕ) × (r : Reading Percent) × In (t, r) (past ++ (now, reading) ∷ [])
                × (p ≡ verdict_of r)
                × ((t ≡ now) ⊎ (now - t < default_ttl Percent))))
  unfolding with_sample_fn
  check_at-recent enabled past now reading =
      let (cached, on, ttl) =
        check_all-IsCached [] past (with_sample_fn Percent enabled) (λ t p h. cc) in
      let m = (check_all Percent (with_sample_fn Percent enabled) past).0 in
      elim ((check_at-IsRecent past m now reading cached).1) [
        | inl (off, q) ↦ (ap (λ b. b) (subst IsHonest (sym q) refl), inl (sym on ∙ off, q))
        | inr (on', t, r, i, q, recent) ↦ (
          subst IsHonest (sym q) (verdict_of-IsHonest r),
          inr (
            sym on ∙ on',
            t,
            r,
            i,
            q,
            elim recent [ inl e ↦ inl e | inr young ↦ inr (subst (λ z. now - t < z) ttl young) ],
          ),
        )
      ]
