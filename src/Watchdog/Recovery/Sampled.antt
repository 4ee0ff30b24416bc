-- ===== src/Watchdog/Recovery/Sampled.antt =====
-- What holds of a round of `recovery_observation` until its sample is noted.
use homelab_server_configs.Watchdog.Timing
use mathlib.Core.Path.{subst}
use homelab_server_configs.Prelude.{
  ℕ, ◌+◌, ◌≤◌, String, true, Option, none, some, List, ◌∷◌, eq_iff, ◌≡◌, sym, ap, ◌∙◌, leb→le,
  str_eq, false, not, ◌&&◌, ◌<◌, arith,
}
use homelab_server_configs.Prelude.Exec.{
  Post-cases, Ensures, Ensures-pure, Ensures-lift, Ensures-mono, Ensures-if, Ensures-require,
  Ensures-modify, Ensures-catch, Ensures-from,
}
use homelab_server_configs.Prelude.Exec.Chain.{◌>>=◌, ◌>>◌}
use homelab_server_configs.Watchdog.Checks.{Native, Row, Stage}
use homelab_server_configs.Watchdog.Sample.Good.{Stamped, Built, Compared}
use homelab_server_configs.Watchdog.Sample.{Lab, Watch, stable_since, note_reading, note_native}
use homelab_server_configs.Watchdog.Recovery.{
  find_boot, look_for_boot, check_deadlines, enter_availability, note_availability,
}
use homelab_server_configs.Watchdog.Sample.Rules.{
  on_expected_rule, call-Kept, ask-Steady, call-Steady,
}
use homelab_server_configs.Prelude.Exec.Quiet.{Any, require-Kept, pure-Kept, gets-Kept}
use homelab_server_configs.Watchdog.Sample.Stamps.{
  FirstIs, FirstIs-none, first_or-Stamped, first_or-FirstIs, first_or-some, stable_since-Compared,
}

module _ (lab : Lab) (initial : String) (healthy submit : ℕ) where
  abbrev pub S : Type 0
  S = Watch lab.State

  abbrev pub Within : S → Type 0
  Within s = s.availability.passed ≡ true → s.availability.finished ≤ healthy + Timing.availability

  abbrev pub Kept : S → Type 0
  Kept s = Stamped s.first s.stamps s.rows × Within s × FirstIs s.first s.boot

  find_boot-Kept :
      Ensures
        (λ s. Kept s × (s.boot ≡ none))
        (λ _. Kept)
        (λ _. Kept)
        (find_boot lab initial healthy submit)
  unfolding find_boot
  find_boot-Kept = do
    observed ←
        Ensures-mono (λ s p. p) (λ _ s p. p) (λ _ s p. p.0)
          (call-Steady lab (λ s. Kept s × (s.boot ≡ none)) _ (λ s w p. p))
    Ensures-if (str_eq observed initial) (λ same. Ensures-pure _ _ _ tt (λ s p. p.0))
        (λ new. do
          Ensures-modify _ (λ _. Kept) _ _
              (λ s p. (p.0.0, p.0.1, FirstIs-none s.first _ (subst (FirstIs s.first) p.1 p.0.2)))
          finished ← ask-Steady lab Kept (λ s w p. p) _ _
          Ensures-modify _ (λ _. Kept) _ _ (λ s p. p)
          call-Steady lab Kept _ (λ s w p. p))

  pub look_for_boot-Kept : Ensures Kept (λ _. Kept) Any (look_for_boot lab initial healthy submit)
  unfolding look_for_boot
  look_for_boot-Kept = gets-Kept Kept _ >>= elim [
    | some boot ↦ Ensures-pure _ _ _ tt (λ s p. p.0)
    | none ↦
        Ensures-catch find_boot-Kept
          (λ e. on_expected_rule (λ e s p. tt) e (call-Kept lab Kept _ (λ s w p. p)))
  ]

  module _ (boot : String) where
    abbrev pub Booted : S → Type 0
    Booted s = Kept s × (s.boot ≡ some boot)

    -- The state of a round whose deadlines were checked.
    abbrev pub Round : S → Type 0
    Round s = Booted s × (s.boot_network.finished ≤ submit + Timing.escalation)

    pub check_deadlines-Round :
        Ensures Booted (λ _. Round) Any (check_deadlines lab initial healthy submit)
    unfolding check_deadlines
    check_deadlines-Round = do
      network ← gets-Kept Booted _
      Ensures-require _ Any _ _ (λ s p h. tt)
      Ensures-from (λ s p. (p.0.0, rw p.0.1 (leb→le _ _ p.1)))
          (do
            now ← ask-Steady lab Round (λ s w p. p) Any _
            require-Kept Round _ _
            stage ← gets-Kept Round _
            Ensures-if stage.passed (λ _. Ensures-pure _ _ _ tt (λ s p. p.0))
                (λ _.
                  Ensures-from (λ s p. p.0)
                    (do again ← ask-Steady lab Round (λ s w p. p) Any _; require-Kept Round _ _)))

    -- A round after its sample, whose row is the newest.
    abbrev pub Sampled : Row → S → Type 0
    Sampled row s =
        Built row × ((rest : List Row) × (s.rows ≡ row ∷ rest) × Round (record s { rows = rest }))

    module _ (row : Row) where
      note_reading-Noted :
          (finished : ℕ) (o : Option Native)
          → Ensures
              (Sampled row)
              (λ _ s. Sampled row s × Compared s.first o)
              Any
              (note_reading lab boot finished o)
      unfolding note_reading
      note_reading-Noted finished none = Ensures-pure _ _ _ tt (λ s p. (p, tt))
      note_reading-Noted finished (some native) = do
        Ensures-require _ Any _ _ (λ s p h. tt)
        Ensures-modify _ (λ _ s. Sampled row s × ((f : Native) × (s.first ≡ some f))) Any _
            (λ s p.
              let (built, (rest, rows, (((stamped, within, first), here), network))) = p.0 in
              let same : some boot ≡ some native.boot =
                sym (ap (λ b. some b) ((eq_iff native.boot boot).0 p.1)) in
              (
                (
                  built,
                  (
                    rest,
                    rows,
                    (
                      (
                        (
                          first_or-Stamped native s.first s.stamps rest stamped,
                          within,
                          first_or-FirstIs native s.first s.boot (here ∙ same) first,
                        ),
                        here,
                      ),
                      network,
                    ),
                  ),
                ),
                first_or-some native s.first,
              ))
        first ← gets-Kept _ _
        Ensures-lift _ (λ _ s. Sampled row s × Compared s.first (some native)) Any _
            (λ s p.
              Post-cases (λ _ s. Sampled row s × Compared s.first (some native)) Any
                (stable_since first native) s
                (λ a e. (
                  p.0.0,
                  stable_since-Compared s.first p.0.1.0 native p.0.1.1
                      (ap (λ o. stable_since o native) p.1 ∙ e),
                ))
                (λ _ _. tt))
        Ensures-if native.available (λ _. Ensures-modify _ _ Any _ (λ s p. p))
            (λ _. Ensures-pure _ _ Any tt (λ s p. p))

      pub note_native-Noted :
          Ensures
            (Sampled row)
            (λ _ s. Sampled row s × Compared s.first row.native)
            Any
            (note_native lab boot row)
      unfolding note_native
      note_native-Noted = do
        stage ← gets-Kept (Sampled row) _
        Ensures-from (λ s p. p.0)
            (Ensures-if stage.passed (λ _. require-Kept (Sampled row) _ _)
              (λ _. pure-Kept (Sampled row) tt))
        note_reading-Noted row.finished row.native
        Ensures-modify _ _ Any _ (λ s p. p)

      -- The sample is compared to the first.
      abbrev pub Noted : S → Type 0
      Noted s = Sampled row s × Compared s.first row.native

      abbrev pub Settled : S → Type 0
      Settled s = Noted s × (row.available ≡ true → s.availability.passed ≡ true)

      -- A stage that did not pass was reached too late.
      abbrev pub Late : S → Type 0
      Late s =
          Noted s
          × (row.available ≡ true
              → s.availability.passed ≡ false
              → healthy + Timing.availability < row.finished)

      enter_availability-Late :
          Ensures Noted (λ _. Late) Any (enter_availability lab initial healthy submit row)
      unfolding enter_availability
      enter_availability-Late = do
        Ensures-modify Noted (λ _. Late) Any _
            (λ s p.
              let ((built, (rest, rows, (((stamped, within, first), here), network))), same) = p in
              (
                ((built, (rest, rows, (((stamped, leb→le _ _, first), here), network))), same),
                λ available late. ground arith,
              ))
        call-Kept lab Late _ (λ s w p. p)

      pub note_availability-Settled :
          Ensures Noted (λ _. Settled) Any (note_availability lab initial healthy submit row)
      unfolding note_availability
      note_availability-Settled = do
        stage ← gets-Kept Noted _
        Ensures-if (row.available && not stage.passed)
            (λ _. Ensures-from (λ s p. p.0) enter_availability-Late)
            (λ before. Ensures-pure _ _ Any tt (λ s p. (
              p.0,
              λ available late.
                  let before' : stage.passed ≡ false =
                    sym (ap (λ (x : Stage). x.passed) p.1) ∙ late in
                  absurd (ground arith),
            )))
        later ← gets-Kept Late _
        Ensures-if later.passed
            (λ passed.
              Ensures-pure _ _ Any tt
                (λ s p. (p.0.0, λ _. ap (λ (x : Stage). x.passed) p.1 ∙ passed)))
            (λ failed.
              Ensures-mono (λ s p. p)
                (λ _ s p. (
                  p.0.0.0,
                  λ available.
                      let early = p.0.0.1 available (ap (λ (x : Stage). x.passed) p.0.1 ∙ failed) in
                      absurd (ground arith),
                ))
                (λ _ s p. p) (Ensures-require _ Any _ _ (λ s p h. tt)))
