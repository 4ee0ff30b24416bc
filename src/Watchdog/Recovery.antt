-- ===== src/Watchdog/Recovery.antt =====
-- `recovery_observation` of watchdog/scripts/run-panic-recovery.py. Times are milliseconds on the
-- controller's clock.
pub mod Confirmed
pub mod Ends
pub mod Recovered
pub mod Sampled
pub mod Rounds
use homelab_server_configs.Prelude.{
  ℕ, zero, suc, ◌+◌, ◌-◌, String, Bool, true, false, not, ◌&&◌, Option, none, some, List, [], ◌∷◌,
  leb, ltb, length, all, str_eq, if◌then◌else◌,
}
use homelab_server_configs.Prelude.Exec.{
  Error, blocked, value_error, os_error, other_error, refused, Outcome, returned, raised, Exec,
  pure, lift, raise, gets, modify, require, catch, ◌>>=◌, ◌>>◌,
}
use homelab_server_configs.Watchdog.Timing
use homelab_server_configs.Watchdog.Checks.{
  Native, Reply, Row, Stage, not_passed, stable_service, evaluate_timing, set_default, successes,
  native_or,
}
use homelab_server_configs.Watchdog.Sample.{
  Lab, Watch, S, ask, try_call, sleep_until, recovery_sample, note_native, on_expected,
}

-- `stable_service(first, row['native'])`
abbrev pub stable_row : Option Native → Option Native → Outcome Unit
stable_row (some f) (some n) = stable_service f n
stable_row _ _ = raised other_error

abbrev pub smaller : ℕ → ℕ → ℕ
smaller a b = if leb a b then a else b

module _ (lab : Lab) (initial : String) (healthy submit : ℕ) where
  -- The `try` block that looks for a new boot.
  pub find_boot : Exec (S lab) Unit
  unfolding ask try_call
  find_boot = do
    observed ← try_call lab lab.observe_boot
    if str_eq observed initial then pure tt else do
      modify (λ s. record s { boot = some observed })
      finished ← ask lab lab.monotonic
      modify (λ s. record s {
        boot_network = record {
          passed = leb finished (submit + Timing.boot);
          finished = finished;
          origin = submit;
        };
      })
      try_call lab (lab.save "boot-network")

  pub look_for_boot : Exec (S lab) Unit
  unfolding find_boot try_call
  look_for_boot = do
    known ← gets (λ s. s.boot)
    elim known [
      | some boot ↦ pure tt
      | none ↦ catch find_boot (on_expected (try_call lab (lab.save "boot-not-ready")))
    ]

  -- The deadlines, before a sample is taken.
  pub check_deadlines : Exec (S lab) Unit
  unfolding ask
  check_deadlines = do
    network ← gets (λ s. s.boot_network)
    require (leb network.finished (submit + Timing.escalation))
        (value_error "120-second escalation: use attended console plan")
    now ← ask lab lab.monotonic
    require (leb now (submit + Timing.convergence)) (value_error "30-minute convergence deadline")
    stage ← gets (λ s. s.availability)
    if stage.passed then pure tt else do
      again ← ask lab lab.monotonic
      require (leb again (healthy + Timing.availability))
          (value_error "five-minute availability deadline")

  pub enter_availability : Row → Exec (S lab) Unit
  unfolding try_call
  enter_availability row = do
    modify (λ s. record s {
      availability = record {
        passed = leb row.finished (healthy + Timing.availability);
        finished = row.finished;
        origin = healthy;
      };
    })
    try_call lab (lab.save "availability")

  pub note_availability : Row → Exec (S lab) Unit
  unfolding try_call enter_availability
  note_availability row = do
    stage ← gets (λ s. s.availability)
    if row.available && not stage.passed then enter_availability row else pure tt
    later ← gets (λ s. s.availability)
    if later.passed
        then pure tt
        else require (ltb row.finished (healthy + Timing.availability))
            (value_error "five-minute availability deadline")

  -- The stamps, and whether they confirm the convergence.
  pub note_precision : String → Row → Exec (S lab) Bool
  unfolding ask try_call sleep_until
  note_precision boot row = do
    modify (λ s. record s {
      stamps = if row.precision && row.available then row.finished ∷ s.stamps else [];
    })
    stamps ← gets (λ s. s.stamps)
    if leb 3 (length stamps)
        then (do
          lift (evaluate_timing submit stamps boot initial)
          modify (λ s. record s {
            convergence = record { passed = true; finished = row.finished; origin = submit };
          })
          try_call lab (lab.save "convergence")
          pure true)
        else (do
          require (ltb row.finished (submit + Timing.convergence))
              (value_error "30-minute convergence deadline")
          stage ← gets (λ s. s.availability)
          sleep_until lab (
              smaller (row.finished + Timing.convergence_cadence) (
                smaller (submit + Timing.convergence) (
                  if stage.passed
                  then submit + Timing.convergence
                  else healthy + Timing.availability)))
          pure false)

  -- The rest of a round, once a new boot is known: whether the convergence is confirmed.
  pub observe_round : String → Exec (S lab) Bool
  unfolding try_call check_deadlines recovery_sample note_native note_availability note_precision
  observe_round boot = do
    check_deadlines
    observed ← try_call lab lab.observe_boot
    require (str_eq observed boot) (value_error "unplanned second reset")
    row ← recovery_sample lab boot
    note_native lab boot row
    note_availability row
    note_precision boot row

  -- `while confirmation is None`, for `fuel` rounds; the result is the new boot, and `none` says that
  -- the rounds were not enough.
  pub converge : ℕ → Exec (S lab) (Option String)
  unfolding ask sleep_until look_for_boot observe_round
  converge zero = pure none
  converge (suc fuel) = do
    loop ← ask lab lab.monotonic
    look_for_boot
    known ← gets (λ s. s.boot)
    elim known [
      | none ↦ (do
        now ← ask lab lab.monotonic
        require (ltb now (submit + Timing.escalation))
            (value_error "120-second escalation: use attended console plan")
        sleep_until lab (loop + 5000)
        converge fuel)
      | some boot ↦ (do
        confirmed ← observe_round boot
        if confirmed then pure (some boot) else converge fuel)
    ]

  -- `while last < deadline`, for `fuel` rounds: the last sample, or `none`.
  pub stabilize : ℕ → String → ℕ → ℕ → Exec (S lab) (Option ℕ)
  unfolding ask try_call sleep_until recovery_sample
  stabilize zero boot deadline last = pure none
  stabilize (suc fuel) boot deadline last = if leb deadline last then pure (some last) else do
    sleep_until lab (smaller (last + Timing.cadence) deadline)
    observed ← try_call lab lab.observe_boot
    require (str_eq observed boot) (value_error "unplanned second reset")
    row ← recovery_sample lab boot
    require (row.available && row.precision) (value_error "stability sample failed")
    first ← gets (λ s. s.first)
    lift (stable_row first row.native)
    require (leb row.finished (last + Timing.gap) && leb row.finished (submit + Timing.total))
        (value_error "stability gap/deadline")
    stabilize fuel boot deadline row.finished

  -- What follows a confirmed convergence.
  pub finish_observation : ℕ → String → ℕ → Exec (S lab) (Option String)
  unfolding try_call stabilize
  finish_observation fuel boot confirmation = do
    last ← stabilize fuel boot (confirmation + Timing.stability) confirmation
    elim last [
      | none ↦ pure none
      | some finished ↦ (do
        modify (λ s. record s {
          stability = record { passed = true; finished = finished; origin = confirmation };
        })
        try_call lab (lab.save "stability")
        pure (some boot))
    ]

  -- `recovery_observation`: the new boot.
  unfoldable pub recovery_observation : ℕ → Exec (S lab) (Option String)
  unfolding converge finish_observation
  recovery_observation fuel = do
    modify (λ s. record s {
      boot_network = not_passed;
      availability = not_passed;
      convergence = not_passed;
      stability = not_passed;
      first_success = [];
      boot = none;
      first = none;
      stamps = [];
    })
    found ← converge fuel
    stage ← gets (λ s. s.convergence)
    elim found [ none ↦ pure none | some boot ↦ finish_observation fuel boot stage.finished ]
