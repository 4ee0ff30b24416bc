-- ===== src/Watchdog/Sample.antt =====
-- `recovery_sample` of watchdog/scripts/run-panic-recovery.py, and what `recovery_observation` notes
-- of a sample. Times are milliseconds on the controller's clock.
pub mod Built
pub mod Good
pub mod Rules
pub mod Stamps
pub mod Timed
use homelab_server_configs.Prelude.{
  ℕ, zero, suc, ◌+◌, ◌-◌, String, Bool, true, false, not, ◌&&◌, Option, none, some, List, [], ◌∷◌,
  leb, ltb, length, all, str_eq, if◌then◌else◌,
}
use homelab_server_configs.Prelude.Exec.{
  Error, blocked, value_error, os_error, other_error, refused, Outcome, returned, raised, Exec,
  pure, lift, raise, gets, modify, require, catch, ◌>>=◌, ◌>>◌,
}
use homelab_server_configs.Watchdog.Timing
use homelab_server_configs.Watchdog.Checks.{
  Native, Reply, Row, Stage, not_passed, stable_service, evaluate_timing, set_default, successes,
  native_or,
}

-- `observe` in the modes "boot" and "recovery", `recovery_clients`, `record.save`, and the clock.
pub record Lab : Type 1 where
  pub State : Type 0
  pub monotonic : State → ℕ × State
  pub sleep : ℕ → State → State
  pub observe_boot : State → Outcome String × State
  pub observe_recovery : String → ℕ → State → Outcome Native × State
  pub recovery_clients : State → Outcome (List (String × Reply)) × State
  pub save : String → State → Outcome Unit × State

-- `result` with its stages, and the local variables of `recovery_observation`; `stamps` holds the
-- newest first, and so does `rows`, the samples that were saved.
pub record Watch (W : Type 0) : Type 0 where
  pub world : W
  pub boot_network : Stage
  pub availability : Stage
  pub convergence : Stage
  pub stability : Stage
  pub first_success : List (String × ℕ)
  pub boot : Option String
  pub first : Option Native
  pub stamps : List ℕ
  pub rows : List Row

-- `except (ValueError, OSError, TimeoutError)`
abbrev pub on_expected : {S A : Type 0} → Exec S A → Error → Exec S A
on_expected h (value_error m) = h
on_expected h os_error = h
on_expected h (blocked m) = raise (blocked m)
on_expected h other_error = raise other_error
on_expected h (refused code m) = raise (refused code m)

-- `if first is None: first = native`
abbrev pub first_or : Native → Option Native → Option Native
first_or native none = some native
first_or native (some f) = some f

-- `stable_service(first, native)`, where there is a first sample.
abbrev pub stable_since : Option Native → Native → Outcome Unit
stable_since none native = returned tt
stable_since (some f) native = stable_service f native

-- The row of a sample that had to end by `limit`.
abbrev pub row_of : ℕ → ℕ → Option Native → List (String × Reply) → Row
row_of limit finished native clients =
    let bounded = leb finished limit in
    record {
      finished = finished;
      native = native;
      clients = clients;
      bounded = bounded;
      available =
          bounded && native_or (λ n. n.available) native && all (λ p. p.1.available) clients;
      precision =
          bounded && native_or (λ n. n.precision) native && all (λ p. p.1.precision) clients;
    }

module _ (lab : Lab) where
  abbrev pub S : Type 0
  S = Watch lab.State

  unfoldable pub ask : {A : Type 0} → (lab.State → A × lab.State) → Exec S A
  ask f s = let (a, w) = f s.world in (returned a, record s { world = w })

  unfoldable pub try_call : {A : Type 0} → (lab.State → Outcome A × lab.State) → Exec S A
  try_call f s = let (o, w) = f s.world in (o, record s { world = w })

  -- `time.sleep(max(0, until-time.monotonic()))`
  unfoldable pub sleep_until : ℕ → Exec S Unit
  unfolding ask
  sleep_until until = do now ← ask lab.monotonic; ask (λ w. (tt, lab.sleep (until - now) w))

  unfoldable pub recovery_sample : String → Exec S Row
  unfolding ask try_call
  recovery_sample boot = do
    start ← ask lab.monotonic
    packets ← try_call lab.recovery_clients
    try_call (lab.save "recovery-clients")
    native ←
        catch
          (do
            now ← ask lab.monotonic
            require (ltb now (start + 10000)) (value_error "combined sample budget exhausted")
            found ← try_call (lab.observe_recovery boot (start + 10000 - now))
            pure (some found))
          (on_expected (pure none))
    finished ← ask lab.monotonic
    let row = row_of (start + 10000) finished native packets
    try_call (lab.save "recovery-sample")
    modify (λ s. record s { rows = row ∷ s.rows })
    pure row

  -- `if native:`
  unfoldable pub note_reading : String → ℕ → Option Native → Exec S Unit
  note_reading boot finished none = pure tt
  note_reading boot finished (some native) = do
    require (str_eq native.boot boot) (value_error "native boot changed")
    modify (λ s. record s { first = first_or native s.first })
    first ← gets (λ s. s.first)
    lift (stable_since first native)
    if native.available
        then modify
            (λ s. record s { first_success = set_default "native" finished s.first_success })
        else pure tt

  -- What a sample says of the service, against the first sample.
  unfoldable pub note_native : String → Row → Exec S Unit
  unfolding note_reading
  note_native boot row = do
    stage ← gets (λ s. s.availability)
    if stage.passed
        then require (native_or (λ n. true) row.native && row.bounded)
            (value_error "native service observation lost after availability")
        else pure tt
    note_reading boot row.finished row.native
    modify (λ s. record s { first_success = successes row.clients s.first_success })
