-- ===== src/Protection/Window.antt =====
-- `validate` and `in_window`: the numbers of the configuration, and the moments at which a run may
-- start. Times of day are seconds after midnight, which is how the source's dates are compared.
use homelab_server_configs.Prelude.{
  ℕ, ◌+◌, ◌*◌, ◌≤◌, ◌<◌, Bool, true, not, ◌&&◌, ◌||◌, Option, none, some, ◌≡◌, arith, ◌==◌, leb,
  ltb, String, str_eq, if◌then◌else◌,
}
use homelab_server_configs.Prelude.Exec.{value_error, Outcome, returned, raised}

-- The fields that the schedule reads; `none` is a field that is left out. The types of the fields,
-- the paths and the command lines are checked by `validate` too, and are not part of this record.
pub record Config : Type 0 where
  pub start_hour : ℕ
  pub start_minute : Option ℕ
  pub end_hour : ℕ
  pub end_minute : Option ℕ
  pub capture_seconds : ℕ
  pub recovery_seconds : ℕ
  pub run_seconds : ℕ
  pub latest_start_minute : Option ℕ
  pub window_date : Option String

abbrev pub or_zero : Option ℕ → ℕ
or_zero none = 0
or_zero (some n) = n

abbrev pub start_of : Config → ℕ
start_of c = c.start_hour * 60 + or_zero c.start_minute

abbrev pub end_of : Config → ℕ
end_of c = c.end_hour * 60 + or_zero c.end_minute

abbrev latest_fits : Config → Option ℕ → Bool
latest_fits c none = true
latest_fits c (some latest) =
    leb (start_of c) latest
    && ltb latest (end_of c)
    && leb (c.run_seconds + 150 + 5 + c.recovery_seconds + 60 + latest * 60) (end_of c * 60)

abbrev within : ℕ → ℕ → Bool
within n maximum = leb 1 n && leb n maximum

-- The checks of `validate` on these fields, in their order: the error class of the first that fails.
unfoldable pub validate : Config → Outcome Unit
validate c =
    if not (ltb c.start_hour c.end_hour && leb c.end_hour 24)
    then raised (value_error "window")
    else if not (ltb (or_zero c.start_minute) 60 && ltb (or_zero c.end_minute) 60)
    then raised (value_error "window_minute")
    else if not (ltb c.end_hour 24 || or_zero c.end_minute == 0)
    then raised (value_error "window_end")
    else if not
        (within c.capture_seconds 600 && within c.recovery_seconds 300 && within c.run_seconds 7200)
    then raised (value_error "deadline")
    else if not (ltb (c.capture_seconds + c.recovery_seconds) c.run_seconds)
    then raised (value_error "run_deadline")
    else if not (latest_fits c c.latest_start_minute)
    then raised (value_error "latest_start_budget")
    else returned tt

abbrev on_date : Option String → String → Bool
on_date none today = true
on_date (some date) today = str_eq date today

abbrev not_after : Option ℕ → ℕ → Bool
not_after none now = true
not_after (some latest) now = leb now (latest * 60)

-- `in_window(config, now)`, at `now` seconds after midnight of the day `today`.
unfoldable pub in_window : Config → String → ℕ → Bool
in_window c today now =
    on_date c.window_date today
    && leb (start_of c * 60) now
    && ltb now (end_of c * 60)
    && not_after c.latest_start_minute now
    && leb (c.capture_seconds + c.recovery_seconds + now) (end_of c * 60)

-- Under a valid configuration with a latest start minute, a run that may start ends, with its
-- whole run time, the recovery and the fixed margins, before the window and the day do.
pub in_window-latest :
    (c : Config) (latest : ℕ) (today : String) (now : ℕ)
    → validate c ≡ returned tt
    → c.latest_start_minute ≡ some latest
    → in_window c today now ≡ true
    → (now + c.run_seconds + c.recovery_seconds + 215 ≤ end_of c * 60)
      × (end_of c * 60 ≤ 86400)
      × (c.capture_seconds + c.recovery_seconds < c.run_seconds)
unfolding validate in_window
in_window-latest c latest today now v l h = (ground arith, ground arith, ground arith)
