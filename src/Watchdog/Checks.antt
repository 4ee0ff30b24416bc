-- ===== src/Watchdog/Checks.antt =====
-- `stable_service` and `evaluate_timing` of watchdog/scripts/run-panic-recovery.py, and the records
-- that they read. Times are milliseconds on the controller's clock.
pub mod Passed
use homelab_server_configs.Prelude.{
  ℕ, ◌+◌, String, Bool, true, false, not, ◌&&◌, Option, none, some, List, [], ◌∷◌, leb, all, any,
  str_eq, if◌then◌else◌,
}
use homelab_server_configs.Prelude.Exec.{value_error, Outcome, returned, raised}
use homelab_server_configs.Watchdog.Timing

-- A native observation: the boot, the lines of the service's properties that hold a `=`, split at
-- the first one, and the two verdicts of `health`.
pub record Native : Type 0 where
  pub boot : String
  pub service : List (String × String)
  pub available : Bool
  pub precision : Bool

pub record Reply : Type 0 where
  pub available : Bool
  pub precision : Bool
  pub finished : ℕ

pub record Row : Type 0 where
  pub finished : ℕ
  pub native : Option Native
  pub clients : List (String × Reply)
  pub bounded : Bool
  pub available : Bool
  pub precision : Bool

pub record Stage : Type 0 where
  pub passed : Bool
  pub finished : ℕ
  pub origin : ℕ

abbrev pub not_passed : Stage
not_passed = record { passed = false; finished = 0; origin = 0 }

abbrev pub lookup : String → List (String × String) → Option String
lookup k [] = none
lookup k ((j, v) ∷ rest) = if str_eq j k then some v else lookup k rest

abbrev pub distinct_keys : List (String × String) → Bool
distinct_keys [] = true
distinct_keys ((k, v) ∷ rest) = not (any (λ p. str_eq p.0 k) rest) && distinct_keys rest

abbrev pub same_text : Option String → Option String → Bool
same_text none none = true
same_text (some s) (some t) = str_eq s t
same_text _ _ = false

abbrev pub same_state : List (String × String) → List (String × String) → Bool
same_state a b =
    all (λ key. same_text (lookup key a) (lookup key b))
      ("MainPID" ∷ "InvocationID" ∷ "NRestarts" ∷ [])

-- `stable_service(first, later)`
unfoldable pub stable_service : Native → Native → Outcome Unit
stable_service first later =
    if not (str_eq first.boot later.boot)
    then raised (value_error "supervisor restarted")
    else if not (distinct_keys first.service && distinct_keys later.service)
    then raised (value_error "duplicate service properties")
    else if not (same_state first.service later.service)
    then raised (value_error "supervisor restarted")
    else returned tt

abbrev pub spaced : List ℕ → Bool
spaced (c ∷ b ∷ a ∷ rest) = leb (a + 30000) b && leb (b + 30000) c
spaced _ = false

-- `evaluate_timing(submit, confirmation, stamps, boot, initial_boot)` for a confirmation that is the
-- newest stamp, as in its only call.
unfoldable pub evaluate_timing : ℕ → List ℕ → String → String → Outcome Unit
evaluate_timing submit [] boot initial = raised (
    value_error
      (if str_eq boot initial then "new boot required" else "three spaced samples required"))
evaluate_timing submit (confirmation ∷ older) boot initial =
    if str_eq boot initial
    then raised (value_error "new boot required")
    else if not (spaced (confirmation ∷ older))
    then raised (value_error "three spaced samples required")
    else if not (leb confirmation (submit + Timing.convergence))
    then raised (value_error "30-minute convergence deadline")
    else returned tt

abbrev pub set_default : String → ℕ → List (String × ℕ) → List (String × ℕ)
set_default k v [] = (k, v) ∷ []
set_default k v ((j, w) ∷ rest) =
    if str_eq j k then (j, w) ∷ rest else (j, w) ∷ set_default k v rest

abbrev pub successes : List (String × Reply) → List (String × ℕ) → List (String × ℕ)
successes [] found = found
successes ((family, reply) ∷ rest) found =
    successes rest (if reply.available then set_default family reply.finished found else found)

abbrev pub native_or : (Native → Bool) → Option Native → Bool
native_or f none = false
native_or f (some n) = f n
