-- ===== src/Watchdog/Operator.antt =====
-- `validate_operator` of watchdog/scripts/run-panic-recovery.py, and what `trigger_channel` asks of the
-- worker's first line. Times are milliseconds.
pub mod Checked
use homelab_server_configs.Prelude.{
  ℕ, zero, suc, ◌+◌, ◌-◌, ◌*◌, String, Bool, true, false, not, ◌&&◌, ◌||◌, Option, none, some, List,
  [], ◌∷◌, ◌++◌, ◌==◌, leb, ltb, length, str_eq, all, any, is_empty, select, is_hex, codes,
  if◌then◌else◌,
}
use homelab_server_configs.Prelude.Exec.{
  Error, value_error, other_error, Outcome, returned, raised, Exec, pure, lift, raise, gets, modify,
  require, and_then, ◌>>=◌, ◌>>◌,
}
use homelab_server_configs.Prelude.Json.{Json, boolean, string, object, Fields, find, equals_text}

-- A number of Python: below zero, or so many milliseconds where the source counts seconds.
pub data Number : Type 0 where
  negative : Number
  millis : ℕ → Number

abbrev pub is_true : Option Json → Bool
is_true (some (boolean true)) = true
is_true _ = false

abbrev pub prerequisites : List String
prerequisites =
    "aaron_attending" ∷ "console_identifies_j2" ∷ "laptop_independent_power" ∷ "peer_serving"
    ∷ "antenna_on_j1" ∷ "j2_port_identified" ∷ "recovery_card_available" ∷ "reservation_90_minutes"
    ∷ "no_other_reset_actions" ∷ "notes_ready" ∷ []

abbrev pub all_true : Fields → Bool
all_true fs = all (λ k. is_true (find k fs)) prerequisites

abbrev a_number : Option Number → Outcome Number
a_number none = raised other_error
a_number (some n) = returned n

-- `value[key]` of a number, for a key that has to be there.
abbrev pub number_of : (Json → Option Number) → Option Json → Outcome Number
number_of number none = raised other_error
number_of number (some j) = a_number (number j)

-- `isinstance(value, (int, float)) and 0 <= value <= limit`
abbrev pub at_most : (Json → Option Number) → ℕ → Option Json → Bool
at_most number limit none = false
at_most number limit (some j) = elim (number j) [
  | some (millis n) ↦ leb n limit
  | some negative ↦ false
  | none ↦ false
]

-- `0 <= now-epoch <= 300`
abbrev pub is_fresh : ℕ → Number → Bool
is_fresh now negative = false
is_fresh now (millis epoch) = leb epoch now && leb now (epoch + 300000)

abbrev is_fallback : Option Json → Bool
is_fallback (some (string s)) =
    str_eq s "unknown-hold-powered-off" || (leb 1 (length (codes s)) && leb (length (codes s)) 256)
is_fallback _ = false

pub operator_steps : (Json → Option Number) → Fields → ℕ → Number → Outcome Unit
operator_steps number fs now epoch =
    if not (is_fresh now epoch)
    then raised (value_error "operator record binding/freshness")
    else if not (all_true fs)
    then raised (value_error "operator prerequisites incomplete")
    else if not (at_most number 2000 (find "clock_uncertainty_seconds" fs))
    then raised (value_error "clock uncertainty")
    else if not (is_fallback (find "fallback_identity" fs))
    then raised (value_error "fallback identity disposition")
    else returned tt

-- `validate_operator(value, digest, now)`
unfoldable pub validate_operator : (Json → Option Number) → Json → String → ℕ → Outcome Unit
unfolding operator_steps
validate_operator number (object fs) digest now =
    if not (equals_text digest (find "bundle_sha256" fs))
    then raised (value_error "operator record binding/freshness")
    else and_then (number_of number (find "epoch" fs)) (operator_steps number fs now)
validate_operator number _ digest now = raised other_error

-- The nonce of the worker's first line: `ready.get('ready') is True and re.fullmatch(…)`.
abbrev pub nonce_of : Option Json → Outcome String
nonce_of (some (string s)) =
    if is_hex 64 s then returned s else raised (value_error "worker readiness")
nonce_of _ = raised other_error

unfoldable pub ready_nonce : Option Json → Outcome String
ready_nonce none = raised (value_error "JSON")
ready_nonce (some (object fs)) =
    if is_true (find "ready" fs)
    then nonce_of (find "nonce" fs)
    else raised (value_error "worker readiness")
ready_nonce (some _) = raised other_error

-- `ready['health_started_offset']`, a number from 0 to 90 seconds.
unfoldable pub health_offset : (Json → Option Number) → Option Json → Outcome ℕ
health_offset number (some (object fs)) = elim (find "health_started_offset" fs) [
  | none ↦ raised other_error
  | some j ↦ elim (number j) [
    | some (millis n) ↦ if leb n 90000 then returned n else raised (value_error "health offset")
    | some negative ↦ raised (value_error "health offset")
    | none ↦ raised (value_error "health offset")
  ]
]
health_offset number _ = raised other_error
