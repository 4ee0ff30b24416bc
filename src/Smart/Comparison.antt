-- ===== src/Smart/Comparison.antt =====
-- `exit_bits`, `query_argv` and `query_plan`: what the comparison of two versions of smartctl asks
-- of the device, and what an exit status says.
pub mod Bits
pub mod Plan
use homelab_server_configs.Prelude.{
  ℕ, zero, suc, ◌+◌, ◌*◌, ◌/◌, ◌%◌, ◌^◌, String, Bool, true, false, not, ◌&&◌, ◌||◌, Option, none,
  some, List, [], ◌∷◌, ◌++◌, leb, ◌==◌, str_eq, one_of, is_hex, text_append, if◌then◌else◌,
}
use homelab_server_configs.Prelude.Exec.{value_error, Outcome, returned, raised, and_then, checks}

-- The return code of a process: negative for a signal.
pub data Status : Type 0 where
  exited : ℕ → Status
  signalled : Status

abbrev pub flags : List String
flags =
    "invocation" ∷ "device_open" ∷ "smart_command" ∷ "health" ∷ "prefail_current"
    ∷ "prefail_historical" ∷ "error_log" ∷ "selftest_log" ∷ []

-- The names of the bits that are set, from `bit` on.
abbrev pub set_bits : ℕ → ℕ → List String → List String
set_bits code bit [] = []
set_bits code bit (name ∷ rest) =
    let others = set_bits code (suc bit) rest in
    if (code / 2 ^ bit) % 2 == 1 then name ∷ others else others

unfoldable pub exit_bits : Status → List String
exit_bits signalled = "signal_or_timeout" ∷ []
exit_bits (exited code) = if leb code 255 then set_bits code 0 flags else "signal_or_timeout" ∷ []

-- `query_argv(binary, device_type, attribution, database)`
unfoldable pub query_argv : String → String → Bool → Option String → Outcome (List String)
query_argv binary device_type attribution database =
    if not (one_of ("sntjmicron" ∷ "sat/sntjmicron" ∷ "auto" ∷ []) device_type)
      || (str_eq device_type "auto" && elim database [ none ↦ true | some path ↦ false ])
    then raised (value_error "unreviewed_device_type")
    else returned (
        (binary ∷ elim database [ none ↦ [] | some path ↦ "-B" ∷ text_append "+" path ∷ [] ])
        ++ ("-d"
            ∷ device_type
            ∷ "-r"
            ∷ (if attribution then "ioctl,2" else "nvmeioctl,2")
            ∷ "-q"
            ∷ "noserial"
            ∷ "-l"
            ∷ "selftest"
            ∷ "/dev/sda"
            ∷ []))

-- The fields of the specification that the plan reads; `none` is a key that is left out. The two
-- flags are true for any value but JSON's false.
pub record Trial : Type 0 where
  pub comparison_mode : Option String
  pub queries : ℕ
  pub observation_after_each_seconds : ℕ
  pub maximum_trial_seconds : ℕ
  pub production_changes : Bool
  pub self_test_start : Bool
  pub expected_bcd_device : Option String
  pub database_sha256 : Option String

pub record Query : Type 0 where
  pub label : String
  pub binary : String
  pub device_type : String

abbrev pub query : String → String → String → Query
query label binary device_type = record {
  label = label;
  binary = binary;
  device_type = device_type;
}

abbrev pub repeat : ℕ → List Query → List Query
repeat zero queries = []
repeat (suc n) queries = queries ++ repeat n queries

abbrev pub mode_of : Trial → String
mode_of spec = elim spec.comparison_mode [ none ↦ "installed_vs_candidate" | some mode ↦ mode ]

abbrev pub is_given : String → Option String → Bool
is_given expected none = false
is_given expected (some text) = str_eq text expected

abbrev pub is_digest : Option String → Bool
is_digest none = false
is_digest (some text) = is_hex 64 text

-- The modes in which the driver also traces the lower layers.
abbrev pub attributed : String → Bool
attributed mode = one_of ("candidate_detection_attribution" ∷ "candidate_local_database" ∷ []) mode

abbrev pub scope_checks : Trial → List (Bool × String)
scope_checks spec =
    (
      (spec.queries == (if attributed (mode_of spec) then 2 else 6))
          && (spec.observation_after_each_seconds == 75)
          && (spec.maximum_trial_seconds == 900)
          && not spec.production_changes
          && not spec.self_test_start,
      "unreviewed_trial_scope",
    )
    ∷ []

abbrev pub database_checks : Trial → List (Bool × String)
database_checks spec =
    (
      is_given "0213" spec.expected_bcd_device && is_digest spec.database_sha256,
      "unreviewed_database",
    )
    ∷ []

abbrev pub bridge_checks : Trial → List (Bool × String)
bridge_checks spec = (is_given "0213" spec.expected_bcd_device, "unreviewed_bridge_revision") ∷ []

abbrev pub explicit_and_combined : String → List Query
explicit_and_combined candidate =
    query "candidate-explicit" candidate "sntjmicron"
    ∷ query "candidate-combined" candidate "sat/sntjmicron"
    ∷ []

-- What follows the check of the scope.
pub planned : Trial → String → String → Outcome (List Query)
planned spec candidate mode =
    if str_eq mode "candidate_local_database"
    then and_then (checks (database_checks spec)) (λ _. returned (
        query "candidate-explicit" candidate "sntjmicron"
        ∷ query "candidate-auto" candidate "auto"
        ∷ []))
    else if str_eq mode "candidate_device_types"
    then and_then (checks (bridge_checks spec))
        (λ _. returned (repeat 3 (explicit_and_combined candidate)))
    else if str_eq mode "candidate_detection_attribution"
    then and_then (checks (bridge_checks spec))
        (λ _. returned (repeat 1 (explicit_and_combined candidate)))
    else if str_eq mode "installed_vs_candidate"
    then returned (
        repeat 3 (
          query "installed" "/usr/sbin/smartctl" "sntjmicron"
          ∷ query "candidate" candidate "sntjmicron"
          ∷ []))
    else raised (value_error "unreviewed_comparison_mode")

unfoldable pub query_plan : Trial → String → Outcome (List Query)
unfolding planned
query_plan spec candidate =
    and_then (checks (scope_checks spec)) (λ _. planned spec candidate (mode_of spec))

-- The command line of a query of the plan, as `main` asks for it: the database is there in the one
-- mode, and is given where the type of the device is to be found out.
pub planned_argv : String → String → Query → Outcome (List String)
unfolding query_argv
planned_argv mode database q = query_argv q.binary q.device_type (attributed mode) (
    if str_eq mode "candidate_local_database" && str_eq q.device_type "auto"
    then some database
    else none)

-- `require_continue(code, storage_event, unchanged)`
pub require_continue : Status → Bool → Bool → Outcome Unit
require_continue (exited zero) storage_event unchanged =
    checks ((not storage_event && unchanged, "stop_further_queries") ∷ [])
require_continue _ storage_event unchanged = raised (value_error "stop_further_queries")
