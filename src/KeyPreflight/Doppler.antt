-- ===== src/KeyPreflight/Doppler.antt =====
-- `validate_evidence_root`, `doppler_secret_argv`, `read_admin_secret` and `read_doppler_names`, over
-- what `run_bounded_doppler` gives for a command line and a failure code.
use homelab_server_configs.Prelude.{
  ℕ, String, Bool, true, false, not, ◌&&◌, ◌||◌, Option, none, some, List, [], ◌∷◌, ◌++◌, ◌==◌, ltb,
  all, any, is_empty, length, one_of, codes, str_eq, starts_with_codes, if◌then◌else◌,
}
use homelab_server_configs.Prelude.Exec.{Outcome, returned, raised}
use homelab_server_configs.Prelude.Json.{Json, object, Fields, end, field}
use homelab_server_configs.KeyPreflight.Client.{preflight_blocked}
use homelab_server_configs.S3Probe.Session.{DirectoryInfo, EvidencePath, is_word_char}
use homelab_server_configs.S3Probe.Credentials.{is_forbidden, max_credential_bytes}

abbrev admin_doppler_project : String
admin_doppler_project = "homelab-dev"

abbrev admin_doppler_config : String
admin_doppler_config = "prd_b2_admin"

abbrev pub admin_key_id_name : String
admin_key_id_name = "BACKBLAZE_B2_MASTER_APPLICATION_KEY_ID"

abbrev admin_key_value_name : String
admin_key_value_name = "BACKBLAZE_B2_MASTER_APPLICATION_KEY"

abbrev doppler_base : List String
doppler_base = "doppler" ∷ "--no-check-version" ∷ "--no-read-env" ∷ "--silent" ∷ []

abbrev pub doppler_names_argv : List String
doppler_names_argv =
    doppler_base
    ++ ("secrets" ∷ "--project" ∷ "homelab-dev" ∷ "--config" ∷ "prd_b2" ∷ "--only-names" ∷ "--json"
        ∷ [])

abbrev is_preflight_name : String → Bool
is_preflight_name name =
    elim (starts_with_codes (codes "backblaze-b2-capability-preflight.") (codes name)) [
      | none ↦ false
      | some rest ↦ not (is_empty rest) && all is_word_char rest
    ]

opened_directory : ℕ → Option ℕ → Option DirectoryInfo → Outcome ℕ
opened_directory own_uid opened none = raised (preflight_blocked "invalid_evidence_root")
opened_directory own_uid opened (some info) =
    if not info.is_directory || info.is_link
    then raised (preflight_blocked "invalid_evidence_root")
    else if not (info.uid == own_uid) || not (info.mode == 0o700)
    then raised (preflight_blocked "unsafe_evidence_root")
    else elim opened [
      | none ↦ raised (preflight_blocked "invalid_evidence_root")
      | some fd ↦ returned fd
    ]

pub validate_preflight_root : ℕ → EvidencePath → Outcome ℕ
unfolding opened_directory
validate_preflight_root own_uid path =
    if not path.is_absolute || not (str_eq path.parent "/tmp") || not (is_preflight_name path.name)
    then raised (preflight_blocked "invalid_evidence_root")
    else opened_directory own_uid path.open_directory path.lstat

unfoldable pub admin_secret_argv : String → Outcome (List String)
admin_secret_argv name =
    if one_of (admin_key_id_name ∷ admin_key_value_name ∷ []) name
    then returned (
        doppler_base
        ++ ("secrets" ∷ "get" ∷ name ∷ "--project" ∷ admin_doppler_project ∷ "--config"
            ∷ admin_doppler_config ∷ "--plain" ∷ []))
    else raised (preflight_blocked "invalid_admin_secret_name")

-- `if value.endswith(…): del value[-1:]`, for one byte.
abbrev ends_with : ℕ → List ℕ → Bool
ends_with b [] = false
ends_with b (c ∷ []) = c == b
ends_with b (c ∷ rest) = ends_with b rest

abbrev drop_last : List ℕ → List ℕ
drop_last [] = []
drop_last (c ∷ []) = []
drop_last (c ∷ d ∷ rest) = c ∷ drop_last (d ∷ rest)

abbrev drop_end : ℕ → List ℕ → List ℕ
drop_end b value = if ends_with b value then drop_last value else value

-- One line feed, and then one carriage return, is taken from the end.
unfoldable pub strip_line_end : List ℕ → List ℕ
strip_line_end value = if ends_with 10 value then drop_end 13 (drop_last value) else value

checked_value : List ℕ → Outcome (List ℕ)
checked_value value =
    if is_empty value || ltb max_credential_bytes (length value) || any is_forbidden value
    then raised (preflight_blocked "invalid_admin_secret_value")
    else returned value

stripped : Outcome (List ℕ) → Outcome (List ℕ)
unfolding checked_value
stripped (returned captured) = checked_value (strip_line_end captured)
stripped (raised e) = raised e

run_secret : (List String → String → Outcome (List ℕ)) → Outcome (List String) → Outcome (List ℕ)
run_secret run (returned argv) = run argv "doppler_admin_secret_lookup_failed"
run_secret run (raised e) = raised e

unfoldable pub read_admin_secret :
    (List String → String → Outcome (List ℕ)) → String → Outcome (List ℕ)
unfolding stripped run_secret
read_admin_secret run name = stripped (run_secret run (admin_secret_argv name))

-- `any(value != {} for value in output.values())` does not hold.
abbrev is_bare : Json → Bool
is_bare (object end) = true
is_bare _ = false

abbrev pub all_bare : Fields → Bool
all_bare end = true
all_bare (field k j rest) = is_bare j && all_bare rest

abbrev pub names_of : Fields → List String
names_of end = []
names_of (field k j rest) = k ∷ names_of rest

bare_names : Option Json → Outcome (List String)
bare_names (some (object fs)) =
    if all_bare fs
    then returned (names_of fs)
    else raised (preflight_blocked "doppler_values_exposed")
bare_names _ = raised (preflight_blocked "invalid_doppler_output")

parsed_names : (List ℕ → Option Json) → Outcome (List ℕ) → Outcome (List String)
unfolding bare_names
parsed_names parse_json (returned captured) = bare_names (parse_json captured)
parsed_names parse_json (raised e) = raised e

unfoldable pub read_doppler_names :
    (List String → String → Outcome (List ℕ)) → (List ℕ → Option Json) → Outcome (List String)
unfolding parsed_names
read_doppler_names run parse_json =
    parsed_names parse_json (run doppler_names_argv "doppler_metadata_failed")
