-- ===== src/S3Probe/Credentials.antt =====
-- `doppler_secret_argv` and `read_secret`, with the process as an argument.
use homelab_server_configs.Prelude.{
  ℕ, String, Bool, true, false, not, ◌||◌, List, [], ◌∷◌, ◌++◌, ◌≡◌, refl, sym, ap, ◌∙◌, arith,
  ◌==◌, ltb, ◌≤◌, all, any, is_empty, length, one_of, if◌then◌else◌, inl, inr, Bool-cases,
}
use homelab_server_configs.Prelude.Exec.{Outcome, returned, raised}
use homelab_server_configs.S3Probe.Recorder.{probe_blocked}

abbrev pub key_id_name : String
key_id_name = "NAUTOBOT_RESTIC_B2_APPLICATION_KEY_ID"

abbrev pub key_value_name : String
key_value_name = "NAUTOBOT_RESTIC_B2_APPLICATION_KEY"

abbrev pub max_credential_bytes : ℕ
max_credential_bytes = 4096

abbrev project : String
project = "homelab-dev"

abbrev config : String
config = "prd_b2"

abbrev doppler_base : List String
doppler_base = "doppler" ∷ "--no-check-version" ∷ "--no-read-env" ∷ "--silent" ∷ []

-- `DOPPLER_BASE` with the arguments of one secret.
unfoldable pub doppler_secret_argv : String → Outcome (List String)
doppler_secret_argv name =
    if one_of (key_id_name ∷ key_value_name ∷ []) name
    then returned (
        doppler_base
        ++ ("secrets" ∷ "get" ∷ name ∷ "--project" ∷ project ∷ "--config" ∷ config ∷ "--plain"
            ∷ []))
    else raised (probe_blocked "invalid_secret_name")

-- How the process ended: it could not be run or timed out, or its status and its output.
pub data Completed : Type 0 where
  not_run : Completed
  completed : Bool → List ℕ → Completed

abbrev pub is_line_end : ℕ → Bool
is_line_end c = (c == 10) || (c == 13)

-- A byte, before what is left of the bytes behind it.
abbrev keep_before : ℕ → List ℕ → List ℕ
keep_before c [] = if is_line_end c then [] else c ∷ []
keep_before c (d ∷ rest) = c ∷ d ∷ rest

-- `while value.endswith(b"\n") or value.endswith(b"\r"): value.pop()`
unfoldable pub strip_line_ends : List ℕ → List ℕ
strip_line_ends [] = []
strip_line_ends (c ∷ rest) = keep_before c (strip_line_ends rest)

-- `b"\n" in value or b"\r" in value or b"\0" in value`
abbrev pub is_forbidden : ℕ → Bool
is_forbidden c = is_line_end c || (c == 0)

checked_secret : List ℕ → Outcome (List ℕ)
checked_secret value =
    if is_empty value || any is_forbidden value
    then raised (probe_blocked "invalid_secret_value")
    else returned value

read_completed : Completed → Outcome (List ℕ)
unfolding checked_secret
read_completed not_run = raised (probe_blocked "doppler_read_failed")
read_completed (completed zero_status output) =
    if not zero_status || is_empty output || ltb max_credential_bytes (length output)
    then raised (probe_blocked "doppler_read_failed")
    else checked_secret (strip_line_ends output)

abbrev run_argv : (List String → Completed) → Outcome (List String) → Outcome (List ℕ)
run_argv runner (returned argv) = read_completed (runner argv)
run_argv runner (raised e) = raised e

-- `read_secret(name, runner)`
unfoldable pub read_secret : (List String → Completed) → String → Outcome (List ℕ)
unfolding read_completed
read_secret runner name = run_argv runner (doppler_secret_argv name)

-- A stripped value is what was there, less bytes at its end that are line ends.
pub strip_line_ends-split :
    (value : List ℕ)
    → (tail : List ℕ) × (strip_line_ends value ++ tail ≡ value) × (all is_line_end tail ≡ true)
unfolding strip_line_ends
strip_line_ends-split [] = ([], refl, refl)
strip_line_ends-split (c ∷ rest) = extend c rest (strip_line_ends rest) (strip_line_ends-split rest)
  where
    extend :
        (c : ℕ) (rest kept : List ℕ)
        → (tail : List ℕ) × (kept ++ tail ≡ rest) × (all is_line_end tail ≡ true)
        → (tail : List ℕ) × (keep_before c kept ++ tail ≡ c ∷ rest) × (all is_line_end tail ≡ true)
    extend c rest [] (tail, e, h) = elim (Bool-cases (is_line_end c)) [
      | inl ends ↦ (c ∷ tail, rw ends (ap (λ r. c ∷ r) e), rw (ends, h))
      | inr stays ↦ (tail, rw stays (ap (λ r. c ∷ r) e), h)
    ]
    extend c rest (d ∷ kept) (tail, e, h) = (tail, ap (λ r. c ∷ r) e, h)

length-strip_line_ends : (value : List ℕ) → length (strip_line_ends value) ≤ length value
unfolding strip_line_ends
length-strip_line_ends [] = omega arith
length-strip_line_ends (c ∷ rest) =
    shorter c rest (strip_line_ends rest) (length-strip_line_ends rest)
  where
    shorter :
        (c : ℕ) (rest kept : List ℕ)
        → length kept ≤ length rest
        → length (keep_before c kept) ≤ length (c ∷ rest)
    shorter c rest [] h = ground arith
    shorter c rest (d ∷ kept) h = omega arith

read_completed-returned :
    (c : Completed) (value : List ℕ)
    → read_completed c ≡ returned value
    → (is_empty value ≡ false)
      × (any is_forbidden value ≡ false)
      × ((output : List ℕ) × (c ≡ completed true output)
          × (length output ≤ max_credential_bytes)
          × (strip_line_ends output ≡ value))
unfolding read_completed
read_completed-returned not_run value h = cc
read_completed-returned (completed z output) value h =
    (ground arith, ground arith, (output, ground arith, ground arith, ground arith))

run_argv-returned :
    (runner : List String → Completed) (o : Outcome (List String)) (value : List ℕ)
    → run_argv runner o ≡ returned value
    → (argv : List String) × (o ≡ returned argv) × (read_completed (runner argv) ≡ returned value)
run_argv-returned runner (returned argv) value h = (argv, refl, h)
run_argv-returned runner (raised e) value h = cc

-- A secret that is read is not empty, has 4096 bytes at most and holds no line end and no NUL.
-- It is the output of a process that ended with status zero, less line ends at the output's end.
pub read_secret-clean :
    (runner : List String → Completed) (name : String) (value : List ℕ)
    → read_secret runner name ≡ returned value
    → (is_empty value ≡ false)
      × (length value ≤ max_credential_bytes)
      × (any is_forbidden value ≡ false)
      × ((argv : List String) × (output tail : List ℕ) × (doppler_secret_argv name ≡ returned argv)
          × (runner argv ≡ completed true output)
          × (value ++ tail ≡ output)
          × (all is_line_end tail ≡ true))
unfolding read_secret
read_secret-clean runner name value h =
    let (argv, argv_is, run_is) = run_argv-returned runner (doppler_secret_argv name) value h in
    let (filled, clean, rest) = read_completed-returned (runner argv) value run_is in
    let (output, output_is, bounded, stripped) = rest in
    let (tail, split, ends) = strip_line_ends-split output in
    (
      filled,
      omega (arith, length-strip_line_ends output, ap length stripped),
      clean,
      (argv, output, tail, argv_is, output_is, ap (λ v. v ++ tail) (sym stripped) ∙ split, ends),
    )
