-- ===== src/KeyCreation/Report.antt =====
-- `validate_root` and the `try` block of `main`, with what its handlers report.
pub mod Honest
use homelab_server_configs.Prelude.{
  ℕ, String, Bool, true, false, not, ◌&&◌, ◌||◌, Option, none, some, List, [], ◌∷◌, ◌==◌, leb, all,
  any, is_empty, str_eq, one_of, codes, starts_with_codes, if◌then◌else◌,
}
use homelab_server_configs.Prelude.Exec.{
  Error, blocked, value_error, os_error, other_error, refused, Outcome, returned, raised, Exec,
  pure, lift, gets, catch, ◌>>=◌, ◌>>◌,
}
use homelab_server_configs.KeyPreflight.Client.{Provider, Run, SplitUrl}
use homelab_server_configs.KeyCreation.Creation.{Python, note, perform_creation}
use homelab_server_configs.S3Probe.Session.{DirectoryInfo, EvidencePath, is_word_char}

-- `re.fullmatch(r"backblaze-b2-replacement-key-creation\.[A-Za-z0-9_]+", name)`
abbrev is_root_name : String → Bool
is_root_name name =
    elim (starts_with_codes (codes "backblaze-b2-replacement-key-creation.") (codes name)) [
      | none ↦ false
      | some rest ↦ not (is_empty rest) && all is_word_char rest
    ]

opened_root : ℕ → Option ℕ → Option DirectoryInfo → Outcome ℕ
opened_root own_uid opened none = raised (refused "invalid_evidence_root" false)
opened_root own_uid opened (some info) =
    if not info.is_directory
      || info.is_link
      || not (info.uid == own_uid)
      || not (info.mode == 0o700)
    then raised (refused "unsafe_evidence_root" false)
    else elim opened [
      | none ↦ raised (refused "invalid_evidence_root" false)
      | some fd ↦ returned fd
    ]

pub validate_root : ℕ → EvidencePath → Outcome ℕ
unfolding opened_root
validate_root own_uid path =
    if not path.is_absolute || not (str_eq path.parent "/tmp") || not (is_root_name path.name)
    then raised (refused "invalid_evidence_root" false)
    else opened_root own_uid path.open_directory path.lstat

-- `result`, `error_class` and `mutation_attempted` when the `try` statement has ended.
pub record Verdict : Type 0 where
  pub result : String
  pub error_class : Option String
  pub mutation_attempted : Bool

abbrev pub has_check : String → List String → Bool
has_check check checks = any (str_eq check) checks

abbrev pub refused_verdict : String → Bool → Verdict
refused_verdict code attempted = record {
  result = if attempted then "manual_intervention" else "blocked";
  error_class = some code;
  mutation_attempted = attempted;
}

abbrev pub internal_verdict : Bool → Verdict
internal_verdict attempted = record {
  result = if attempted then "manual_intervention" else "internal_error";
  error_class = some "internal_error";
  mutation_attempted = attempted;
}

module _ (env : Provider) (split_url : String → SplitUrl) (python : Python)
    (sink : String → String → env.State → Outcome Unit × env.State)
    (read_secrets : env.State → Outcome String × env.State) (own_uid : ℕ)
    (path : EvidencePath) where
  -- The two calls of `read_admin_secret`, and the header that is made of what they give.
  pub read_header : Exec (Run env.State) String
  read_header s = let (o, w) = read_secrets s.world in (o, record s { world = w })

  pub main_steps : Outcome (List String) → Exec (Run env.State) Verdict
  unfolding read_header
  main_steps doppler_names = do
    root ← lift (validate_root own_uid path)
    basic ← read_header
    note env split_url python sink "administrator_doppler_secret_names_resolve"
    perform_creation env split_url python sink basic doppler_names
    pure
        (record { result = "created_and_delivered"; error_class = none; mutation_attempted = true })

  -- The `except` clauses.
  pub classify : Error → Exec (Run env.State) Verdict
  classify (refused code attempted) = do
    noted ← gets (λ s. has_check "provider_create_attempted" s.checks)
    pure (refused_verdict code (attempted || noted))
  classify (blocked code) =
      pure (record { result = "blocked"; error_class = some code; mutation_attempted = false })
  classify _ = do
    noted ← gets (λ s. has_check "provider_create_attempted" s.checks)
    pure (internal_verdict noted)

  pub main_verdict : Outcome (List String) → Exec (Run env.State) Verdict
  unfolding main_steps classify
  main_verdict doppler_names = catch (main_steps doppler_names) classify
