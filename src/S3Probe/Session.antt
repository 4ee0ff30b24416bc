-- ===== src/S3Probe/Session.antt =====
-- `validate_evidence_root` and `execute`.
use homelab_server_configs.Prelude.{
  ℕ, String, Bool, false, not, ◌&&◌, ◌||◌, Option, none, some, List, [], ◌∷◌, ◌==◌, leb, all,
  is_empty, one_of, codes, str_eq, starts_with_codes, if◌then◌else◌,
}
use homelab_server_configs.Prelude.Exec.{
  Outcome, returned, raised, Exec, lift, require, ◌>>=◌, ◌>>◌,
}
use homelab_server_configs.Prelude.Json.{Json}
use homelab_server_configs.S3Probe.Recorder.{World, Run, probe_blocked, init_recorder}
use homelab_server_configs.S3Probe.Credentials.{Completed, read_secret, key_id_name, key_value_name}
use homelab_server_configs.S3Probe.Transaction.{Library, perform_probe}
use homelab_server_configs.S3Probe.Preflight.{Opened, perform_read_only_preflight}

-- What `lstat` tells of the evidence directory.
pub record DirectoryInfo : Type 0 where
  pub is_directory : Bool
  pub is_link : Bool
  pub uid : ℕ
  -- `stat.S_IMODE(info.st_mode)`
  pub mode : ℕ

-- The path, and what the calls of `os` on it give; `none` is an `OSError`.
pub record EvidencePath : Type 0 where
  pub is_absolute : Bool
  pub parent : String
  pub name : String
  pub lstat : Option DirectoryInfo
  pub open_directory : Option ℕ

-- `[A-Za-z0-9_]`
abbrev pub is_word_char : ℕ → Bool
is_word_char c =
    (leb b'A' c && leb c b'Z')
    || (leb b'a' c && leb c b'z')
    || (leb b'0' c && leb c b'9')
    || (c == b'_')

-- `re.fullmatch(r"backblaze-b2-s3-compatibility\.[A-Za-z0-9_]+", name)`
unfoldable pub is_evidence_name : String → Bool
is_evidence_name name =
    elim (starts_with_codes (codes "backblaze-b2-s3-compatibility.") (codes name)) [
      | none ↦ false
      | some rest ↦ not (is_empty rest) && all is_word_char rest
    ]

checked_directory : ℕ → Option ℕ → Option DirectoryInfo → Outcome ℕ
checked_directory own_uid opened none = raised (probe_blocked "invalid_evidence_root")
checked_directory own_uid opened (some info) =
    if not info.is_directory || info.is_link
    then raised (probe_blocked "invalid_evidence_root")
    else if not (info.uid == own_uid) || not (info.mode == 0o700)
    then raised (probe_blocked "unsafe_evidence_root")
    else elim opened [
      | none ↦ raised (probe_blocked "invalid_evidence_root")
      | some fd ↦ returned fd
    ]

unfoldable pub validate_evidence_root : ℕ → EvidencePath → Outcome ℕ
unfolding checked_directory
validate_evidence_root own_uid path =
    if not path.is_absolute || not (str_eq path.parent "/tmp") || not (is_evidence_name path.name)
    then raised (probe_blocked "invalid_evidence_root")
    else checked_directory own_uid path.open_directory path.lstat

module _ (env : World) (lib : Library) (parse_json : List ℕ → Option Json)
    (open_native : env.State → Opened × env.State) (runner : List String → Completed) where
  -- `execute`: the two secrets are read after the first write of the evidence. The transport that is
  -- built from them is the `request` of the world.
  pub execute : ℕ → EvidencePath → String → String → String → Exec (Run env.State) String
  execute own_uid evidence_root bundle_sha256 run_id mode = do
    require (one_of ("preflight" ∷ "execute" ∷ []) mode) (probe_blocked "invalid_execution_mode")
    root_fd ← lift (validate_evidence_root own_uid evidence_root)
    init_recorder env bundle_sha256
    key_id ← lift (read_secret runner key_id_name)
    application_key ← lift (read_secret runner key_value_name)
    if str_eq mode "preflight"
        then perform_read_only_preflight env lib parse_json open_native run_id
        else perform_probe env lib run_id
