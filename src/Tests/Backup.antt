-- ===== src/Tests/Backup.antt =====
-- Runs of the backup's protection at concrete configurations and hosts.
use homelab_server_configs.Prelude.{
  ℕ, ◌+◌, ◌*◌, ◌≤◌, ◌<◌, String, Bool, true, false, Option, none, some, List, [], ◌∷◌, ◌≡◌, refl,
  arith, if◌then◌else◌,
}
use homelab_server_configs.Prelude
use homelab_server_configs.Prelude.Exec
use homelab_server_configs.Prelude.Exec.{Outcome, returned}
use homelab_server_configs.Protection.Window.{Config, end_of, validate, in_window, in_window-latest}
use homelab_server_configs.Protection.Supervisor.{
  Phase, idle, armed, StateFile, Settings, Host, Node, recover_locked, run_locked, quiesce,
}
use homelab_server_configs.Protection.Supervisor.Recovery.{QuietFirst, recover_locked-QuietFirst}
use homelab_server_configs.Protection.Supervisor.Phases.{Earned, run_locked-Earned}
use homelab_server_configs.Protection.Supervisor.Verdict.{Verdict}
use homelab_server_configs.Protection.Supervisor.Polling.{Finished, quiesce-ends}

abbrev config : Config
config = record {
  start_hour = 2;
  start_minute = none;
  end_hour = 5;
  end_minute = some 30;
  capture_seconds = 300;
  recovery_seconds = 300;
  run_seconds = 3600;
  latest_start_minute = some 200;
  window_date = none;
}

config_is_valid : validate config ≡ returned tt
unfolding validate
config_is_valid = refl

two_thirty_is_open : in_window config "2026-01-02" 9000 ≡ true
unfolding in_window
two_thirty_is_open = refl

in_window-latest_example :
    (9000 + 3600 + 300 + 215 ≤ end_of config * 60)
    × (end_of config * 60 ≤ 86400)
    × (300 + 300 < 3600)
in_window-latest_example =
    in_window-latest config 200 "2026-01-02" 9000 config_is_valid refl two_thirty_is_open

-- A host whose clock is its state, in milliseconds; the service is inactive from 2500 on.
abbrev settings : Settings
settings = record {
  prefix = "backup";
  capture_seconds = 300;
  recovery_seconds = 300;
  run_seconds = 3600;
  prepare_argv = "prepare" ∷ [];
  ansible_argv = "ansible" ∷ [];
  health_argv = "health" ∷ [];
  resume_commands = ("resume" ∷ []) ∷ [];
  dispose_successful_payload = false;
  extra_vars = λ root. root;
}

abbrev state_in : Phase → StateFile
state_in phase = record {
  phase = phase;
  root = "/run/backup.1";
  configuration_sha256 = "c1";
  deadline = 90000;
  reason = none;
  resume_statuses = [];
  health_status = none;
  credential_cleanup = none;
  exit_status = none;
  last_success = none;
  previous_success = none;
}

abbrev host_in : Phase → Host
host_in phase = record {
  State = ℕ;
  monotonic = λ w. (w, w);
  wall_clock = λ w. (w, w);
  window_open = λ w. (true, w);
  command = λ argv timeout w. (0, w + 10);
  control = λ argv w.
      (returned (0, Prelude.codes (if Prelude.ltb w 2500 then "active" else "inactive\n")), w);
  sleep = λ ms w. w + ms;
  load = λ w. (returned (state_in phase), w);
  store = λ st w. (returned tt, w);
  make_root = λ w. (returned "/run/backup.1", w);
  check_binding = λ st w. (returned "/run/backup.1", w);
  inputs_protected = λ root w. (returned tt, w);
  cleanup = λ root w. (returned tt, w);
  dispose = λ root w. (returned tt, w);
  skip_recorded = λ reason w. (returned tt, w);
  try_lock = λ name w. (true, w);
}

abbrev node_at : ℕ → Node ℕ
node_at w = record { world = w; events = [] }

recover_locked-QuietFirst_example :
    QuietFirst settings (recover_locked (host_in armed) settings 20 true (node_at 2000)).1.events
recover_locked-QuietFirst_example =
    recover_locked-QuietFirst (host_in armed) settings 20 true (node_at 2000) refl

run_locked-Earned_example :
    Earned settings (run_locked (host_in idle) settings "c1" (node_at 2000)).1.events
run_locked-Earned_example = run_locked-Earned (host_in idle) settings "c1" (node_at 2000) refl

quiesce-ends_example : Finished (quiesce (host_in armed) settings 11 3000 (node_at 2000)).0
quiesce-ends_example =
    quiesce-ends (host_in armed) settings (λ w. w) (λ w. (refl, omega arith))
      (λ argv w. omega arith) (λ ms w. omega arith) 10 3000 (node_at 2000) (omega arith)
