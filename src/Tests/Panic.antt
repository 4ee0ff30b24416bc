-- ===== src/Tests/Panic.antt =====
-- A run of the panic worker that is granted its write, and a recovery that is observed to its end.
use homelab_server_configs.Prelude.{
  ℕ, ◌+◌, String, true, none, some, [], ◌∷◌, ◌++◌, ◌≡◌, ◌⊎◌, refl, codes, arith,
}
use homelab_server_configs.Prelude.Exec
use homelab_server_configs.Prelude.Exec.{Error, returned, raised}
use homelab_server_configs.Prelude.Json.{Json, string, object, field, end}
use homelab_server_configs.Watchdog.Grant.{Target, Worker, trigger}
use homelab_server_configs.Watchdog.Checks.{
  Native, Reply, not_passed, stable_service, evaluate_timing,
}
use homelab_server_configs.Watchdog.Sample.{Lab, Watch}
use homelab_server_configs.Watchdog.Recovery.{recovery_observation}
use homelab_server_configs.Watchdog.Sample.Good.{Recovered}
use homelab_server_configs.Watchdog.Recovery.Recovered.{recovery_observation-Recovered}
use homelab_server_configs.Watchdog.Sample.Timed.{Timed}
use homelab_server_configs.Watchdog.Recovery.Ends.{recovery_observation-ends}
use homelab_server_configs.Watchdog.Grant.Once.{Granted, trigger-once}

abbrev grant : Json
grant = object (
    field "nonce" (string "n1")
      (field "operation_id" (string "op1") (field "action" (string "panic-once") end)))

abbrev target : Target
target = record {
  State = ℕ;
  monotonic = λ w. (w, w);
  identity = λ boot w. (returned boot, w);
  sync = λ w. (returned tt, w);
  critical = λ boot w. (returned tt, w);
  health = λ boot w. (returned tt, w);
  nonce = λ w. ("n1", w);
  emit_ready = λ nonce w. (returned tt, w);
  read_grant = λ w. (returned (codes "grant" ++ (10 ∷ [])), w);
  open_sysrq = λ w. (returned true, w);
  write_sysrq = λ w. (returned tt, w);
  close_sysrq = λ w. (returned tt, w);
  parse_json = λ b. some grant;
}

abbrev fresh : Worker ℕ
fresh = record { world = 5000; events = [] }

trigger-once_example :
    let (o, s') = trigger target "boot1" "op1" fresh in
    Granted target "op1" s'.events × ((e : Error) × (o ≡ raised e))
trigger-once_example = trigger-once target "boot1" "op1" fresh refl

-- The service and both clients answer at once, from a new boot on.
abbrev native : Native
native = record {
  boot = "boot2";
  service =
      ("MainPID", "700")
      ∷ ("InvocationID", "a1")
      ∷ ("NRestarts", "0")
      ∷ ("ActiveState", "active")
      ∷ [];
  available = true;
  precision = true;
}

abbrev reply : Reply
reply = record { available = true; precision = true; finished = 1000 }

abbrev lab : Lab
lab = record {
  State = ℕ;
  monotonic = λ w. (w, w);
  sleep = λ ms w. w + ms;
  observe_boot = λ w. (returned "boot2", w);
  observe_recovery = λ boot ms w. (returned native, w);
  recovery_clients =
      λ w. (returned (("10.1.0.51", reply) ∷ ("fd36:5aa8:6971:1::51", reply) ∷ []), w);
  save = λ label w. (returned tt, w);
}

abbrev granted : Watch ℕ
granted = record {
  world = 1000;
  boot_network = not_passed;
  availability = not_passed;
  convergence = not_passed;
  stability = not_passed;
  first_success = [];
  boot = none;
  first = none;
  stamps = [];
  rows = [];
}

is_observed : (recovery_observation lab "boot1" 900 1000 40 granted).0 ≡ returned (some "boot2")
unfolding recovery_observation stable_service evaluate_timing Exec.◌>>=◌ Exec.catch
is_observed = refl

recovery_observation-Recovered_example :
    Recovered "boot1" 900 1000 "boot2" (recovery_observation lab "boot1" 900 1000 40 granted).1
recovery_observation-Recovered_example =
    recovery_observation-Recovered lab "boot1" 900 1000 40 granted "boot2" is_observed

lab-Timed : Timed lab (λ w. w)
lab-Timed = record {
  reads = λ w. refl;
  monotonic_keeps = λ w. omega arith;
  boot_keeps = λ w. omega arith;
  recovery_keeps = λ boot ms w. omega arith;
  clients_keep = λ w. omega arith;
  save_keeps = λ label w. omega arith;
  sleeps = λ ms w. omega arith;
}

recovery_observation-ends_example :
    let o = (recovery_observation lab "boot1" 900 1000 362 granted).0 in
    ((boot : String) × (o ≡ returned (some boot))) ⊎ ((e : Error) × (o ≡ raised e))
recovery_observation-ends_example =
    recovery_observation-ends lab (λ w. w) lab-Timed "boot1" 900 1000 362 granted (omega arith)
      (omega arith)
