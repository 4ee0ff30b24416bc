-- ===== src/Tests/Load.antt =====
-- A reviewed workload test of one phase after another, and a worker that is drained.
use homelab_server_configs.Prelude.{
  ℕ, ◌+◌, ◌≤◌, String, true, false, none, some, List, [], ◌∷◌, ◌≡◌, refl, ◌⊎◌, arith, Exists, Every,
}
use homelab_server_configs.Prelude.Exec.{Error, Outcome, returned, raised}
use homelab_server_configs.Prelude.Exec
use homelab_server_configs.Workload.Sampler.{
  Service, Sample, Phase, Contract, Swap, roles, review_samples,
}
use homelab_server_configs.Workload.Sampler.Coverage.{
  Near, Contiguous, total, Sound, Steady, review-covers, review-Contiguous, review-Steady,
}
use homelab_server_configs.Workload.Drain.{list, dict, Host, Node, drain}
use homelab_server_configs.Workload.Drain.Quiet.{Clear, drain-Clear}
use homelab_server_configs.Workload.Drain.Ends.{Timed, drain-ends}

abbrev service : Service
service = record {
  active_state = "active";
  sub_state = "running";
  result = "success";
  n_restarts = "0";
  invocation_id = "a1";
  pid = 70;
  cgroup = "/web";
  memory_current = 5;
  memory_max = 9;
  oom = 0;
  oom_kill = 0;
}

abbrev services : List (String × Service)
services =
    ("web", service)
    ∷ ("redis", service)
    ∷ ("postgresql", service)
    ∷ ("worker", service)
    ∷ ("scheduler", service)
    ∷ []

abbrev sample_at : ℕ → Sample
sample_at start = record {
  start = start;
  end = start + 2000;
  boot_id = "b1";
  mem_available_bytes = some 600;
  swap_used_bytes = some 100;
  cpu_temperature_celsius = some 50000;
  ext4_error_count = some 0;
  throttling_flags = some 0;
  kernel_storage_errors_since_cursor = some 0;
  diskstats =
      some 1
      ∷ some 1
      ∷ some 1
      ∷ some 1
      ∷ some 1
      ∷ some 1
      ∷ some 1
      ∷ some 1
      ∷ some 1
      ∷ some 1
      ∷ some 1
      ∷ [];
  swap_in_out_counters = some 1 ∷ some 1 ∷ [];
  services = services;
}

abbrev samples : List Sample
samples =
    sample_at 0
    ∷ sample_at 20000
    ∷ sample_at 40000
    ∷ sample_at 60000
    ∷ sample_at 80000
    ∷ sample_at 100000
    ∷ sample_at 120000
    ∷ []

abbrev idle : Phase
idle = record { id = "idle"; start = 0; end = 60000 }

abbrev others : List Phase
others =
    record { id = "recovery"; start = 60000; end = 120000 }
    ∷ record { id = "end"; start = 120000; end = 130000 }
    ∷ []

abbrev contract : Contract
contract = record {
  mem_available_below_bytes = 500;
  temperature_above_celsius = 80000;
  maximum_gap = 30000;
  tolerance_bytes = 10;
  whole_workload_timeout = 200000;
  phases =
      record { id = "idle"; minimum = 60000 }
      ∷ record { id = "recovery"; minimum = 50000 }
      ∷ record { id = "end"; minimum = 1000 }
      ∷ [];
}

abbrev flat : Swap
flat = record { baseline_bytes = 200; growth_failed = false; recovered = true }

is_reviewed : review_samples samples (idle ∷ others) contract ≡ returned flat
unfolding review_samples
is_reviewed = refl

review-covers_example : Exists (Near contract 70000) samples
review-covers_example =
    review-covers samples idle others contract flat 70000 is_reviewed (omega arith) (omega arith)

review-Contiguous_example :
    Contiguous 60000 others
    × (0 + total contract.phases ≤ 130000)
    × (130000 ≤ 0 + contract.whole_workload_timeout)
review-Contiguous_example = review-Contiguous samples idle others contract flat is_reviewed

review-Steady_example :
    (first : Sample) × (rest : List Sample) × (samples ≡ first ∷ rest)
    × Every (λ s. Sound contract first s × Every (Steady s first) roles) samples
review-Steady_example = review-Steady samples idle others contract flat is_reviewed

-- A worker without tasks and an empty broker; the state is the time.
abbrev quiet_host : Host
quiet_host = record {
  State = ℕ;
  inspect = λ a w. (returned (dict (("w1", list 0) ∷ [])), w + 10);
  next_key = λ w. (returned none, w);
  type_of = λ key w. (returned "list", w);
  llen = λ key w. (returned 0, w);
  hlen = λ key w. (returned 0, w);
  zcard = λ key w. (returned 0, w);
  clock = λ w. (w, w);
  sleep = λ ms w. w + ms;
}

abbrev node : Node ℕ
node = record { world = 1000; events = [] }

is_drained : (drain quiet_host 37 180000 node).0 ≡ returned (some tt)
unfolding drain Exec.◌>>=◌
is_drained = refl

drain-Clear_example : Clear 0 2 (drain quiet_host 37 180000 node).1.events
drain-Clear_example = drain-Clear quiet_host 37 180000 node is_drained

clocked : Timed quiet_host (λ w. w)
clocked = record {
  reads = λ w. refl;
  clock_keeps = λ w. omega arith;
  inspect_keeps = λ a w. omega arith;
  next_key_keeps = λ w. omega arith;
  type_of_keeps = λ key w. omega arith;
  llen_keeps = λ key w. omega arith;
  hlen_keeps = λ key w. omega arith;
  zcard_keeps = λ key w. omega arith;
  sleeps = λ ms w. omega arith;
}

drain-ends_example :
    let o = (drain quiet_host 37 180000 node).0 in
    (o ≡ returned (some tt)) ⊎ ((e : Error) × (o ≡ raised e))
drain-ends_example = drain-ends quiet_host (λ w. w) clocked 36 180000 node (omega arith)
