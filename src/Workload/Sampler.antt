-- ===== src/Workload/Sampler.antt =====
-- `validate`, `swap_review` and `review_samples`: what is read off the samples of a workload test.
-- Times are milliseconds and temperatures thousandths of a degree, from the same zero.
pub mod Coverage
use homelab_server_configs.Prelude.{
  ℕ, zero, suc, ◌+◌, ◌-◌, ◌*◌, ◌/◌, ◌%◌, String, Bool, true, false, not, ◌&&◌, ◌||◌, Option, none,
  some, List, [], ◌∷◌, map, leb, ltb, ◌==◌, str_eq, one_of, length, all, any, is_empty,
  if◌then◌else◌,
}
use homelab_server_configs.Prelude.Exec.{
  Error, value_error, other_error, Outcome, returned, raised, and_then, checks,
}

-- What systemd and the control group say of one service.
pub record Service : Type 0 where
  pub active_state : String
  pub sub_state : String
  pub result : String
  pub n_restarts : String
  pub invocation_id : String
  pub pid : ℕ
  pub cgroup : String
  pub memory_current : ℕ
  pub memory_max : ℕ
  pub oom : ℕ
  pub oom_kill : ℕ

-- A measured value; `none` is one that is no finite number from zero on.
abbrev pub Metric : Type 0
Metric = Option ℕ

pub record Sample : Type 0 where
  pub start : ℕ
  pub end : ℕ
  pub boot_id : String
  pub mem_available_bytes : Metric
  pub swap_used_bytes : Metric
  pub cpu_temperature_celsius : Metric
  pub ext4_error_count : Metric
  pub throttling_flags : Metric
  pub kernel_storage_errors_since_cursor : Metric
  pub diskstats : List Metric
  pub swap_in_out_counters : List Metric
  pub services : List (String × Service)

pub record Phase : Type 0 where
  pub id : String
  pub start : ℕ
  pub end : ℕ

pub record Expected : Type 0 where
  pub id : String
  pub minimum : ℕ

pub record Contract : Type 0 where
  pub mem_available_below_bytes : ℕ
  pub temperature_above_celsius : ℕ
  pub maximum_gap : ℕ
  pub tolerance_bytes : ℕ
  pub whole_workload_timeout : ℕ
  pub phases : List Expected

abbrev pub roles : List String
roles = "postgresql" ∷ "redis" ∷ "web" ∷ "worker" ∷ "scheduler" ∷ []

abbrev pub is_metric : Metric → Bool
is_metric none = false
is_metric (some n) = true

abbrev pub at_least : ℕ → Metric → Bool
at_least bound none = false
at_least bound (some n) = leb bound n

abbrev pub at_most : ℕ → Metric → Bool
at_most bound none = false
at_most bound (some n) = leb n bound

abbrev pub metric_eq : Metric → Metric → Bool
metric_eq none none = true
metric_eq (some a) (some b) = a == b
metric_eq _ _ = false

abbrev pub key_of : String × Service → String
key_of (name, service) = name

-- `set(services) == set(roles)`
abbrev pub covers : List (String × Service) → Bool
covers services =
    all (one_of roles) (map key_of services) && all (one_of (map key_of services)) roles

-- `services[role]`
abbrev pub service_at : String → List (String × Service) → Outcome Service
service_at role [] = raised other_error
service_at role ((name, service) ∷ rest) =
    if str_eq name role then returned service else service_at role rest

-- A number that follows another at a distance of `maximum` at most.
abbrev pub follows : ℕ → ℕ → ℕ → Bool
follows maximum earlier later = ltb earlier later && leb later (earlier + maximum)

abbrev pub after_previous : ℕ → Option Sample → Sample → Bool
after_previous maximum none sample = true
after_previous maximum (some previous) sample = follows maximum previous.start sample.start

-- The checks of `validate` before its loop over the services.
abbrev pub sample_checks : Sample → Sample → Option Sample → Contract → List (Bool × String)
sample_checks sample first previous contract =
    (str_eq sample.boot_id first.boot_id, "boot_changed")
    ∷ (
      leb sample.start sample.end && leb sample.end (sample.start + contract.maximum_gap),
      "sample_duration",
    )
    ∷ (after_previous contract.maximum_gap previous sample, "sample_gap")
    ∷ (
      is_metric sample.mem_available_bytes
          && is_metric sample.swap_used_bytes
          && is_metric sample.cpu_temperature_celsius
          && is_metric sample.ext4_error_count
          && is_metric sample.throttling_flags
          && is_metric sample.kernel_storage_errors_since_cursor,
      "metric_invalid",
    )
    ∷ (at_least contract.mem_available_below_bytes sample.mem_available_bytes, "memory_headroom")
    ∷ (at_most contract.temperature_above_celsius sample.cpu_temperature_celsius, "temperature")
    ∷ (metric_eq sample.throttling_flags (some 0), "throttling")
    ∷ (
      metric_eq sample.ext4_error_count first.ext4_error_count
          && metric_eq sample.kernel_storage_errors_since_cursor (some 0),
      "storage_error",
    )
    ∷ (leb 11 (length sample.diskstats) && all is_metric sample.diskstats, "diskstats_missing")
    ∷ (
      (length sample.swap_in_out_counters == 2) && all is_metric sample.swap_in_out_counters,
      "swap_counters",
    )
    ∷ (covers sample.services, "service_coverage")
    ∷ []

abbrev pub service_checks : Service → Service → List (Bool × String)
service_checks row base =
    (
      str_eq row.active_state "active"
          && str_eq row.sub_state "running"
          && str_eq row.result "success",
      "service_state",
    )
    ∷ (
      (row.pid == base.pid)
          && str_eq row.cgroup base.cgroup
          && str_eq row.invocation_id base.invocation_id
          && str_eq row.n_restarts base.n_restarts,
      "service_changed",
    )
    ∷ (leb row.memory_current row.memory_max && (row.memory_max == base.memory_max), "memory_limit")
    ∷ (row.oom == base.oom, "oom_increment")
    ∷ (row.oom_kill == base.oom_kill, "oom_increment")
    ∷ []

-- The loop over the roles.
pub service_loop : Sample → Sample → List String → Outcome Unit
service_loop sample first [] = returned tt
service_loop sample first (role ∷ rest) = and_then (service_at role sample.services) (λ row.
    and_then (service_at role first.services)
      (λ base. and_then (checks (service_checks row base)) (λ _. service_loop sample first rest)))

pub validate : Sample → Sample → Option Sample → Contract → Outcome Unit
unfolding service_loop
validate sample first previous contract =
    and_then (checks (sample_checks sample first previous contract))
      (λ _. service_loop sample first roles)

abbrev insert : ℕ → List ℕ → List ℕ
insert x [] = x ∷ []
insert x (y ∷ ys) = let rest = insert x ys in if leb x y then x ∷ y ∷ ys else y ∷ rest

abbrev sort : List ℕ → List ℕ
sort [] = []
sort (x ∷ xs) = insert x (sort xs)

abbrev element : List ℕ → ℕ → ℕ
element [] n = 0
element (x ∷ xs) zero = x
element (x ∷ xs) (suc n) = element xs n

-- Twice `statistics.median`, which halves the sum of the two middle values.
abbrev twice_median : List ℕ → ℕ
twice_median values =
    let sorted = sort values in
    let n = length values in
    if n % 2 == 0
    then element sorted (n / 2 - 1) + element sorted (n / 2)
    else element sorted (n / 2) * 2

-- The used swap of the samples of a window that starts before `end`.
abbrev swap_within : ℕ → ℕ → List Sample → List ℕ
swap_within start end [] = []
swap_within start end (s ∷ rest) =
    let others = swap_within start end rest in
    elim s.swap_used_bytes [
      | none ↦ others
      | some n ↦ if leb start s.start && ltb s.start end then n ∷ others else others
    ]

pub median : List Sample → ℕ → ℕ → Outcome ℕ
median samples start end =
    let values = swap_within start end samples in
    if leb 2 (length values)
    then returned (twice_median values)
    else raised (value_error "swap_window_missing")

-- The medians of one minute after the other.
pub minutes : List Sample → ℕ → ℕ → Outcome (List ℕ)
unfolding median
minutes samples zero t = returned []
minutes samples (suc n) t =
    and_then (median samples t (t + 60000))
      (λ m. and_then (minutes samples n (t + 60000)) (λ rest. returned (m ∷ rest)))

-- Three windows that grow, the last above the tolerance.
abbrev pub grows : ℕ → ℕ → List ℕ → Bool
grows baseline tolerance (a ∷ b ∷ c ∷ rest) =
    (ltb a b && ltb b c && ltb (baseline + tolerance) c) || grows baseline tolerance (b ∷ c ∷ rest)
grows baseline tolerance _ = false

-- `range(int(idle_end), int(recovery_end) - 59, 60)`, by its length.
abbrev window_count : ℕ → ℕ → ℕ
window_count idle_end recovery_end = (recovery_end / 1000 - 59 - idle_end / 1000 + 59) / 60

pub record Swap : Type 0 where
  pub baseline_bytes : ℕ
  pub growth_failed : Bool
  pub recovered : Bool

-- The bytes are counted twice, as the medians are.
pub swap_review : List Sample → ℕ → ℕ → Contract → Outcome Swap
unfolding median minutes
swap_review samples idle_end recovery_end contract =
    and_then (median samples (idle_end - 300000) idle_end) (λ baseline.
      let tolerance = contract.tolerance_bytes * 2 in
      and_then (minutes samples (window_count idle_end recovery_end) (idle_end / 1000 * 1000))
        (λ windows. and_then (median samples (recovery_end - 300000) recovery_end) (λ last.
          returned (record {
            baseline_bytes = baseline;
            growth_failed = grows baseline tolerance windows;
            recovered = leb last (baseline + tolerance);
          }))))

abbrev pub continues : Option ℕ → ℕ → Bool
continues none start = true
continues (some end) start = start == end

abbrev pub phase_checks : Option ℕ → Phase → Expected → List (Bool × String)
phase_checks previous_end observed expected =
    (str_eq observed.id expected.id, "phase_coverage")
    ∷ (leb (observed.start + expected.minimum) observed.end, "phase_short")
    ∷ (continues previous_end observed.start, "phase_gap")
    ∷ []

-- The loop over the phases, which ends when one of the lists does.
pub phase_loop : Option ℕ → List Phase → List Expected → Outcome Unit
phase_loop previous_end (observed ∷ phases) (expected ∷ rest) =
    and_then (checks (phase_checks previous_end observed expected))
      (λ _. phase_loop (some observed.end) phases rest)
phase_loop previous_end _ _ = returned tt

-- The loop over the samples, each with the one before it.
pub sample_loop : Sample → Option Sample → List Sample → Contract → Outcome Unit
unfolding validate
sample_loop first previous [] contract = returned tt
sample_loop first previous (sample ∷ rest) contract =
    and_then (validate sample first previous contract)
      (λ _. sample_loop first (some sample) rest contract)

abbrev pub last_of : {A : Type 0} → A → List A → A
last_of x [] = x
last_of x (y ∷ ys) = last_of y ys

-- `phases[-2]`, which one phase alone does not have.
abbrev pub last_but_one : Phase → List Phase → Outcome Phase
last_but_one x [] = raised other_error
last_but_one x (y ∷ []) = returned x
last_but_one x (y ∷ z ∷ zs) = last_but_one y (z ∷ zs)

-- `abs(a - b) <= maximum`
abbrev pub near : ℕ → ℕ → ℕ → Bool
near maximum a b = leb a (b + maximum) && leb b (a + maximum)

abbrev pub span_checks : Sample → List Sample → Phase → List Phase → Contract → List (Bool × String)
span_checks first samples phase phases contract =
    let last = last_of first samples in
    let final = last_of phase phases in
    (near contract.maximum_gap first.start phase.start, "initial_coverage")
    ∷ (leb last.end final.end && leb final.end (last.end + contract.maximum_gap), "final_coverage")
    ∷ (leb final.end (phase.start + contract.whole_workload_timeout), "duration")
    ∷ []

-- What follows the loop over the phases.
pub review_span : Sample → List Sample → Phase → List Phase → Contract → Outcome Swap
unfolding sample_loop swap_review
review_span first samples phase phases contract =
    and_then (checks (span_checks first samples phase phases contract)) (λ _.
      and_then (sample_loop first none (first ∷ samples) contract) (λ _.
        and_then (last_but_one phase phases) (λ recovery.
          and_then (swap_review (first ∷ samples) phase.end recovery.end contract) (λ swap.
            and_then (checks ((not swap.growth_failed && swap.recovered, "swap_acceptance") ∷ []))
              (λ _. returned swap)))))

-- The first sample and the first phase; without phases, `phases[0]` has no element.
pub with_first : List Sample → List Phase → Contract → Outcome Swap
unfolding review_span
with_first (first ∷ samples) (phase ∷ phases) contract =
    review_span first samples phase phases contract
with_first _ _ contract = raised other_error

abbrev pub size_checks : List Sample → List Phase → Contract → List (Bool × String)
size_checks samples phases contract =
    (not (is_empty samples) && (length phases == length contract.phases), "phase_coverage") ∷ []

unfoldable pub review_samples : List Sample → List Phase → Contract → Outcome Swap
unfolding phase_loop with_first
review_samples samples phases contract =
    and_then (checks (size_checks samples phases contract)) (λ _.
      and_then (phase_loop none phases contract.phases) (λ _. with_first samples phases contract))
