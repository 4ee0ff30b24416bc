-- ===== src/Workload/Sampler/Coverage.antt =====
-- What a review of the samples that returns has seen.
use homelab_server_configs.Prelude.{
  ℕ, ◌+◌, ◌≤◌, String, true, Option, none, some, List, [], ◌∷◌, ◌≡◌, refl, inl, inr, arith, leb,
  length, Exists, Every, Bool-cases, &&-parts, eq_iff, ap,
}
use homelab_server_configs.Prelude.Exec.{returned, Hold, and_then-returned, checked}
use homelab_server_configs.Workload.Sampler.{
  Service, Metric, is_metric, at_least, at_most, metric_eq, Sample, Phase, Expected, Contract, Swap,
  roles, sample_checks, service_checks, service_at, service_loop, validate, phase_checks,
  phase_loop, sample_loop, size_checks, last_of, span_checks, review_span, with_first,
  review_samples,
}

-- A moment is near a sample.
abbrev pub Near : Contract → ℕ → Sample → Type 0
Near contract t s = (s.start ≤ t + contract.maximum_gap) × (t ≤ s.end + contract.maximum_gap)

-- A measured value is a number, and meets a bound.
abbrev Measured : (ℕ → Type 0) → Metric → Type 0
Measured P m = (n : ℕ) × (m ≡ some n) × P n

-- What a sample says of the host: the memory, the temperature, no throttling, and no storage error,
-- in the count of the file system since the first sample or in the kernel's log.
abbrev pub Sound : Contract → Sample → Sample → Type 0
Sound contract first s =
    Measured (λ n. contract.mem_available_below_bytes ≤ n) s.mem_available_bytes
    × Measured (λ n. n ≤ contract.temperature_above_celsius) s.cpu_temperature_celsius
    × (s.throttling_flags ≡ some 0)
    × Measured (λ n. first.ext4_error_count ≡ some n) s.ext4_error_count
    × (s.kernel_storage_errors_since_cursor ≡ some 0)

-- A service is active, and is the run of the service that the first sample has seen, with the
-- memory limit and the kills of that time.
abbrev pub Steady : Sample → Sample → String → Type 0
Steady s first role =
    (row : Service) × (base : Service) × (service_at role s.services ≡ returned row)
    × (service_at role first.services ≡ returned base)
    × (row.active_state ≡ "active")
    × (row.pid ≡ base.pid)
    × (row.invocation_id ≡ base.invocation_id)
    × (row.memory_current ≤ base.memory_max)
    × (row.oom_kill ≡ base.oom_kill)

at_least-Measured : (bound : ℕ) (m : Metric) → at_least bound m ≡ true → Measured (λ n. bound ≤ n) m
at_least-Measured bound none h = absurd cc
at_least-Measured bound (some n) h = (n, refl, ground arith)

at_most-Measured : (bound : ℕ) (m : Metric) → at_most bound m ≡ true → Measured (λ n. n ≤ bound) m
at_most-Measured bound none h = absurd cc
at_most-Measured bound (some n) h = (n, refl, ground arith)

metric_eq-Measured :
    (m k : Metric) → is_metric m ≡ true → metric_eq m k ≡ true → Measured (λ n. k ≡ some n) m
metric_eq-Measured none k h e = absurd cc
metric_eq-Measured (some n) none h e = absurd cc
metric_eq-Measured (some n) (some j) h e = (n, refl, ap some (ground arith))

metric_eq-some : (m : Metric) (n : ℕ) → metric_eq m (some n) ≡ true → m ≡ some n
metric_eq-some none n h = absurd cc
metric_eq-some (some k) n h = ap some (ground arith)

service_loop-Steady :
    (s first : Sample) (names : List String)
    → service_loop s first names ≡ returned tt
    → Every (Steady s first) names
unfolding service_loop
service_loop-Steady s first [] h = tt
service_loop-Steady s first (role ∷ rest) h =
    let (row, found, more) = and_then-returned (service_at role s.services) _ tt h in
    let (base, known, more') = and_then-returned (service_at role first.services) _ tt more in
    let (held, after) = checked (service_checks row base) _ tt more' in
    let states = held.0 in
    let same = held.1.0 in
    let memory = held.1.1.0 in
    (
      (
        row,
        base,
        found,
        known,
        ground (arith, eq_iff row.active_state "active"),
        ground (arith, same),
        ground (arith, eq_iff row.invocation_id base.invocation_id),
        ground (arith, memory),
        ground (arith, held.1.1.1.1.0),
      ),
      service_loop-Steady s first rest after,
    )

module _ (contract : Contract) (first : Sample) where
  validate-Hold :
      (sample : Sample) (previous : Option Sample)
      → validate sample first previous contract ≡ returned tt
      → Hold (sample_checks sample first previous contract)
        × (service_loop sample first roles ≡ returned tt)
  unfolding validate
  validate-Hold sample previous h = checked (sample_checks sample first previous contract) _ tt h

  loop-next :
      (previous : Option Sample) (sample : Sample) (rest : List Sample)
      → sample_loop first previous (sample ∷ rest) contract ≡ returned tt
      → (validate sample first previous contract ≡ returned tt)
        × (sample_loop first (some sample) rest contract ≡ returned tt)
  unfolding sample_loop
  loop-next previous sample rest h =
      let (u, ok, more) = and_then-returned (validate sample first previous contract) _ tt h in
      (ok, more)

  covered :
      (t : ℕ) (x : Sample) (previous : Option Sample) (rest : List Sample)
      → sample_loop first previous (x ∷ rest) contract ≡ returned tt
      → x.start ≤ t + contract.maximum_gap
      → t ≤ (last_of x rest).end + contract.maximum_gap
      → Exists (Near contract t) (x ∷ rest)
  covered t x previous [] h a b = inl (a, b)
  covered t x previous (y ∷ ys) h a b =
      let (valid, more) = loop-next previous x (y ∷ ys) h in
      let (next_valid, _) = loop-next (some x) y ys more in
      let lasts = (validate-Hold x previous valid).0.1.0 in
      let gap = (validate-Hold y (some x) next_valid).0.1.1.0 in
      elim (Bool-cases (leb t (x.end + contract.maximum_gap))) [
        | inl e ↦ inl (a, ground arith)
        | inr e ↦ inr (covered t y (some x) ys more (ground arith) b)
      ]

  valid-Sound :
      (s : Sample) (previous : Option Sample)
      → validate s first previous contract ≡ returned tt
      → Sound contract first s × Every (Steady s first) roles
  valid-Sound s previous h =
      let (held, services) = validate-Hold s previous h in
      let from_memory = held.1.1.1.1 in
      let storage = from_memory.1.1.1.0 in
      (
        (
          at_least-Measured contract.mem_available_below_bytes s.mem_available_bytes from_memory.0,
          at_most-Measured contract.temperature_above_celsius s.cpu_temperature_celsius
              from_memory.1.0,
          metric_eq-some s.throttling_flags 0 from_memory.1.1.0,
          metric_eq-Measured s.ext4_error_count first.ext4_error_count
              (let measured = held.1.1.1.0 in ground arith) (&&-parts _ _ storage).0,
          metric_eq-some s.kernel_storage_errors_since_cursor 0 (&&-parts _ _ storage).1,
        ),
        service_loop-Steady s first roles services,
      )

  all-Sound :
      (previous : Option Sample) (samples : List Sample)
      → sample_loop first previous samples contract ≡ returned tt
      → Every (λ s. Sound contract first s × Every (Steady s first) roles) samples
  all-Sound previous [] h = tt
  all-Sound previous (x ∷ rest) h =
      let (valid, more) = loop-next previous x rest h in
      (valid-Sound x previous valid, all-Sound (some x) rest more)

-- The time that the phases of the contract take at least.
abbrev pub total : List Expected → ℕ
total [] = 0
total (expected ∷ rest) = expected.minimum + total rest

-- Each phase but the first starts when the one before it ends.
abbrev pub Contiguous : ℕ → List Phase → Type 0
Contiguous end [] = Unit
Contiguous end (phase ∷ rest) = (phase.start ≡ end) × Contiguous phase.end rest

phase-next :
    (phase : Phase) (phases : List Phase) (previous_end : Option ℕ) (expected : Expected)
    (rest : List Expected)
    → phase_loop previous_end (phase ∷ phases) (expected ∷ rest) ≡ returned tt
    → Hold (phase_checks previous_end phase expected)
      × (phase_loop (some phase.end) phases rest ≡ returned tt)
unfolding phase_loop
phase-next phase phases previous_end expected rest h =
    checked (phase_checks previous_end phase expected)
      (λ _. phase_loop (some phase.end) phases rest) tt h

phases-Contiguous :
    (x : Phase) (phases : List Phase) (expected : Expected) (rest : List Expected)
    (previous_end : Option ℕ)
    → phase_loop previous_end (x ∷ phases) (expected ∷ rest) ≡ returned tt
    → length phases ≡ length rest
    → Contiguous x.end phases × (x.start + total (expected ∷ rest) ≤ (last_of x phases).end)
phases-Contiguous x [] expected [] previous_end h same =
    let long = (phase-next x [] previous_end expected [] h).0.1.0 in (tt, ground arith)
phases-Contiguous x [] expected (e ∷ es) previous_end h same = absurd (omega (arith, same))
phases-Contiguous x (y ∷ ys) expected [] previous_end h same = absurd (omega (arith, same))
phases-Contiguous x (y ∷ ys) expected (e ∷ es) previous_end h same =
    let (held, more) = phase-next x (y ∷ ys) previous_end expected (e ∷ es) h in
    let long = held.1.0 in
    let joined = (phase-next y ys (some x.end) e es more).0.1.1.0 in
    let (rest_joined, rest_long) =
      phases-Contiguous y ys e es (some x.end) more (omega (arith, same)) in
    ((ground arith, rest_joined), ground arith)

phases-long :
    (x : Phase) (phases : List Phase) (list : List Expected)
    → phase_loop none (x ∷ phases) list ≡ returned tt
    → length (x ∷ phases) ≡ length list
    → Contiguous x.end phases × (x.start + total list ≤ (last_of x phases).end)
phases-long x phases [] h same = absurd (omega (arith, same))
phases-long x phases (expected ∷ rest) h same =
    phases-Contiguous x phases expected rest none h (omega (arith, same))

-- The parts of a review that returns.
reviewed :
    (samples : List Sample) (phase : Phase) (phases : List Phase) (contract : Contract)
    (swap : Swap)
    → review_samples samples (phase ∷ phases) contract ≡ returned swap
    → (first : Sample) × (rest : List Sample) × (samples ≡ first ∷ rest)
      × (length (phase ∷ phases) ≡ length contract.phases)
      × (phase_loop none (phase ∷ phases) contract.phases ≡ returned tt)
      × Hold (span_checks first rest phase phases contract)
      × (sample_loop first none (first ∷ rest) contract ≡ returned tt)
unfolding review_samples with_first review_span
reviewed [] phase phases contract swap h = absurd cc
reviewed (first ∷ rest) phase phases contract swap h =
    let (sizes, more) = checked (size_checks (first ∷ rest) (phase ∷ phases) contract) _ swap h in
    let (u, looped, span) =
      and_then-returned (phase_loop none (phase ∷ phases) contract.phases) _ swap more in
    let (held, after) = checked (span_checks first rest phase phases contract) _ swap span in
    let (v, sampled, _) =
      and_then-returned (sample_loop first none (first ∷ rest) contract) _ swap after in
    (first, rest, refl, ground (arith, sizes.0), looped, held, sampled)

module _ (samples : List Sample) (phase : Phase) (phases : List Phase) (contract : Contract)
    (swap : Swap) where
  -- When a review returns, each moment from the start of the first phase to the end of the last is
  -- near a sample: one that starts at most the maximum gap after it, and ends at most the maximum
  -- gap before it.
  pub review-covers :
      (t : ℕ)
      → review_samples samples (phase ∷ phases) contract ≡ returned swap
      → phase.start ≤ t
      → t ≤ (last_of phase phases).end
      → Exists (Near contract t) samples
  review-covers t h a b =
      let (first, rest, same, _, _, held, sampled) =
        reviewed samples phase phases contract swap h in
      let near = held.0 in
      let final = held.1.0 in
      rw same (covered contract first t first none rest sampled (ground arith) (ground arith))

  -- When a review returns, the phases follow each other without a gap, they take together at
  -- least as long as the contract asks of all its phases, and no longer than its time limit.
  pub review-Contiguous :
      review_samples samples (phase ∷ phases) contract ≡ returned swap
      → Contiguous phase.end phases
        × (phase.start + total contract.phases ≤ (last_of phase phases).end)
        × ((last_of phase phases).end ≤ phase.start + contract.whole_workload_timeout)
  review-Contiguous h =
      let (first, rest, same, lengths, looped, held, _) =
        reviewed samples phase phases contract swap h in
      let limit = held.1.1.0 in
      let (joined, long) = phases-long phase phases contract.phases looped lengths in
      (joined, long, ground arith)

  -- When a review returns, there is a first sample, and every sample has the free memory and the
  -- temperature that the contract asks for, no throttling, no error of the file system
  -- since the first sample and no storage error of the kernel; and each of the
  -- five services is active in it and is still the run of the first sample, within its memory limit.
  pub review-Steady :
      review_samples samples (phase ∷ phases) contract ≡ returned swap
      → (first : Sample) × (rest : List Sample) × (samples ≡ first ∷ rest)
        × Every (λ s. Sound contract first s × Every (Steady s first) roles) samples
  review-Steady h =
      let (first, rest, same, _, _, _, sampled) = reviewed samples phase phases contract swap h in
      (first, rest, same, rw same (all-Sound contract first none (first ∷ rest) sampled))
