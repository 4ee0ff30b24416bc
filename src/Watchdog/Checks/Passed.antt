-- ===== src/Watchdog/Checks/Passed.antt =====
-- What the service's check and the timing check say when they return.
use homelab_server_configs.Prelude.{
  ℕ, ◌+◌, ◌≤◌, String, true, false, Option, none, some, List, [], ◌∷◌, ◌≡◌, refl, ap, arith, str_eq,
  eq_iff,
}
use homelab_server_configs.Prelude.Exec.{returned}
use homelab_server_configs.Watchdog.Timing
use homelab_server_configs.Watchdog.Checks.{
  Native, lookup, same_text, stable_service, evaluate_timing,
}

-- The same boot, and the same process of the service.
abbrev pub Same : Native → Native → Type 0
Same f n =
    (f.boot ≡ n.boot)
    × (lookup "MainPID" f.service ≡ lookup "MainPID" n.service)
    × (lookup "InvocationID" f.service ≡ lookup "InvocationID" n.service)
    × (lookup "NRestarts" f.service ≡ lookup "NRestarts" n.service)

same_text-eq : (a b : Option String) → same_text a b ≡ true → a ≡ b
same_text-eq none none h = refl
same_text-eq (some s) (some t) h = ap some ((eq_iff s t).0 h)
same_text-eq none (some t) h = cc
same_text-eq (some s) none h = cc

pub stable_service-Same : (f n : Native) → stable_service f n ≡ returned tt → Same f n
unfolding stable_service
stable_service-Same f n h =
    let boots : str_eq f.boot n.boot ≡ true = ground arith in
    let pid : same_text (lookup "MainPID" f.service) (lookup "MainPID" n.service) ≡ true =
      ground arith in
    let invocation : same_text (lookup "InvocationID" f.service) (lookup "InvocationID" n.service)
        ≡ true =
      ground arith in
    let restarts : same_text (lookup "NRestarts" f.service) (lookup "NRestarts" n.service) ≡ true =
      ground arith in
    (
      (eq_iff f.boot n.boot).0 boots,
      same_text-eq _ _ pid,
      same_text-eq _ _ invocation,
      same_text-eq _ _ restarts,
    )

pub evaluate_timing-passed :
    (submit : ℕ) (stamps : List ℕ) (boot initial : String)
    → evaluate_timing submit stamps boot initial ≡ returned tt
    → (c : ℕ) × (b : ℕ) × (a : ℕ) × (older : List ℕ) × (stamps ≡ c ∷ b ∷ a ∷ older)
      × (a + 30000 ≤ b)
      × (b + 30000 ≤ c)
      × (c ≤ submit + Timing.convergence)
      × (str_eq boot initial ≡ false)
unfolding evaluate_timing
evaluate_timing-passed submit [] boot initial h = absurd cc
evaluate_timing-passed submit (c ∷ []) boot initial h = absurd (ground arith)
evaluate_timing-passed submit (c ∷ b ∷ []) boot initial h = absurd (ground arith)
evaluate_timing-passed submit (c ∷ b ∷ a ∷ older) boot initial h =
    (c, b, a, older, refl, ground arith, ground arith, ground arith, ground arith)
