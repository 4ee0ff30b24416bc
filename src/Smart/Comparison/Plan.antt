-- ===== src/Smart/Comparison/Plan.antt =====
-- A plan asks only what has been reviewed.
use mathlib.Core.Path.{subst}
use homelab_server_configs.Prelude.{
  ℕ, ◌*◌, ◌≤◌, String, Bool, true, false, not, ◌&&◌, List, ◌≡◌, refl, sym, ◌⊎◌, inl, inr, arith,
  ◌==◌, str_eq, eq_iff, length, Every, if◌then◌else◌,
}
use homelab_server_configs.Prelude.Exec.{returned, checked}
use homelab_server_configs.Smart.Comparison.{
  Trial, Query, mode_of, attributed, scope_checks, database_checks, bridge_checks, planned,
  query_plan, query_argv, planned_argv,
}

if-cases :
    {A : Type 0} (b : Bool) (x y : A) {z : A}
    → (if b then x else y) ≡ z
    → ((b ≡ true) × (x ≡ z)) ⊎ ((b ≡ false) × (y ≡ z))
if-cases true x y h = inl (refl, h)
if-cases false x y h = inr (refl, h)

sizes :
    (b c d : Bool) (n q o m : ℕ)
    → ((q == (if b then 2 else 6)) && (o == 75) && (m == 900) && not c && not d) ≡ true
    → n ≡ (if b then 2 else 6)
    → (n ≡ q) × (n * o ≤ m)
sizes true c d n q o m h e =
    let waits : o ≡ 75 = ground arith in (ground arith, rw e (rw waits (ground arith)))
sizes false c d n q o m h e =
    let waits : o ≡ 75 = ground arith in (ground arith, rw e (rw waits (ground arith)))

module _ (database : String) where
  -- The query runs the candidate or the installed program, and its command line is reviewed.
  abbrev pub Reviewed : String → String → Query → Type 0
  Reviewed candidate mode q =
      ((q.binary ≡ candidate) ⊎ (q.binary ≡ "/usr/sbin/smartctl"))
      × ((argv : List String) × (planned_argv mode database q ≡ returned argv))

  abbrev Good : String → String → List Query → Type 0
  Good candidate mode plan =
      Every (Reviewed candidate mode) plan × (length plan ≡ (if attributed mode then 2 else 6))

  by_mode :
      (candidate mode expected : String) (plan answer : List Query)
      → str_eq mode expected ≡ true
      → returned answer ≡ returned plan
      → Good candidate expected answer
      → Good candidate mode plan
  by_mode candidate mode expected plan answer e h good =
      let same : expected ≡ mode = sym ((eq_iff mode expected).0 e) in
      let gives : answer ≡ plan = cc in
      subst (λ m. Good candidate m plan) same (subst (Good candidate expected) gives good)

  planned-Good :
      (spec : Trial) (candidate mode : String) (plan : List Query)
      → planned spec candidate mode ≡ returned plan
      → Good candidate mode plan
  unfolding planned planned_argv query_argv
  planned-Good spec candidate mode plan h =
      elim (if-cases (str_eq mode "candidate_local_database") _ _ h) [
        | inl (e, k) ↦
            let (held, same) = checked (database_checks spec) _ plan k in
            by_mode candidate mode "candidate_local_database" plan _ e same
              (((inl refl, (_, refl)), ((inl refl, (_, refl)), tt)), refl)
        | inr (_, k) ↦ elim (if-cases (str_eq mode "candidate_device_types") _ _ k) [
          | inl (e, k') ↦
              let (held, same) = checked (bridge_checks spec) _ plan k' in
              by_mode candidate mode "candidate_device_types" plan _ e same (
                (
                  (inl refl, (_, refl)),
                  (
                    (inl refl, (_, refl)),
                    (
                      (inl refl, (_, refl)),
                      ((inl refl, (_, refl)), ((inl refl, (_, refl)), ((inl refl, (_, refl)), tt))),
                    ),
                  ),
                ),
                refl,
              )
          | inr (_, k') ↦ elim (if-cases (str_eq mode "candidate_detection_attribution") _ _ k') [
            | inl (e, k'') ↦
                let (held, same) = checked (bridge_checks spec) _ plan k'' in
                by_mode candidate mode "candidate_detection_attribution" plan _ e same
                  (((inl refl, (_, refl)), ((inl refl, (_, refl)), tt)), refl)
            | inr (_, k'') ↦ elim (if-cases (str_eq mode "installed_vs_candidate") _ _ k'') [
              | inl (e, same) ↦ by_mode candidate mode "installed_vs_candidate" plan _ e same (
                (
                  (inr refl, (_, refl)),
                  (
                    (inl refl, (_, refl)),
                    (
                      (inr refl, (_, refl)),
                      ((inl refl, (_, refl)), ((inr refl, (_, refl)), ((inl refl, (_, refl)), tt))),
                    ),
                  ),
                ),
                refl,
              )
              | inr (_, same) ↦ absurd cc
            ]
          ]
        ]
      ]

  -- A plan has as many queries as the specification says, whose waiting times fit into the trial's
  -- time; each query runs the candidate or the installed program, and its command line is not
  -- refused.
  pub query_plan-Reviewed :
      (spec : Trial) (candidate : String) (plan : List Query)
      → query_plan spec candidate ≡ returned plan
      → Every (Reviewed candidate (mode_of spec)) plan
        × (length plan ≡ spec.queries)
        × (length plan * spec.observation_after_each_seconds ≤ spec.maximum_trial_seconds)
  unfolding query_plan
  query_plan-Reviewed spec candidate plan h =
      let (held, rest) = checked (scope_checks spec) _ plan h in
      let (reviewed, sized) = planned-Good spec candidate (mode_of spec) plan rest in
      let (asked, fits) =
        sizes (attributed (mode_of spec)) spec.production_changes spec.self_test_start (length plan)
          spec.queries spec.observation_after_each_seconds spec.maximum_trial_seconds held.0
          sized in
      (reviewed, asked, fits)
