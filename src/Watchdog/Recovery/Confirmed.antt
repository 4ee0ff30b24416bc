-- ===== src/Watchdog/Recovery/Confirmed.antt =====
-- What holds once three good samples have confirmed the convergence.
use mathlib.Core.Path.{subst}
use homelab_server_configs.Prelude.{
  ℕ, zero, suc, ◌+◌, ◌≤◌, String, Bool, true, false, ◌&&◌, Option, none, some, List, [], ◌∷◌, ◌⊎◌,
  inl, inr, ◌≡◌, refl, ◌∙◌, leb, length, str_eq, if◌then◌else◌,
}
use homelab_server_configs.Prelude.Exec
use homelab_server_configs.Prelude.Exec.{
  Error, value_error, Outcome, returned, raised, Exec, pure, raise, Post, Post-cases, Post-returned,
  Ensures, Ensures-ghost, Ensures-pure, Ensures-raise, Ensures-lift, Ensures-gets, Ensures-mono,
  Ensures-if, Ensures-given, Ensures-require, Ensures-modify, Ensures-catch, Ensures-from,
}
use homelab_server_configs.Prelude.Exec.Chain.{◌>>=◌, ◌>>◌}
use homelab_server_configs.Watchdog.Timing
use homelab_server_configs.Watchdog.Checks.{Native, Row, evaluate_timing}
use homelab_server_configs.Watchdog.Checks.Passed.{evaluate_timing-passed}
use homelab_server_configs.Watchdog.Sample.Good.{Stamped, Confirmed}
use homelab_server_configs.Watchdog.Sample.{Lab, Watch}
use homelab_server_configs.Watchdog.Recovery.{note_precision, observe_round, converge}
use homelab_server_configs.Watchdog.Sample.Rules.{call-Kept, ask-Steady, sleep_until-Steady}
use homelab_server_configs.Prelude.Exec.Quiet.{Any, require-Kept, gets-Kept}
use homelab_server_configs.Watchdog.Recovery.Sampled
use homelab_server_configs.Watchdog.Sample.Built.{recovery_sample-Built}
use homelab_server_configs.Watchdog.Sample.Stamps.{FirstIs, Stamped-next}

module _ (lab : Lab) (initial : String) (healthy submit : ℕ) where
  abbrev S : Type 0
  S = Watch lab.State

  abbrev Kept : S → Type 0
  Kept = Sampled.Kept lab initial healthy submit

  module _ (boot : String) where
    abbrev Booted : S → Type 0
    Booted = Sampled.Booted lab initial healthy submit boot

    abbrev Round : S → Type 0
    Round = Sampled.Round lab initial healthy submit boot

    module _ (row : Row) where
      abbrev Settled : S → Type 0
      Settled = Sampled.Settled lab initial healthy submit boot row

      -- The stamps are those of the newest samples, with this one.
      abbrev pub Ready : S → Type 0
      Ready s =
          Round s
          × (row.available ≡ true → s.availability.passed ≡ true)
          × ((s.stamps ≡ [])
              ⊎ ((row.available ≡ true)
                  × ((older : List ℕ) × (s.stamps ≡ row.finished ∷ older))
                  × ((f : Native) × (s.first ≡ some f))))

      stamps-Ready :
          Ensures Settled
            (λ _. Ready)
            Any
            (Exec.modify (λ s. record s {
              stamps = if row.precision && row.available then row.finished ∷ s.stamps else [];
            }))
      stamps-Ready =
          Ensures-modify Settled (λ _. Ready) Any _
            (λ s p.
              let (
                ((built, (rest, rows, (((stamped, within, first), here), network))), same),
                passed,
              ) =
                p in
              let (next, cases) = Stamped-next row s.first s.stamps rest built same stamped in
              (
                (((rw rows next, within, first), here), network),
                passed,
                elim cases [
                  | inl e ↦ inl e
                  | inr (available, e, f) ↦ inr (available, (s.stamps, e), f)
                ],
              ))

    -- What a confirmed convergence has shown.
    abbrev pub Fixed : Native → ℕ → S → Type 0
    Fixed f c s =
        (s.boot ≡ some boot)
        × (str_eq boot initial ≡ false)
        × (s.boot_network.finished ≤ submit + Timing.escalation)
        × (s.availability.passed ≡ true)
        × (s.availability.finished ≤ healthy + Timing.availability)
        × (s.first ≡ some f)
        × (f.boot ≡ boot)
        × (s.convergence.passed ≡ true)
        × (s.convergence.finished ≡ c)
        × (c ≤ submit + Timing.convergence)

    abbrev pub Converged : S → Type 0
    Converged s = (f : Native) × (c : ℕ) × Fixed f c s × Confirmed f c s.rows

    abbrev pub Rounded : Bool → S → Type 0
    Rounded true s = Converged s
    Rounded false s = Booted s

    FirstIs-boot :
        (f : Native) (first : Option Native) (b : Option String)
        → first ≡ some f
        → b ≡ some boot
        → FirstIs first b
        → f.boot ≡ boot
    FirstIs-boot f none b e h k = absurd cc
    FirstIs-boot f (some g) b e h k = cc

    -- The last good sample is the third of a row.
    confirm :
        (row : Row) (s : S) (c b a : ℕ) (older : List ℕ)
        → Ready row s
        → s.stamps ≡ c ∷ b ∷ a ∷ older
        → a + 30000 ≤ b
        → b + 30000 ≤ c
        → c ≤ submit + Timing.convergence
        → str_eq boot initial ≡ false
        → Converged (record s {
          convergence = record { passed = true; finished = row.finished; origin = submit };
        })
    confirm row s c b a older (p, passed, inl none_left) e h k late new = absurd cc
    confirm row s c b a older (p, passed, inr (available, (rest, newest), (f, first))) e h k late
          new =
        let ((kept, here), network) = p in
        let (stamped, within, is) = kept in
        let last : row.finished ≡ c = cc in
        (
          f,
          c,
          (
            here,
            new,
            network,
            passed available,
            within (passed available),
            first,
            FirstIs-boot f s.first s.boot first here is,
            refl,
            last,
            late,
          ),
          (
            b,
            a,
            older,
            subst (λ stamps. Stamped (some f) stamps s.rows) e
                (subst (λ o. Stamped o s.stamps s.rows) first stamped),
            h,
            k,
          ),
        )

    note_precision-Rounded :
        (row : Row)
        → Ensures (Settled row) Rounded Any (note_precision lab initial healthy submit boot row)
    unfolding note_precision
    note_precision-Rounded row = do
      stamps-Ready row
      stamps ← gets-Kept (Ready row) _
      Ensures-if (leb 3 (length stamps))
          (λ three. do
            Ensures-lift _
                (λ _ s.
                  Ready row s
                  × (s.stamps ≡ stamps)
                  × (evaluate_timing submit stamps boot initial ≡ returned tt))
                Any _
                (λ s p.
                  Post-cases _ Any (evaluate_timing submit stamps boot initial) s
                    (λ a e. (p.0, p.1, e)) (λ _ _. tt))
            Ensures-modify _ (λ _. Converged) Any _
                (λ s p.
                  let (ready, e, passed) = p in
                  let (c, b, a, older, e', h, k, late, new) =
                    evaluate_timing-passed submit stamps boot initial passed in
                  confirm row s c b a older ready (e ∙ e') h k late new)
            call-Kept lab Converged _ (λ s w p. p)
            Ensures-pure _ Rounded Any true (λ s p. p))
          (λ fewer. do
            Ensures-from (λ s p. p.0.0.0) (require-Kept Booted _ _)
            stage ← gets-Kept Booted _
            Ensures-from (λ s p. p.0)
                (do
                  sleep_until-Steady lab Booted (λ s w p. p) Any _
                  Ensures-pure Booted Rounded Any false (λ s p. p)))

    observe_round-Rounded :
        Ensures Booted Rounded Any (observe_round lab initial healthy submit boot)
    unfolding observe_round
    observe_round-Rounded = do
      Sampled.check_deadlines-Round lab initial healthy submit boot
      observed ← call-Kept lab Round _ (λ s w p. p)
      require-Kept Round _ _
      row ← recovery_sample-Built lab boot Round (λ s w p. p)
      Sampled.note_native-Noted lab initial healthy submit boot row
      Sampled.note_availability-Settled lab initial healthy submit boot row
      note_precision-Rounded row

  abbrev pub Found : Option String → S → Type 0
  Found none s = Unit
  Found (some boot) s = Converged boot s

  pub converge-Found :
      (fuel : ℕ) → Ensures Kept Found Any (converge lab initial healthy submit fuel)
  unfolding converge
  converge-Found zero = Ensures-pure _ _ _ none (λ s p. tt)
  converge-Found (suc fuel) = do
    loop ← ask-Steady lab Kept (λ s w p. p) Any _
    Sampled.look_for_boot-Kept lab initial healthy submit
    gets-Kept Kept _ >>= elim [
      | none ↦
          Ensures-from (λ s p. p.0)
            (do
              now ← ask-Steady lab Kept (λ s w p. p) Any _
              require-Kept Kept _ _
              sleep_until-Steady lab Kept (λ s w p. p) Any _
              converge-Found fuel)
      | some boot ↦ observe_round-Rounded boot >>= elim [
        | true ↦ Ensures-pure _ _ _ (some boot) (λ s p. p)
        | false ↦ Ensures-from (λ s p. p.0) (converge-Found fuel)
      ]
    ]
