-- ===== src/Watchdog/Sample/Built.antt =====
-- What a sample adds to the rows.
use homelab_server_configs.Prelude.{String, none, List, ◌∷◌, ◌≡◌, refl}
use homelab_server_configs.Prelude.Exec.{
  Ensures, Ensures-pure, Ensures-mono, Ensures-require, Ensures-modify, Ensures-catch,
}
use homelab_server_configs.Prelude.Exec.Chain.{◌>>=◌, ◌>>◌}
use homelab_server_configs.Watchdog.Checks.{Row}
use homelab_server_configs.Watchdog.Sample.Good.{Built}
use homelab_server_configs.Watchdog.Sample.{Lab, Watch, row_of, recovery_sample}
use homelab_server_configs.Watchdog.Sample.Rules.{
  on_expected_rule, call-Kept, Steady, ask-Steady, call-Steady,
}
use homelab_server_configs.Prelude.Exec.Quiet.{Any, pure-Kept}

module _ (lab : Lab) (boot : String) where
  abbrev S : Type 0
  S = Watch lab.State

  pub recovery_sample-Built :
      (P : S → Type 0)
      → Steady lab P
      → Ensures P
          (λ row s.
            Built row × ((rest : List Row) × (s.rows ≡ row ∷ rest) × P (record s { rows = rest })))
          Any
          (recovery_sample lab boot)
  unfolding recovery_sample
  recovery_sample-Built P steady = do
    start ← ask-Steady lab P steady Any _
    packets ← call-Kept lab P _ steady
    call-Kept lab P _ steady
    native ←
        Ensures-catch
          (do
            now ← ask-Steady lab P steady (λ _. P) _
            Ensures-mono (λ s p. p) (λ _ s p. p.0) (λ _ s p. p)
                (Ensures-require P (λ _. P) _ _ (λ s p h. p))
            found ← call-Steady lab P _ steady
            Ensures-pure P (λ _. P) (λ _. P) _ (λ s p. p))
          (λ e. on_expected_rule (λ e s p. tt) e (pure-Kept P none))
    finished ← ask-Steady lab P steady Any _
    call-Kept lab P _ steady
    Ensures-modify P
        (λ _ s. (rest : List Row) × (s.rows ≡ row_of _ _ _ _ ∷ rest) × P (record s { rows = rest }))
        Any _ (λ s p. (s.rows, refl, p))
    Ensures-pure _ _ _ _ (λ s p. ((refl, refl), p))
