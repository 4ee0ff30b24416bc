-- ===== src/Watchdog/Recovery/Recovered.antt =====
-- What the samples and the stages show when `recovery_observation` has returned a boot.
use mathlib.Core.Path.{subst}
use homelab_server_configs.Prelude.{
  ℕ, zero, suc, ◌+◌, ◌≤◌, String, true, ◌&&◌, Option, none, some, List, ◌∷◌, eq_iff, inl, inr, ◌≡◌,
  refl, sym, ap, ◌∙◌, arith, leb, leb→le, &&-parts,
}
use homelab_server_configs.Prelude.Exec.{
  returned, pure, Post-cases, Post-returned, Ensures, Ensures-ghost, Ensures-pure, Ensures-lift,
  Ensures-if, Ensures-require, Ensures-modify, Ensures-from,
}
use homelab_server_configs.Prelude.Exec.Chain.{◌>>=◌, ◌>>◌}
use homelab_server_configs.Watchdog.Timing
use homelab_server_configs.Watchdog.Checks.{Native, Row, Stage}
use homelab_server_configs.Watchdog.Checks.Passed.{stable_service-Same}
use homelab_server_configs.Watchdog.Sample.Good.{
  Confirmed as Three, Stretch, confirmed, extended, Stretch-bound, Recovered, Built, Compared,
  Built-Good,
}
use homelab_server_configs.Watchdog.Sample.{Lab, Watch}
use homelab_server_configs.Watchdog.Recovery.{
  stable_row, stabilize, finish_observation, recovery_observation,
}
use homelab_server_configs.Watchdog.Sample.Rules.{call-Kept, sleep_until-Steady}
use homelab_server_configs.Prelude.Exec.Quiet.{Any, require-Kept, gets-Kept}
use homelab_server_configs.Watchdog.Recovery.Sampled
use homelab_server_configs.Watchdog.Sample.Built.{recovery_sample-Built}
use homelab_server_configs.Watchdog.Recovery.Confirmed

module _ (lab : Lab) (initial : String) (healthy submit : ℕ) where
  abbrev S : Type 0
  S = Watch lab.State

  abbrev Fixed : String → Native → ℕ → S → Type 0
  Fixed = Confirmed.Fixed lab initial healthy submit

  abbrev Found : Option String → S → Type 0
  Found = Confirmed.Found lab initial healthy submit

  module _ (boot : String) (f : Native) (c : ℕ) where
    abbrev Stable : ℕ → S → Type 0
    Stable last s = Fixed boot f c s × Stretch submit f c last s.rows

    abbrev Lasted : ℕ → Option ℕ → S → Type 0
    Lasted deadline none s = Unit
    Lasted deadline (some last) s = (deadline ≤ last) × Stable last s

    stable_row-Compared :
        (first o : Option Native)
        → first ≡ some f
        → stable_row first o ≡ returned tt
        → Compared (some f) o
    stable_row-Compared none o e h = absurd cc
    stable_row-Compared (some g) none e h = absurd cc
    stable_row-Compared (some g) (some n) e h =
        subst (λ o. Compared o (some n)) e (stable_service-Same g n h)

    -- A good sample after the others.
    Stable-extended :
        (last : ℕ) (row : Row) (s : S)
        → Built row
          × ((rest : List Row) × (s.rows ≡ row ∷ rest) × Stable last (record s { rows = rest }))
        → (row.available && row.precision) ≡ true
        → stable_row s.first row.native ≡ returned tt
        → (leb row.finished (last + Timing.gap) && leb row.finished (submit + Timing.total)) ≡ true
        → Stable row.finished s
    Stable-extended last row s (built, (rest, rows, (fixed, stretch))) seen same near =
        let (available, precise) = &&-parts row.available row.precision seen in
        let (gap, total) = &&-parts _ _ near in
        (
          fixed,
          rw rows (
              extended last row.finished row rest stretch
                (Built-Good f row built available precise
                  (stable_row-Compared s.first row.native fixed.5 same))
                (leb→le _ _ gap) (leb→le _ _ total)),
        )

    stabilize-Lasted :
        (fuel deadline last : ℕ)
        → Ensures
            (Stable last)
            (Lasted deadline)
            Any
            (stabilize lab initial healthy submit fuel boot deadline last)
    unfolding stabilize
    stabilize-Lasted zero deadline last = Ensures-pure _ _ _ none (λ s p. tt)
    stabilize-Lasted (suc fuel) deadline last =
        Ensures-if (leb deadline last)
          (λ over. Ensures-pure _ (Lasted deadline) _ (some last) (λ s p. (leb→le _ _ over, p)))
          (λ _. do
            sleep_until-Steady lab (Stable last) (λ s w p. p) Any _
            observed ← call-Kept lab (Stable last) _ (λ s w p. p)
            require-Kept (Stable last) _ _
            row ← recovery_sample-Built lab boot (Stable last) (λ s w p. p)
            Ensures-require _ Any _ _ (λ s p h. tt)
            first ← gets-Kept _ _
            Ensures-lift _ _ Any _ (λ s p.
                Post-cases
                  (λ _ s.
                    (Built row
                      × ((rest : List Row) × (s.rows ≡ row ∷ rest)
                          × Stable last (record s { rows = rest })))
                    × ((row.available && row.precision) ≡ true)
                    × (stable_row s.first row.native ≡ returned tt))
                  Any (stable_row first row.native) s
                  (λ a e. (p.0.0, p.0.1, ap (λ o. stable_row o row.native) p.1 ∙ e)) (λ _ _. tt))
            Ensures-require _ Any _ _ (λ s p h. tt)
            Ensures-from (λ s p. Stable-extended last row s p.0.0 p.0.1 p.0.2 p.1)
                (stabilize-Lasted fuel deadline row.finished))

  abbrev Kind : Option String → S → Type 0
  Kind none s = Unit
  Kind (some boot) s = Recovered initial healthy submit boot s

  module _ (boot : String) (f : Native) (c last : ℕ) where
    abbrev Watched : S → Type 0
    Watched s =
        Fixed boot f c s
        × (c + Timing.stability ≤ last)
        × Stretch submit f c last s.rows
        × (s.stability.passed ≡ true)
        × (s.stability.finished ≡ last)

    Watched-Recovered : (s : S) → Watched s → Recovered initial healthy submit boot s
    Watched-Recovered s (fixed, long, stretch, stable, ended) =
        let (here, new, network, passed, within, first, same, converged, at, by) = fixed in
        record {
          another = λ e. let old = (eq_iff boot initial).1 e in absurd cc;
          seen = network;
          available = passed;
          available_by = within;
          converged = converged;
          converged_by = rw at by;
          stable = stable;
          stable_for = rw at (rw ended long);
          stable_by =
              rw ended
                (elim (Stretch-bound stretch) [ inl e ↦ absurd (omega arith) | inr early ↦ early ]);
          sampled = (f, same, rw at (rw ended stretch));
        }

  finish_observation-Kind :
      (fuel : ℕ) (boot : String) (f : Native) (c : ℕ)
      → Ensures
          (λ s. Fixed boot f c s × Three f c s.rows)
          Kind
          Any
          (finish_observation lab initial healthy submit fuel boot c)
  unfolding finish_observation
  finish_observation-Kind fuel boot f c =
      Ensures-from (λ s p. (p.0, confirmed s.rows p.1))
        (stabilize-Lasted boot f c fuel (c + Timing.stability) c >>= elim [
          | none ↦ Ensures-pure _ Kind _ none (λ s p. tt)
          | some last ↦ do
            Ensures-modify _ (λ _. Watched boot f c last) Any _
                (λ s p. (p.1.0, p.0, p.1.1, refl, refl))
            call-Kept lab (Watched boot f c last) _ (λ s w p. p)
            Ensures-pure _ Kind _ (some boot) (Watched-Recovered boot f c last)
        ])

  finish-Kind :
      (fuel : ℕ) (stage : Stage) (found : Option String)
      → Ensures
          (λ s. Found found s × (s.convergence ≡ stage))
          Kind
          Any
          (elim found [
            | none ↦ pure none
            | some boot ↦ finish_observation lab initial healthy submit fuel boot stage.finished
          ])
  finish-Kind fuel stage none = Ensures-pure _ Kind _ none (λ s p. tt)
  finish-Kind fuel stage (some boot) =
      Ensures-from
        (λ s p.
          let ((f, c, fixed, three), e) = p in
          let at : c ≡ stage.finished = sym fixed.8 ∙ ap (λ (x : Stage). x.finished) e in
          (f, subst (λ c. Fixed boot f c s × Three f c s.rows) at (fixed, three)))
        (Ensures-ghost (λ (f : Native). finish_observation-Kind fuel boot f stage.finished))

  recovery_observation-Kind :
      (fuel : ℕ)
      → Ensures (λ _. Unit) Kind Any (recovery_observation lab initial healthy submit fuel)
  unfolding recovery_observation
  recovery_observation-Kind fuel = do
    Ensures-modify _ (λ _. Sampled.Kept lab initial healthy submit) Any _
        (λ s p. (tt, λ passed. absurd cc, tt))
    found ← Confirmed.converge-Found lab initial healthy submit fuel
    stage ← gets-Kept (Found found) _
    finish-Kind fuel stage found

  -- When the observation returns a boot, the recovery is one that was observed to its end.
  pub recovery_observation-Recovered :
      (fuel : ℕ) (s : S) (boot : String)
      → (recovery_observation lab initial healthy submit fuel s).0 ≡ returned (some boot)
      → Recovered initial healthy submit boot
          (recovery_observation lab initial healthy submit fuel s).1
  recovery_observation-Recovered fuel s boot h =
      Post-returned Kind Any (recovery_observation lab initial healthy submit fuel s) (some boot) h
        ((recovery_observation-Kind fuel).at s tt)
