-- ===== src/Watchdog/Sample/Good.antt =====
-- What makes the samples of `recovery_observation` good ones.
use homelab_server_configs.Prelude.{
  ℕ, String, ◌≢◌, ◌⊎◌, inl, inr, ◌+◌, ◌≤◌, Bool, true, false, ◌&&◌, Option, none, some, List, [],
  ◌∷◌, ◌≡◌, refl, sym, ◌∙◌, arith, all,
}
use homelab_server_configs.Watchdog.Timing
use homelab_server_configs.Watchdog.Sample.{Watch}
use homelab_server_configs.Watchdog.Checks.{Native, Row, native_or}
use homelab_server_configs.Watchdog.Checks.Passed.{Same}

-- A sample that ended in time and saw the service and both clients available and precise.
abbrev pub Good : Native → ℕ → Row → Type 0
Good f finished row =
    (row.finished ≡ finished)
    × (row.bounded ≡ true)
    × ((n : Native) × (row.native ≡ some n)
        × (n.available ≡ true)
        × (n.precision ≡ true)
        × Same f n)
    × (all (λ c. c.1.available) row.clients ≡ true)
    × (all (λ c. c.1.precision) row.clients ≡ true)

-- The newest samples are good, and ended at these times.
abbrev pub Stamped : Option Native → List ℕ → List Row → Type 0
Stamped first [] rows = Unit
Stamped (some f) (t ∷ stamps) (row ∷ rows) = Good f t row × Stamped (some f) stamps rows
Stamped _ _ _ = ⊥

-- Three good samples with half a minute between them, the last of which ended at `c`.
abbrev pub Confirmed : Native → ℕ → List Row → Type 0
Confirmed f c rows =
    (b : ℕ) × (a : ℕ) × (older : List ℕ) × Stamped (some f) (c ∷ b ∷ a ∷ older) rows
    × (a + 30000 ≤ b)
    × (b + 30000 ≤ c)

-- Good samples from the confirmation at `c` to one that ended at `last`, 75 seconds apart at most.
pub data Stretch (submit : ℕ) (f : Native) (c : ℕ) : ℕ → List Row → Type 0 where
  confirmed : (rows : List Row) → Confirmed f c rows → Stretch submit f c c rows
  extended :
      (last finished : ℕ) (row : Row) (rows : List Row)
      → Stretch submit f c last rows
      → Good f finished row
      → finished ≤ last + Timing.gap
      → finished ≤ submit + Timing.total
      → Stretch submit f c finished (row ∷ rows)

pub Stretch-bound :
    {submit : ℕ} {f : Native} {c last : ℕ} {rows : List Row}
    → Stretch submit f c last rows
    → (last ≡ c) ⊎ (last ≤ submit + Timing.total)
Stretch-bound (confirmed rows h) = inl refl
Stretch-bound (extended last finished row rows before good gap total) = inr total

-- A recovery that was observed to its end: another boot, which was seen before the escalation; the
-- service and both clients available within five minutes of the last healthy moment; three good
-- samples within half an hour of the grant; and good samples from there for half an hour more.
pub record Recovered {W : Type 0} (initial : String) (healthy submit : ℕ) (boot : String)
    (s : Watch W) : Type 0 where
  pub another : boot ≢ initial
  pub seen : s.boot_network.finished ≤ submit + Timing.escalation
  pub available : s.availability.passed ≡ true
  pub available_by : s.availability.finished ≤ healthy + Timing.availability
  pub converged : s.convergence.passed ≡ true
  pub converged_by : s.convergence.finished ≤ submit + Timing.convergence
  pub stable : s.stability.passed ≡ true
  pub stable_for : s.convergence.finished + Timing.stability ≤ s.stability.finished
  pub stable_by : s.stability.finished ≤ submit + Timing.total
  pub sampled :
      (f : Native) × (f.boot ≡ boot)
      × Stretch submit f s.convergence.finished s.stability.finished s.rows

-- A row as `recovery_sample` builds it.
abbrev pub Built : Row → Type 0
Built row =
    (row.available ≡ (
      row.bounded
      && native_or (λ n. n.available) row.native
      && all (λ p. p.1.available) row.clients))
    × (row.precision ≡ (
        row.bounded
        && native_or (λ n. n.precision) row.native
        && all (λ p. p.1.precision) row.clients))

-- The native observation of a sample was compared to the first.
abbrev pub Compared : Option Native → Option Native → Type 0
Compared first none = Unit
Compared none (some n) = ⊥
Compared (some f) (some n) = Same f n

Good-parts :
    (f : Native) (o : Option Native) (bounded available precision : Bool)
    → (bounded && native_or (λ n. n.available) o && available) ≡ true
    → (bounded && native_or (λ n. n.precision) o && precision) ≡ true
    → Compared (some f) o
    → (bounded ≡ true)
      × ((n : Native) × (o ≡ some n) × (n.available ≡ true) × (n.precision ≡ true) × Same f n)
      × (available ≡ true)
      × (precision ≡ true)
Good-parts f (some n) true true true a p same =
    (refl, (n, refl, ground arith, ground arith, same), refl, refl)
Good-parts f none true x y a p same = absurd cc
Good-parts f o false x y a p same = absurd cc
Good-parts f (some n) true false y a p same = absurd (ground (arith))
Good-parts f (some n) true true false a p same = absurd (ground (arith))

pub Built-Good :
    (f : Native) (row : Row)
    → Built row
    → row.available ≡ true
    → row.precision ≡ true
    → Compared (some f) row.native
    → Good f row.finished row
Built-Good f row built a p same =
    let (bounded, native, available, precise) =
      Good-parts f row.native row.bounded _ _ (sym built.0 ∙ a) (sym built.1 ∙ p) same in
    (refl, bounded, native, available, precise)
