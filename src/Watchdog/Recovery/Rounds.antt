-- ===== src/Watchdog/Recovery/Rounds.antt =====
-- What a round of `recovery_observation` does to the time.
use mathlib.Core.Path.{subst}
use homelab_server_configs.Prelude.{
  ℕ, ◌+◌, ◌-◌, ◌≤◌, ◌<◌, String, Bool, true, false, not, ◌&&◌, none, some, ◌≡◌, refl, sym, ap, ◌∙◌,
  ◌⊎◌, arith, leb, ltb, length, str_eq, if◌then◌else◌,
}
use homelab_server_configs.Prelude.Exec.{
  Exec, Ensures, Ensures-pure, Ensures-gets, Ensures-mono, Ensures-if, Ensures-given,
  Ensures-require, Ensures-modify, Ensures-catch, Ensures-from,
}
use homelab_server_configs.Prelude.Exec.Chain.{◌>>=◌, ◌>>◌}
use homelab_server_configs.Watchdog.Timing
use homelab_server_configs.Watchdog.Checks.{Row, Stage}
use homelab_server_configs.Watchdog.Sample.{Lab, Watch, sleep_until}
use homelab_server_configs.Watchdog.Recovery.{
  smaller, find_boot, look_for_boot, check_deadlines, enter_availability, note_availability,
  note_precision, observe_round,
}
use homelab_server_configs.Watchdog.Sample.Rules.{ask_rule, on_expected_rule}
use homelab_server_configs.Prelude.Exec.Quiet.{Any, anything}
use homelab_server_configs.Watchdog.Sample.Timed
use homelab_server_configs.Watchdog.Sample.Timed.{Timed}

-- Whichever time was the earliest, one of the three has come.
slept_cases :
    (passed : Bool) (next over limit t : ℕ)
    → smaller next (smaller over (if passed then over else limit)) ≤ t
    → (next ≤ t) ⊎ ((over ≤ t) ⊎ ((passed ≡ false) × (limit ≤ t)))
slept_cases true next over limit t h = ground arith
slept_cases false next over limit t h = ground arith

module _ (lab : Lab) (time : lab.State → ℕ) (timed : Timed lab time) (initial : String)
    (healthy submit : ℕ) where
  abbrev pub S : Type 0
  S = Watch lab.State

  abbrev pub Since : ℕ → Bool → S → Type 0
  Since = Timed.Since lab time timed

  abbrev pub Keeps : {A : Type 0} → ℕ → Bool → Exec S A → Type 0
  Keeps = Timed.Keeps lab time timed

  module _ (t : ℕ) (p : Bool) where
    find_boot-Since : Keeps t p (find_boot lab initial healthy submit)
    unfolding find_boot
    find_boot-Since = do
      observed ← Timed.call-Since lab time timed t p _ timed.boot_keeps
      Ensures-if (str_eq observed initial) (λ _. Timed.pure-Since lab time timed t p tt)
          (λ _. do
            Timed.modify-Since lab time timed t p _ (λ s k. k)
            finished ← Timed.clock-Since lab time timed t p
            Ensures-from (λ s k. k.2) (Timed.modify-Since lab time timed t p _ (λ s k. k))
            Timed.call-Since lab time timed t p _ (timed.save_keeps _))

    pub look_for_boot-Since : Keeps t p (look_for_boot lab initial healthy submit)
    unfolding look_for_boot
    look_for_boot-Since = Timed.gets-Since lab time timed t p _ >>= elim [
      | some boot ↦ Timed.pure-Since lab time timed t p tt
      | none ↦ Ensures-catch find_boot-Since (λ e.
          on_expected_rule (λ e s k. k) e
            (Timed.call-Since lab time timed t p _ (timed.save_keeps _)))
    ]

    check_deadlines-Since : Keeps t p (check_deadlines lab initial healthy submit)
    unfolding check_deadlines
    check_deadlines-Since = do
      network ← Timed.gets-Since lab time timed t p _
      Timed.require-Since lab time timed t p _ _
      now ← Timed.clock-Since lab time timed t p
      Ensures-from (λ s k. k.2) (Timed.require-Since lab time timed t p _ _)
      stage ← Timed.gets-Since lab time timed t p _
      Ensures-if stage.passed (λ _. Timed.pure-Since lab time timed t p tt)
          (λ _. do
            again ← Timed.clock-Since lab time timed t p
            Ensures-from (λ s k. k.2) (Timed.require-Since lab time timed t p _ _))

    -- A round that did not pass ended before the deadline.
    abbrev pub Noted : ℕ → S → Type 0
    Noted finished s =
        Since t p s × (s.availability.passed ≡ false → finished < healthy + Timing.availability)

    note_availability-Noted :
        (row : Row)
        → Ensures
            (Since t p)
            (λ _. Noted row.finished)
            Any
            (note_availability lab initial healthy submit row)
    unfolding note_availability enter_availability
    note_availability-Noted row = do
      stage ←
          Ensures-gets _ (λ stage s. Since t p s × (s.availability ≡ stage)) Any _
            (λ s k. (k, refl))
      Ensures-if (row.available && not stage.passed)
          (λ fresh. do
            Ensures-modify _ (λ _. Since t p) Any _
                (λ s k. (
                  k.0.0,
                  λ h.
                      let old : stage.passed ≡ true =
                        sym (ap (λ (x : Stage). x.passed) k.1) ∙ k.0.1 h in
                      absurd (ground arith),
                ))
            Ensures-mono (λ s k. k) (λ _ s k. k) (λ _ s k. tt)
                (Timed.call-Since lab time timed t p _ (timed.save_keeps _)))
          (λ _. Ensures-pure _ (λ _. Since t p) Any tt (λ s k. k.0))
      later ←
          Ensures-gets _ (λ later s. Since t p s × (s.availability ≡ later)) Any _
            (λ s k. (k, refl))
      Ensures-if later.passed
          (λ passed. Ensures-pure _ _ _ tt (λ s k. (
            k.0,
            λ failed.
                let old : later.passed ≡ false = sym (ap (λ (x : Stage). x.passed) k.1) ∙ failed in
                absurd cc,
          )))
          (λ failed.
            Ensures-mono (λ s k. k) (λ _ s k. (k.0.0, λ _. ground arith)) (λ _ s k. k)
              (Ensures-require _ Any _ _ (λ s k h. tt)))

    abbrev pub Asleep : (S → Type 0) → S → Type 0
    Asleep P s = P s × (t ≤ time s.world)

    pub sleep_until-After :
        (P : S → Type 0) (until : ℕ)
        → ((s : S) (w : lab.State) → P s → P (record s { world = w }))
        → Ensures
            (Asleep P)
            (λ _ s. Asleep P s × (until ≤ time s.world))
            Any
            (sleep_until lab until)
    unfolding sleep_until
    sleep_until-After P until steady = do
      now ←
          ask_rule lab _ (λ now s. Asleep P s × (now ≤ time s.world)) Any _
            (λ s k.
              let shown = timed.reads s.world in
              let later = timed.monotonic_keeps s.world in
              ((steady s _ k.0, omega arith), omega arith))
      ask_rule lab _ _ Any _ (λ s k.
          let slept = timed.sleeps (until - now) s.world in
          ((steady s _ k.0.0, omega arith), omega arith))

    -- A round that did not confirm, after its wait.
    abbrev pub Slept : S → Type 0
    Slept s =
        (f : ℕ) × (t ≤ f)
        × (f < submit + Timing.convergence)
        × Noted f s
        × ((f + 30000 ≤ time s.world)
            ⊎ ((submit + Timing.convergence ≤ time s.world)
                ⊎ ((s.availability.passed ≡ false)
                    × (healthy + Timing.availability ≤ time s.world))))

    abbrev pub Rounded : Bool → S → Type 0
    Rounded true s = Unit
    Rounded false s = Slept s

    abbrev pub Awake : ℕ → Stage → S → Type 0
    Awake f stage s =
        (p ≡ true → s.availability.passed ≡ true)
        × (s.availability.passed ≡ false → f < healthy + Timing.availability)
        × (s.availability ≡ stage)

    note_precision-Rounded :
        (boot : String) (row : Row)
        → t ≤ row.finished
        → Ensures
            (Noted row.finished)
            Rounded
            Any
            (note_precision lab initial healthy submit boot row)
    unfolding note_precision
    note_precision-Rounded boot row began = do
      Ensures-modify _ (λ _. Noted row.finished) Any _ (λ s k. k)
      stamps ← Ensures-gets _ (λ _. Noted row.finished) Any _ (λ s k. k)
      Ensures-if (leb 3 (length stamps))
          (λ three. do
            anything _ _
            anything _ _
            anything _ _
            Ensures-pure _ Rounded Any true (λ s k. tt))
          (λ fewer. do
            Ensures-require _ Any _ _ (λ s k h. tt)
            stage ←
                Ensures-gets _
                  (λ stage s.
                    Asleep (Awake row.finished stage) s
                    × (ltb row.finished (submit + Timing.convergence) ≡ true))
                  Any _ (λ s k. (((k.0.0.1, k.0.1, refl), k.0.0.0), k.1))
            Ensures-given (λ early. do
              sleep_until-After (Awake row.finished stage) _ (λ s w k. k)
              Ensures-pure _ Rounded Any false (λ s k.
                  let ((awake, since), until) = k in
                  (
                    row.finished,
                    began,
                    ground arith,
                    ((since, awake.0), awake.1),
                    subst
                        (λ (x : Stage).
                          (row.finished + 30000 ≤ time s.world)
                          ⊎ ((submit + Timing.convergence ≤ time s.world)
                              ⊎ ((x.passed ≡ false)
                                  × (healthy + Timing.availability ≤ time s.world))))
                        (sym awake.2) (slept_cases stage.passed _ _ _ (time s.world) until),
                  ))))

    pub observe_round-Rounded :
        (boot : String)
        → Ensures (Since t p) Rounded Any (observe_round lab initial healthy submit boot)
    unfolding observe_round
    observe_round-Rounded boot = do
      Timed.loose lab time timed t p check_deadlines-Since
      observed ←
          Timed.loose lab time timed t p (Timed.call-Since lab time timed t p _ timed.boot_keeps)
      Timed.loose lab time timed t p (Timed.require-Since lab time timed t p _ _)
      row ←
          Ensures-mono (λ s k. k) (λ row s k. (k.1, k.0)) (λ _ s k. tt)
            (Timed.recovery_sample-Since lab time timed t p boot)
      Ensures-given (λ began. do
        Timed.loose lab time timed t p (Timed.note_native-Since lab time timed t p boot row)
        note_availability-Noted row
        note_precision-Rounded boot row began)
