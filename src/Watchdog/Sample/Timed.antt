-- ===== src/Watchdog/Sample/Timed.antt =====
-- What the steps of a sample do to the time.
use homelab_server_configs.Prelude.{ℕ, ◌+◌, ◌≤◌, String, Bool, true, Option, none, some, ◌≡◌, arith}
use homelab_server_configs.Prelude.Exec
use homelab_server_configs.Prelude.Exec.{
  Error, Outcome, returned, raised, Exec, pure, Post, Post-cases, Ensures, Ensures-pure,
  Ensures-raise, Ensures-lift, Ensures-gets, Ensures-mono, Ensures-if, Ensures-given,
  Ensures-require, Ensures-modify, Ensures-catch, Ensures-from,
}
use homelab_server_configs.Prelude.Exec.Chain.{◌>>=◌, ◌>>◌}
use homelab_server_configs.Watchdog.Checks.{Native, Row}
use homelab_server_configs.Watchdog.Sample.{
  Lab, Watch, stable_since, ask, try_call, recovery_sample, note_reading, note_native,
}
use homelab_server_configs.Watchdog.Sample.Rules.{ask_rule, call_rule, on_expected_rule}
use homelab_server_configs.Prelude.Exec.Quiet.{Any}

-- The clock shows the time, no call turns it back, and a sleep lasts as long as was asked.
pub record Timed (lab : Lab) (time : lab.State → ℕ) : Type 0 where
  pub reads : (w : lab.State) → (lab.monotonic w).0 ≡ time w
  pub monotonic_keeps : (w : lab.State) → time w ≤ time (lab.monotonic w).1
  pub boot_keeps : (w : lab.State) → time w ≤ time (lab.observe_boot w).1
  pub recovery_keeps :
      (boot : String) (ms : ℕ) (w : lab.State) → time w ≤ time (lab.observe_recovery boot ms w).1
  pub clients_keep : (w : lab.State) → time w ≤ time (lab.recovery_clients w).1
  pub save_keeps : (label : String) (w : lab.State) → time w ≤ time (lab.save label w).1
  pub sleeps : (ms : ℕ) (w : lab.State) → time w + ms ≤ time (lab.sleep ms w)

module _ (lab : Lab) (time : lab.State → ℕ) (timed : Timed lab time) where
  abbrev pub S : Type 0
  S = Watch lab.State

  -- It is `t` or later, and the availability has passed if `p` says so.
  abbrev pub Since : ℕ → Bool → S → Type 0
  Since t p s = (t ≤ time s.world) × (p ≡ true → s.availability.passed ≡ true)

  abbrev pub Keeps : {A : Type 0} → ℕ → Bool → Exec S A → Type 0
  Keeps t p m = Ensures (Since t p) (λ _. Since t p) (λ _. Since t p) m

  module _ (t : ℕ) (p : Bool) where
    pub call-Since :
        {A : Type 0} (f : lab.State → Outcome A × lab.State)
        → ((w : lab.State) → time w ≤ time (f w).1)
        → Keeps t p (try_call lab f)
    call-Since f h = call_rule lab _ _ _ f (λ s k.
        let later = h s.world in
        Exec.Post-const (Since t p) (f s.world).0 (record s { world = (f s.world).1 })
          (omega arith, k.1))

    -- The clock that is read shows a time that has come.
    pub clock-Since :
        Ensures
          (Since t p)
          (λ now s. (t ≤ now) × (now ≤ time s.world) × Since t p s)
          (λ _. Since t p)
          (ask lab lab.monotonic)
    clock-Since = ask_rule lab _ _ _ _ (λ s k.
        let shown = timed.reads s.world in
        let later = timed.monotonic_keeps s.world in (omega arith, omega arith, (omega arith, k.1)))

    pub pure-Since : {A : Type 0} (a : A) → Keeps t p (pure a)
    pure-Since a = Ensures-pure _ _ _ a (λ s k. k)

    pub require-Since : (b : Bool) (e : Error) → Keeps t p (Exec.require b e)
    require-Since b e =
        Ensures-mono (λ s k. k) (λ _ s k. k.0) (λ _ s k. k)
          (Ensures-require (Since t p) (λ _. Since t p) b e (λ s k h. k))

    pub modify-Since :
        (f : S → S) → ((s : S) → Since t p s → Since t p (f s)) → Keeps t p (Exec.modify f)
    modify-Since f h = Ensures-modify _ _ _ f h

    -- A read that is forgotten.
    pub gets-Since : {A : Type 0} (f : S → A) → Keeps t p (Exec.gets f)
    gets-Since f = Ensures-gets _ _ _ f (λ s k. k)

    -- A sample ends after it began.
    pub recovery_sample-Since :
        (boot : String)
        → Ensures
            (Since t p)
            (λ row s. (t ≤ row.finished) × Since t p s)
            (λ _. Since t p)
            (recovery_sample lab boot)
    unfolding recovery_sample
    recovery_sample-Since boot = do
      start ← clock-Since
      Ensures-from (λ s k. k.2)
          (do
            packets ← call-Since _ timed.clients_keep
            call-Since _ (timed.save_keeps _)
            native ←
                Ensures-catch
                  (do
                    now ← clock-Since
                    Ensures-from (λ s k. k.2)
                        (do
                          require-Since _ _
                          found ← call-Since _ (timed.recovery_keeps boot _)
                          pure-Since (some found)))
                  (λ e. on_expected_rule (λ e s k. k) e (pure-Since none))
            finished ← clock-Since
            Ensures-from (λ s k. (k.2, k.0))
                (Ensures-given (λ began. do
                  call-Since _ (timed.save_keeps _)
                  modify-Since _ (λ s k. k)
                  Ensures-pure _ _ _ _ (λ s k. (began, k)))))

    note_reading-Since :
        (boot : String) (finished : ℕ) (o : Option Native)
        → Keeps t p (note_reading lab boot finished o)
    unfolding note_reading
    note_reading-Since boot finished none = pure-Since tt
    note_reading-Since boot finished (some native) = do
      require-Since _ _
      modify-Since _ (λ s k. k)
      first ← gets-Since _
      Ensures-lift _ (λ _. Since t p) _ _
          (λ s k. Exec.Post-const (Since t p) (stable_since first native) s k)
      Ensures-if native.available (λ _. modify-Since _ (λ s k. k)) (λ _. pure-Since tt)

    pub note_native-Since : (boot : String) (row : Row) → Keeps t p (note_native lab boot row)
    unfolding note_native
    note_native-Since boot row = do
      stage ← gets-Since _
      Ensures-if stage.passed (λ _. require-Since _ _) (λ _. pure-Since tt)
      note_reading-Since boot row.finished row.native
      modify-Since _ (λ s k. k)

    pub loose :
        {A : Type 0} {m : Exec S A} → Keeps t p m → Ensures (Since t p) (λ _. Since t p) Any m
    loose k = Ensures-mono (λ s h. h) (λ _ s h. h) (λ _ s h. tt) k
