-- ===== src/Watchdog/Sample/Rules.antt =====
-- What the clock, the calls of the target and the waits leave of the observation's state.
use homelab_server_configs.Prelude.{ℕ}
use homelab_server_configs.Prelude.Exec.{
  Exec, Ensures-mono, Ensures-raise, Error, Outcome, Post, Post-const, Ensures,
}
use homelab_server_configs.Prelude.Exec.Chain.{◌>>=◌}
use homelab_server_configs.Watchdog.Sample.{on_expected, Lab, Watch, ask, try_call, sleep_until}

module _ (lab : Lab) where
  abbrev S : Type 0
  S = Watch lab.State

  pub ask_rule :
      {A : Type 0} (P : S → Type 0) (Q : A → S → Type 0) (E : Error → S → Type 0)
      (f : lab.State → A × lab.State)
      → ((s : S) → P s → Q (f s.world).0 (record s { world = (f s.world).1 }))
      → Ensures P Q E (ask lab f)
  unfolding ask
  ask_rule P Q E f h = record { at = h }

  pub call_rule :
      {A : Type 0} (P : S → Type 0) (Q : A → S → Type 0) (E : Error → S → Type 0)
      (f : lab.State → Outcome A × lab.State)
      → ((s : S) → P s → Post Q E ((f s.world).0, record s { world = (f s.world).1 }))
      → Ensures P Q E (try_call lab f)
  unfolding try_call
  call_rule P Q E f h = record { at = h }

  -- It does not depend on the world.
  abbrev pub Steady : (S → Type 0) → Type 0
  Steady P = (s : S) (w : lab.State) → P s → P (record s { world = w })

  module _ (P : S → Type 0) (steady : Steady P) (E : Error → S → Type 0) where
    pub ask-Steady : {A : Type 0} (f : lab.State → A × lab.State) → Ensures P (λ _. P) E (ask lab f)
    ask-Steady f = ask_rule P (λ _. P) E f (λ s p. steady s (f s.world).1 p)

    pub sleep_until-Steady : (until : ℕ) → Ensures P (λ _. P) E (sleep_until lab until)
    unfolding sleep_until
    sleep_until-Steady until = do now ← ask-Steady _; ask-Steady _

  pub call-Steady :
      {A : Type 0} (P : S → Type 0) (f : lab.State → Outcome A × lab.State)
      → Steady P
      → Ensures P (λ _. P) (λ _. P) (try_call lab f)
  call-Steady P f steady =
      call_rule P (λ _. P) (λ _. P) f
        (λ s p. Post-const P (f s.world).0 _ (steady s (f s.world).1 p))

  pub call-Kept :
      {A : Type 0} (P : S → Type 0) (f : lab.State → Outcome A × lab.State)
      → Steady P
      → Ensures P (λ _. P) (λ _ _. Unit) (try_call lab f)
  call-Kept P f steady = Ensures-mono (λ s p. p) (λ _ s p. p) (λ _ s p. tt) (call-Steady P f steady)

-- A handler that raises some exceptions again.
pub on_expected_rule :
    {S A : Type 0} {P : S → Type 0} {Q : A → S → Type 0} {E : Error → S → Type 0} {h : Exec S A}
    → ((e : Error) (s : S) → P s → E e s)
    → (e : Error) → Ensures P Q E h
    → Ensures P Q E (on_expected h e)
on_expected_rule again (Error.value_error m) k = k
on_expected_rule again Error.os_error k = k
on_expected_rule again (Error.blocked m) k = Ensures-raise _ _ _ _ (again (Error.blocked m))
on_expected_rule again Error.other_error k = Ensures-raise _ _ _ _ (again Error.other_error)
on_expected_rule again (Error.refused code m) k =
    Ensures-raise _ _ _ _ (again (Error.refused code m))
