-- ===== src/Prelude/Exec/Quiet.antt =====
-- Steps that keep a predicate of the state, where an exception may leave anything.
use mathlib.Core.Path.{◌≡◌, refl}
use mathlib.Core.Bool.{Bool}
use homelab_server_configs.Prelude.Exec.{
  Error, Exec, pure, gets, require, Post-anything, Ensures, Ensures-pure, Ensures-gets,
  Ensures-mono, Ensures-require,
}

module _ {S : Type 0} where
  abbrev pub Any : Error → S → Type 0
  Any _ _ = Unit

  pub require-Kept : (P : S → Type 0) (b : Bool) (e : Error) → Ensures P (λ _. P) Any (require b e)
  require-Kept P b e =
      Ensures-mono (λ s p. p) (λ _ s p. p.0) (λ _ s p. p) (Ensures-require P Any b e (λ s p h. tt))

  module _ {A : Type 0} where
    pub pure-Kept : (P : S → Type 0) (a : A) → Ensures P (λ _. P) Any (pure a)
    pure-Kept P a = Ensures-pure P (λ _. P) Any a (λ s p. p)

    -- The result of a read is the state's.
    pub gets-Kept : (P : S → Type 0) (f : S → A) → Ensures P (λ a s. P s × (f s ≡ a)) Any (gets f)
    gets-Kept P f = Ensures-gets P _ Any f (λ s p. (p, refl))

    pub anything : (P : S → Type 0) (m : Exec S A) → Ensures P (λ _ _. Unit) Any m
    anything P m = record { at = λ s p. Post-anything (m s) }
