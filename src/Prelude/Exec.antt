-- ===== src/Prelude/Exec.antt =====
-- Python calls with effects: what was written before a raise stays written, so the state comes
-- back beside the exception too. `Ensures` states what holds after a return and after a raise.
pub mod Chain
pub mod Quiet
use Prim.Native.String.{String}
use mathlib.Core.Path.{◌≡◌, refl, subst}
use mathlib.Core.Bool.{Bool, true, false}
use mathlib.Core.List.{List, [], ◌∷◌}
use homelab_server_configs.Prelude.Tests.{if◌then◌else◌}

-- The exceptions that the sources tell apart: their own classes with an error class
-- (`ProbeBlocked`, `PreflightBlocked`, `Blocked`), `CreationBlocked` with its class and
-- `mutation_attempted`, `ValueError` with its message, `OSError` (with
-- `TimeoutError`), and any other `Exception`.
pub data Error : Type 0 where
  blocked value_error : String → Error
  os_error other_error : Error
  refused : String → Bool → Error

pub data Outcome (A : Type 0) : Type 0 where
  returned : A → Outcome A
  raised : Error → Outcome A

abbrev pub Exec : Type 0 → Type 0 → Type 0
Exec S A = S → Outcome A × S

module _ {S A : Type 0} where
  pub pure : A → Exec S A
  pure a s = (returned a, s)

  pub raise : Error → Exec S A
  raise e s = (raised e, s)

  pub lift : Outcome A → Exec S A
  lift r s = (r, s)

  pub gets : (S → A) → Exec S A
  gets f s = (returned (f s), s)

module _ {S : Type 0} where
  pub modify : (S → S) → Exec S Unit
  modify f s = (returned tt, f s)

  -- `if not ok: raise …`
  pub require : Bool → Error → Exec S Unit
  require true e s = (returned tt, s)
  require false e s = (raised e, s)

module _ {S A B : Type 0} where
  abbrev pub continue : Outcome A → (A → Exec S B) → Exec S B
  continue (returned a) f s = f a s
  continue (raised e) f s = (raised e, s)

  infixl 10 ◌>>=◌ ◌>>◌
  unfoldable pub ◌>>=◌ : Exec S A → (A → Exec S B) → Exec S B
  unfolding pure raise lift gets modify require
  ◌>>=◌ m f s = let (r, s') = m s in continue r f s'

  abbrev pub ◌>>◌ : Exec S A → Exec S B → Exec S B
  m >> n = m >>= λ _. n

-- Calls that return or raise, with no state between them.
abbrev pub and_then : {A B : Type 0} → Outcome A → (A → Outcome B) → Outcome B
and_then (returned a) f = f a
and_then (raised e) f = raised e

-- A list of `require` calls: the code of the first that fails.
abbrev pub checks : List (Bool × String) → Outcome Unit
checks [] = returned tt
checks ((ok, code) ∷ rest) = if ok then checks rest else raised (value_error code)

-- The tests of a list of checks.
abbrev pub Hold : List (Bool × String) → Type 0
Hold [] = Unit
Hold ((ok, code) ∷ rest) = (ok ≡ true) × Hold rest

pub checks-Hold : (list : List (Bool × String)) → checks list ≡ returned tt → Hold list
checks-Hold [] h = tt
checks-Hold ((true, code) ∷ rest) h = (refl, checks-Hold rest h)
checks-Hold ((false, code) ∷ rest) h = absurd cc

pub and_then-returned :
    {A B : Type 0} (o : Outcome A) (f : A → Outcome B) (b : B)
    → and_then o f ≡ returned b
    → (a : A) × (o ≡ returned a) × (f a ≡ returned b)
and_then-returned (returned a) f b h = (a, refl, h)
and_then-returned (raised e) f b h = absurd cc

-- Checks, and what follows them.
pub checked :
    {B : Type 0} (list : List (Bool × String)) (f : Unit → Outcome B) (b : B)
    → and_then (checks list) f ≡ returned b
    → Hold list × (f tt ≡ returned b)
checked list f b h =
    let (u, ok, rest) = and_then-returned (checks list) f b h in (checks-Hold list ok, rest)

abbrev value_or : {A : Type 0} → A → Outcome A → A
value_or d (returned a) = a
value_or d (raised e) = d

module _ {S A : Type 0} where
  abbrev pub handle : Outcome A → (Error → Exec S A) → Exec S A
  handle (returned a) h s = (returned a, s)
  handle (raised e) h s = h e s

  -- `try: m` with a handler that sees each exception, and may raise it again.
  unfoldable pub catch : Exec S A → (Error → Exec S A) → Exec S A
  unfolding pure raise lift gets modify require
  catch m h s = let (r, s') = m s in handle r h s'

  -- What holds when a call has ended, by how it ended.
  abbrev pub Post : (A → S → Type 0) → (Error → S → Type 0) → Outcome A × S → Type 0
  Post Q E (returned a, s) = Q a s
  Post Q E (raised e, s) = E e s

  pub record Ensures (P : S → Type 0) (Q : A → S → Type 0) (E : Error → S → Type 0) (m : Exec S A)
      : Type 0 where
    pub at : (s : S) → P s → Post Q E (m s)

module _ {S A : Type 0} where
  pub Post-const : (P : S → Type 0) (o : Outcome A) (s : S) → P s → Post (λ _. P) (λ _. P) (o, s)
  Post-const P (returned a) s p = p
  Post-const P (raised e) s p = p

  pub Post-same : (P : S → Type 0) (r : Outcome A × S) → Post (λ _. P) (λ _. P) r → P r.1
  Post-same P (returned a, s) p = p
  Post-same P (raised e, s) p = p

  pub Post-cases :
      (Q : A → S → Type 0) (E : Error → S → Type 0) (o : Outcome A) (s : S)
      → ((a : A) → o ≡ returned a → Q a s)
      → ((e : Error) → o ≡ raised e → E e s)
      → Post Q E (o, s)
  Post-cases Q E (returned a) s hq he = hq a refl
  Post-cases Q E (raised e) s hq he = he e refl

  pub Post-returned :
      (Q : A → S → Type 0) (E : Error → S → Type 0) (r : Outcome A × S) (a : A)
      → r.0 ≡ returned a
      → Post Q E r
      → Q a r.1
  Post-returned Q E (returned b, s) a h p = subst (λ x. Q (value_or b x) s) h p
  Post-returned Q E (raised e, s) a h p = cc

  pub Post-anything : (r : Outcome A × S) → Post (λ _ _. Unit) (λ _ _. Unit) r
  Post-anything (returned a, s) = tt
  Post-anything (raised e, s) = tt

  pub Ensures-pure :
      (P : S → Type 0) (Q : A → S → Type 0) (E : Error → S → Type 0) (a : A)
      → ((s : S) → P s → Q a s)
      → Ensures P Q E (pure a)
  unfolding pure
  Ensures-pure P Q E a h = record { at = h }

  pub Ensures-raise :
      (P : S → Type 0) (Q : A → S → Type 0) (E : Error → S → Type 0) (e : Error)
      → ((s : S) → P s → E e s)
      → Ensures P Q E (raise e)
  unfolding raise
  Ensures-raise P Q E e h = record { at = h }

  pub Ensures-lift :
      (P : S → Type 0) (Q : A → S → Type 0) (E : Error → S → Type 0) (o : Outcome A)
      → ((s : S) → P s → Post Q E (o, s))
      → Ensures P Q E (lift o)
  unfolding lift
  Ensures-lift P Q E o h = record { at = h }

  pub Ensures-gets :
      (P : S → Type 0) (Q : A → S → Type 0) (E : Error → S → Type 0) (f : S → A)
      → ((s : S) → P s → Q (f s) s)
      → Ensures P Q E (gets f)
  unfolding gets
  Ensures-gets P Q E f h = record { at = h }

  Post-mono :
      (Q Q' : A → S → Type 0) (E E' : Error → S → Type 0)
      → ((a : A) (s : S) → Q a s → Q' a s)
      → ((e : Error) (s : S) → E e s → E' e s)
      → (r : Outcome A × S) → Post Q E r
      → Post Q' E' r
  Post-mono Q Q' E E' hq he (returned a, s) p = hq a s p
  Post-mono Q Q' E E' hq he (raised e, s) p = he e s p

  pub Ensures-mono :
      {P P' : S → Type 0} {Q Q' : A → S → Type 0} {E E' : Error → S → Type 0} {m : Exec S A}
      → ((s : S) → P' s → P s)
      → ((a : A) (s : S) → Q a s → Q' a s)
      → ((e : Error) (s : S) → E e s → E' e s)
      → Ensures P Q E m
      → Ensures P' Q' E' m
  Ensures-mono {P} {P'} {Q} {Q'} {E} {E'} {m} hp hq he k = record {
    at = λ s p. Post-mono Q Q' E E' hq he (m s) (k.at s (hp s p));
  }

  pub Ensures-from :
      {P P' : S → Type 0} {Q : A → S → Type 0} {E : Error → S → Type 0} {m : Exec S A}
      → ((s : S) → P' s → P s)
      → Ensures P Q E m
      → Ensures P' Q E m
  Ensures-from hp k = record { at = λ s p. k.at s (hp s p) }

  -- A fact of the precondition that is not about the state.
  pub Ensures-given :
      {P : S → Type 0} {C : Type 0} {Q : A → S → Type 0} {E : Error → S → Type 0} {m : Exec S A}
      → (C → Ensures P Q E m)
      → Ensures (λ s. P s × C) Q E m
  Ensures-given k = record { at = λ s p. (k p.1).at s p.0 }

  -- A value that only the proof knows.
  pub Ensures-ghost :
      {G : Type 0} {P : G → S → Type 0} {Q : A → S → Type 0} {E : Error → S → Type 0} {m : Exec S A}
      → ((g : G) → Ensures (P g) Q E m)
      → Ensures (λ s. (g : G) × P g s) Q E m
  Ensures-ghost k = record { at = λ s p. (k p.0).at s p.1 }

module _ {S : Type 0} where
  pub Ensures-require :
      (P : S → Type 0) (E : Error → S → Type 0) (b : Bool) (e : Error)
      → ((s : S) → P s → b ≡ false → E e s)
      → Ensures P (λ _ s. P s × (b ≡ true)) E (require b e)
  unfolding require
  Ensures-require P E true e h = record { at = λ s p. (p, refl) }
  Ensures-require P E false e h = record { at = λ s p. h s p refl }

  pub Ensures-modify :
      (P : S → Type 0) (Q : Unit → S → Type 0) (E : Error → S → Type 0) (f : S → S)
      → ((s : S) → P s → Q tt (f s))
      → Ensures P Q E (modify f)
  unfolding modify
  Ensures-modify P Q E f h = record { at = h }

module _ {S A B : Type 0} where
  continue-Post :
      (Q : A → S → Type 0) (R : B → S → Type 0) (E : Error → S → Type 0) (f : A → Exec S B)
      → ((a : A) → Ensures (Q a) R E (f a))
      → (r : Outcome A × S) → Post Q E r
      → Post R E (continue r.0 f r.1)
  continue-Post Q R E f k (returned a, s) p = (k a).at s p
  continue-Post Q R E f k (raised e, s) p = p

  pub Ensures-bind :
      {P : S → Type 0} {Q : A → S → Type 0} {R : B → S → Type 0} {E : Error → S → Type 0}
      {m : Exec S A} {f : A → Exec S B}
      → Ensures P Q E m
      → ((a : A) → Ensures (Q a) R E (f a))
      → Ensures P R E (m >>= f)
  unfolding ◌>>=◌
  Ensures-bind {P} {Q} {R} {E} {m} {f} h k = record {
    at = λ s p. continue-Post Q R E f k (m s) (h.at s p);
  }

module _ {S A : Type 0} where
  handle-Post :
      (Q : A → S → Type 0) (E F : Error → S → Type 0) (f : Error → Exec S A)
      → ((e : Error) → Ensures (E e) Q F (f e))
      → (r : Outcome A × S) → Post Q E r
      → Post Q F (handle r.0 f r.1)
  handle-Post Q E F f k (returned a, s) p = p
  handle-Post Q E F f k (raised e, s) p = (k e).at s p

  pub Ensures-catch :
      {P : S → Type 0} {Q : A → S → Type 0} {E F : Error → S → Type 0} {m : Exec S A}
      {f : Error → Exec S A}
      → Ensures P Q E m
      → ((e : Error) → Ensures (E e) Q F (f e))
      → Ensures P Q F (catch m f)
  unfolding catch
  Ensures-catch {P} {Q} {E} {F} {m} {f} h k = record {
    at = λ s p. handle-Post Q E F f k (m s) (h.at s p);
  }

module _ {S A : Type 0} where
  -- An `if`: each branch knows its test.
  pub Ensures-if :
      {P : S → Type 0} {Q : A → S → Type 0} {E : Error → S → Type 0} {m k : Exec S A} (b : Bool)
      → (b ≡ true → Ensures P Q E m)
      → (b ≡ false → Ensures P Q E k)
      → Ensures P Q E (if b then m else k)
  Ensures-if true h g = h refl
  Ensures-if false h g = g refl
