-- ===== src/Prelude/Exec/Chain.antt =====
-- The rule for two steps as an operator, so that the proof for a `do` block is a `do` block.
use homelab_server_configs.Prelude.Exec
use homelab_server_configs.Prelude.Exec.{Error, Exec, Ensures, Ensures-bind}

module _ {S A B : Type 0} where
  infixl 10 ◌>>=◌ ◌>>◌
  abbrev pub ◌>>=◌ :
      {P : S → Type 0} {Q : A → S → Type 0} {R : B → S → Type 0} {E : Error → S → Type 0}
      {m : Exec S A} {f : A → Exec S B}
      → Ensures P Q E m
      → ((a : A) → Ensures (Q a) R E (f a))
      → Ensures P R E (Exec.◌>>=◌ m f)
  h >>= k = Ensures-bind h k

  abbrev pub ◌>>◌ :
      {P Q : S → Type 0} {R : B → S → Type 0} {E : Error → S → Type 0} {m : Exec S A} {n : Exec S B}
      → Ensures P (λ _. Q) E m
      → Ensures Q R E n
      → Ensures P R E (Exec.◌>>◌ m n)
  h >> k = Ensures-bind h (λ _. k)
