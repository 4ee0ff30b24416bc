-- ===== src/Protection/Delivery/Rules.antt =====
-- What each step of `notify` does to the memory, as rules about predicates on the memory.
use homelab_server_configs.Prelude.{Bool, ◌≡◌, refl}
use homelab_server_configs.Prelude.Exec.{
  Error, Outcome, returned, raised, lift, Post, Post-const, Post-cases, Ensures, Ensures-gets,
  Ensures-modify, Ensures-lift, Ensures-mono, ◌>>=◌,
}
use homelab_server_configs.Protection.Delivery.{
  Previous, Payload, Saved, replaced, untouched, replaced_late, Host, Memory, Node, fields,
  stored_in, sent_in, assigned, saved, look, change, try_call, write, deliver, update,
}

-- `P` holds of the memory.
abbrev pub On : {W : Type 0} → (Memory → Type 0) → Node W → Type 0
On P n = P n.memory

module _ {W : Type 0} where
  pub Ensures-look :
      {A : Type 0} (P : Memory → Type 0) (E : Error → Node W → Type 0) (f : Memory → A)
      → Ensures (On P) (λ a n. P n.memory × (a ≡ f n.memory)) E (look f)
  unfolding look
  Ensures-look P E f = Ensures-gets (On P) _ E _ (λ n p. (p, refl))

  pub look-Kept :
      {A : Type 0} {E : Error → Node W → Type 0} (P : Memory → Type 0) (f : Memory → A)
      → Ensures (On P) (λ _. On P) E (look f)
  look-Kept {A} {E} P f = Ensures-mono (λ n p. p) (λ a n p. p.0) (λ e n p. p) (Ensures-look P E f)

  pub Ensures-change :
      (P Q : Memory → Type 0) (E : Error → Node W → Type 0) (f : Memory → Memory)
      → ((m : Memory) → P m → Q (f m))
      → Ensures (On P) (λ _. On Q) E (change {W = W} f)
  unfolding change
  Ensures-change P Q E f h = Ensures-modify (On P) (λ _. On Q) E _ (λ n p. h n.memory p)

  pub Ensures-try_call :
      {A : Type 0} (P : Memory → Type 0) (f : W → Outcome A × W)
      → Ensures (On P) (λ _. On P) (λ _. On P) (try_call f)
  unfolding try_call
  Ensures-try_call P f = record {
    at = λ n p. Post-const (On P) (f n.world).0 (record n { world = (f n.world).1 }) p;
  }

  -- A result that is given decides how the rest goes on.
  pub Ensures-known :
      {A : Type 0} (P : Node W → Type 0) (E : Error → Node W → Type 0) (o : Outcome A)
      → ((n : Node W) → P n → (e : Error) → E e n)
      → Ensures P (λ a n. P n × (o ≡ returned a)) E (lift o)
  Ensures-known P E o h =
      Ensures-lift P _ E o (λ n p. Post-cases _ E o n (λ a e. (p, e)) (λ e _. h n p e))

  pub known-Kept :
      {A : Type 0} {E : Memory → Type 0} (P : Memory → Type 0)
      → ((m : Memory) → P m → E m)
      → (o : Outcome A) → Ensures {S = Node W} (On P) (λ _. On P) (λ _. On E) (lift o)
  known-Kept {A} {E} P h o =
      Ensures-mono (λ n p. p) (λ a n p. p.0) (λ e n p. p)
        (Ensures-known (On P) (λ _. On E) o (λ n p _. h n.memory p))

module _ (host : Host) where
  abbrev N : Type 0
  N = Node host.State

  saved-Post :
      (Q : Memory → Type 0) (E : Error → Memory → Type 0) (r : Previous) (o : Saved) (n : N)
      → Q (stored_in r n.memory)
      → ((e : Error) → E e n.memory)
      → ((e : Error) → E e (stored_in r n.memory))
      → Post (λ _. On Q) (λ e. On (E e)) (saved o r n)
  saved-Post Q E r replaced n q before late = q
  saved-Post Q E r (untouched e) n q before late = before e
  saved-Post Q E r (replaced_late e) n q before late = late e

  pub Ensures-write :
      (P Q E : Memory → Type 0) (r : Previous)
      → ((m : Memory) → P m → Q (stored_in r m))
      → ((m : Memory) → P m → E m × E (stored_in r m))
      → Ensures (On P) (λ _. On Q) (λ _. On E) (write host r)
  unfolding write
  Ensures-write P Q E r q e = record {
    at = λ n p.
        let (o, w) = host.save r n.world in
        saved-Post Q (λ _. E) r o (record n { world = w }) (q n.memory p) (λ _. (e n.memory p).0)
          (λ _. (e n.memory p).1);
  }

  pub Ensures-deliver :
      (P E : Memory → Type 0) (Q : Bool → Memory → Type 0) (p : Payload)
      → ((m : Memory) → P m → (b : Bool) → Q b (sent_in p (returned b) m))
      → ((m : Memory) → P m → (e : Error) → E (sent_in p (raised e) m))
      → Ensures (On P) (λ b. On (Q b)) (λ _. On E) (deliver host p)
  unfolding deliver
  Ensures-deliver P E Q p q e = record {
    at = λ n h. let (o, w) = host.sender p n.world in delivered o n.memory w h;
  }
    where
      delivered :
          (o : Outcome Bool) (m : Memory) (w : host.State)
          → P m
          → Post {S = N}
              (λ b. On (Q b))
              (λ _. On E)
              (o, record { world = w; memory = sent_in p o m })
      delivered (returned b) m w h = q m h b
      delivered (raised x) m w h = e m h x

  -- A change of `previous` that is stored: what the caller shows is about the new memory, and about
  -- the memory in which only the variable has changed.
  pub Ensures-update :
      (P Q E : Memory → Type 0) (f : Previous → Previous)
      → ((m : Memory) → P m → Q (stored_in (f (fields m.previous)) (assigned f m)))
      → ((m : Memory)
          → P m
          → E (assigned f m) × E (stored_in (f (fields m.previous)) (assigned f m)))
      → Ensures (On P) (λ _. On Q) (λ _. On E) (update host f)
  unfolding update change look write ◌>>=◌
  Ensures-update P Q E f q e = record {
    at = λ n p.
        let r = f (fields n.memory.previous) in
        let (o, w) = host.save r n.world in
        saved-Post Q (λ _. E) r o (record { world = w; memory = assigned f n.memory })
          (q n.memory p) (λ _. (e n.memory p).0) (λ _. (e n.memory p).1);
  }
