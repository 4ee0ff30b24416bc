-- ===== src/Protection/Delivery/Delivered.antt =====
-- When a transition is delivered: the sender accepts, the file can be stored, and an attempt is due.
use mathlib.Core.Path.{subst}
use homelab_server_configs.Prelude.{
  ℕ, suc, ◌≤◌, ◌<◌, Bool, true, false, not, ◌&&◌, Option, none, some, ◌≡◌, refl, ap, sym, ◌∙◌,
  arith, leb, ltb, if◌then◌else◌,
}
use homelab_server_configs.Prelude.Exec
use homelab_server_configs.Prelude.Exec.{
  Error, Outcome, returned, raised, Exec, lift, pure, Post, Ensures, Ensures-pure, Ensures-mono,
  Ensures-if, Ensures-lift, Ensures-ghost, Ensures-given,
}
use homelab_server_configs.Prelude.Exec.Chain.{◌>>=◌, ◌>>◌}
use homelab_server_configs.Protection.Window.{or_zero}
use homelab_server_configs.Protection.Delivery.{
  Event, Previous, Payload, Number, whole, other_value, Contract, Policy, unbounded, bounded,
  policy_of, replaced, Host, Memory, Node, fields, count, required, settled, is_settled, stored_in,
  sent_in, assigned, payload_for, taken, offered, look, change, try_call, write, deliver, update,
  attempt, retry_pending, offer, load, notify_locked, notify,
}
use homelab_server_configs.Protection.Delivery.Rules.{On, Ensures-look, Ensures-change}

-- An attempt may be made at `now`.
abbrev pub Due : Policy → ℕ → Previous → Type 0
Due unbounded now r = Unit
Due (bounded maximum seconds) now r =
    (k : ℕ) × (count r.attempts ≡ returned k) × (k < maximum) × (or_zero r.next_attempt_at ≤ now)

abbrev IfPending : Option Payload → Option ℕ → Type 0
IfPending none sequence = Unit
IfPending (some p) sequence = (k : ℕ) × (sequence ≡ some k)

-- A record that this code wrote: a transition that waits has its number.
abbrev pub Numbered : Previous → Type 0
Numbered r = IfPending r.pending r.sequence

-- Every call that `notify` makes succeeds, and the sender accepts.
pub record Works (host : Host) : Type 0 where
  pub protects : (w : host.State) → (host.directory_protected w).0 ≡ returned tt
  pub locks : (w : host.State) → (host.lock w).0 ≡ returned tt
  pub reads : (w : host.State) → (host.file_readable w).0 ≡ returned tt
  pub saves : (r : Previous) (w : host.State) → (host.save r w).0 ≡ replaced
  pub accepts : (p : Payload) (w : host.State) → (host.sender p w).0 ≡ returned true

module _ (host : Host) (works : Works host) where
  abbrev N : Type 0
  N = Node host.State

  -- The call returns a result that `Q` describes; it does not raise.
  abbrev Returns : {A : Type 0} → (Memory → Type 0) → (A → Memory → Type 0) → Exec N A → Type 0
  Returns P Q m = Ensures (On P) (λ a. On (Q a)) (λ _ _. ⊥) m

  pure-Returns :
      {A : Type 0} (P : Memory → Type 0) (Q : A → Memory → Type 0) (a : A)
      → ((m : Memory) → P m → Q a m)
      → Returns P Q (pure a)
  pure-Returns P Q a h = Ensures-pure (On P) (λ a. On (Q a)) _ a (λ n. h n.memory)

  look-Returns :
      {A : Type 0} (P : Memory → Type 0) (f : Memory → A)
      → Returns P (λ a m. P m × (a ≡ f m)) (look f)
  look-Returns P f = Ensures-look P _ f

  call-Returns :
      {A : Type 0} (P : Memory → Type 0) (f : host.State → Outcome A × host.State) (a : A)
      → ((w : host.State) → (f w).0 ≡ returned a)
      → Returns P (λ b m. P m × (b ≡ a)) (try_call f)
  unfolding try_call
  call-Returns P f a h = record { at = λ n p. rw (h n.world) (p, refl) }

  update-Returns :
      (P Q : Memory → Type 0) (f : Previous → Previous)
      → ((m : Memory) → P m → Q (stored_in (f (fields m.previous)) (assigned f m)))
      → Returns P (λ _. Q) (update host f)
  unfolding update change look write Exec.◌>>=◌
  update-Returns P Q f h = record {
    at = λ n p. rw (works.saves (f (fields n.memory.previous)) n.world) (h n.memory p);
  }

  write-Returns : (P : Memory → Type 0) (r : Previous) → Returns P (λ _ _. Unit) (write host r)
  unfolding write
  write-Returns P r = record { at = λ n p. rw (works.saves r n.world) tt }

  deliver-Returns :
      (P : Memory → Type 0) (p : Payload)
      → ((m : Memory) → P m → P (sent_in p (returned true) m))
      → Returns P (λ b m. P m × (b ≡ true)) (deliver host p)
  unfolding deliver
  deliver-Returns P p h = record { at = λ n q. rw (works.accepts p n.world) (h n.memory q, refl) }

  -- A branch that is not reached.
  never :
      {A : Type 0} {P : Memory → Type 0} (Q : A → Memory → Type 0) {m : Exec N A}
      → ((x : Memory) → P x → ⊥)
      → Returns P Q m
  never Q h = record { at = λ n p. absurd (h n.memory p) }

  lift-Returns :
      {A : Type 0} (P : Memory → Type 0) (Q : A → Memory → Type 0) (o : Outcome A)
      → ((m : Memory) → P m → (a : A) × (o ≡ returned a) × Q a m)
      → Returns P Q (lift o)
  lift-Returns P Q (returned a) h =
      Ensures-lift (On P) (λ a. On (Q a)) _ (returned a)
        (λ n p.
          let (b, same, q) = h n.memory p in
          let agrees : b ≡ a = cc in subst (λ x. Q x n.memory) agrees q)
  lift-Returns P Q (raised e) h = never _ (λ m p. let (b, same, q) = h m p in absurd cc)

  abbrev Ready : ℕ → ℕ → ℕ → ℕ → Memory → Type 0
  Ready maximum now k n m =
      (n < maximum)
      × (or_zero (fields m.previous).next_attempt_at ≤ now)
      × ((fields m.previous).sequence ≡ some k)

  -- An attempt that is due is made and accepted; the number of the transition stays.
  attempt-Returns :
      (policy : Policy) (now : ℕ) (p : Payload) (k : ℕ)
      → Returns
          (λ m. Due policy now (fields m.previous) × ((fields m.previous).sequence ≡ some k))
          (λ b m. ((fields m.previous).sequence ≡ some k) × (b ≡ true))
          (attempt host policy now p)
  unfolding attempt
  attempt-Returns unbounded now p k =
      Ensures-mono (λ s h. h.1) (λ b s h. h) (λ e s h. h)
        (deliver-Returns (λ m. (fields m.previous).sequence ≡ some k) p (λ m h. h))
  attempt-Returns (bounded maximum seconds) now p k = do
    a ← look-Returns _ (λ m. (fields m.previous).attempts)
    n ←
        lift-Returns _ (Ready maximum now k) (count a)
          (λ m h. (h.0.0.0, ap count h.1 ∙ h.0.0.1, (h.0.0.2, h.0.0.3, h.0.1)))
    Ensures-if (leb maximum n) (λ over. never _ (λ m h. let few = h.0 in absurd (ground arith)))
        (λ _. do
          due ←
              look-Returns (Ready maximum now k n)
                (λ m. or_zero (fields m.previous).next_attempt_at)
          Ensures-if (ltb now due)
              (λ early.
                never _ (λ m h. let soon = h.0.1 in let same = h.1 in absurd (ground arith)))
              (λ _. do
                update-Returns _ (λ m. (fields m.previous).sequence ≡ some k)
                    (taken maximum seconds now n) (λ m h. h.0.2)
                deliver-Returns _ p (λ m h. h)))

  -- A new attempt may be made whenever nothing was attempted.
  abbrev Allowed : Policy → Type 0
  Allowed unbounded = Unit
  Allowed (bounded maximum seconds) = 1 ≤ maximum

  settled-Due :
      (policy : Policy) (now : ℕ) (event : Event) (k : ℕ)
      → Allowed policy
      → Due policy now (settled event k)
  settled-Due unbounded now event k h = tt
  settled-Due (bounded maximum seconds) now event k h = (0, refl, omega arith, omega arith)

  offered-Due :
      (policy : Policy) (now : ℕ) (r : Previous) (k : ℕ) (p : Payload)
      → Due policy now r
      → Due policy now (offered k p now r)
  offered-Due unbounded now r k p h = tt
  offered-Due (bounded maximum seconds) now r k p h = h

  if-returned :
      (b : Bool) (x y : Policy) (e : Error)
      → (if b then returned x else raised e) ≡ returned y
      → (b ≡ true) × (x ≡ y)
  if-returned true x y e h = (refl, cc)
  if-returned false x y e h = absurd cc

  policy_of-Allowed :
      (a b : Option Number) (policy : Policy) → policy_of a b ≡ returned policy → Allowed policy
  unfolding policy_of
  policy_of-Allowed none none policy h = let same : unbounded ≡ policy = cc in subst Allowed same tt
  policy_of-Allowed (some (whole m)) (some (whole s)) policy h =
      let (fits, same) =
        if-returned (leb 1 m && leb m 8 && leb 1 s && leb s 86400) (bounded m s) policy _ h in
      subst Allowed same (ground (arith, fits))
  policy_of-Allowed none (some b) policy h = absurd cc
  policy_of-Allowed (some (whole m)) none policy h = absurd cc
  policy_of-Allowed (some other_value) b policy h = absurd cc
  policy_of-Allowed (some (whole m)) (some other_value) policy h = absurd cc

  abbrev Free : Policy → ℕ → Memory → Type 0
  Free policy now m = Due policy now (fields m.previous)

  retry_pending-Returns :
      (policy : Policy) (now : ℕ)
      → Allowed policy
      → Returns
          (λ m. Due policy now (fields m.previous) × Numbered (fields m.previous))
          (λ b m. Free policy now m × (b ≡ true))
          (retry_pending host policy now)
  unfolding retry_pending
  retry_pending-Returns policy now allowed =
      look-Returns _ (λ m. (fields m.previous).pending) >>= elim [
        | none ↦ pure-Returns _ _ true (λ m h. (h.0.0, refl))
        | some p ↦
            Ensures-mono
              (λ s h.
                let (k, known) =
                  subst (λ x. IfPending x (fields s.memory.previous).sequence) (sym h.1) h.0.1 in
                (k, (h.0.0, known)))
              (λ b s h. h) (λ e s h. h)
              (Ensures-ghost (λ k. do
                accepted ← attempt-Returns policy now p k
                Ensures-if (not accepted)
                    (λ no. never _ (λ m h. let yes = h.1 in absurd (ground arith)))
                    (λ _. do
                      sequence ←
                          look-Returns
                            (λ m. ((fields m.previous).sequence ≡ some k) × (accepted ≡ true))
                            (λ m. (fields m.previous).sequence)
                      n ←
                          lift-Returns _ (λ _ _. Unit) (required sequence)
                            (λ m h. (k, ap required (h.1 ∙ h.0.0), tt))
                      update-Returns _ (Free policy now) (λ _. settled p.event n)
                          (λ m h. settled-Due policy now p.event n allowed)
                      pure-Returns _ _ true (λ m h. (h, refl)))))
      ]

  offer-Returns :
      (policy : Policy) (event : Event) (now : ℕ)
      → Returns (Free policy now) (λ b _. b ≡ true) (offer host policy event now)
  unfolding offer
  offer-Returns policy event now = do
    last ← look-Returns _ (λ m. or_zero (fields m.previous).sequence)
    prior ← look-Returns _ (λ m. (fields m.previous).acknowledged)
    let p = payload_for host event (suc last) now prior in
        do
          update-Returns _
              (λ m.
                Due policy now (fields m.previous)
                × ((fields m.previous).sequence ≡ some (suc last)))
              (offered (suc last) p now)
              (λ m h. (offered-Due policy now (fields m.previous) (suc last) p h.0.0, refl))
          accepted ← attempt-Returns policy now p (suc last)
          Ensures-if (not accepted) (λ no. never _ (λ m h. let yes = h.1 in absurd (ground arith)))
              (λ _. do write-Returns _ _; pure-Returns _ _ true (λ m h. refl))

  load-Returns :
      (P : Option Previous → Type 0) → Returns (λ m. P m.file) (λ _ m. P m.previous) (load host)
  unfolding load
  load-Returns P = look-Returns (λ m. P m.file) (λ m. m.file) >>= elim [
    | none ↦ do pure-Returns _ (λ _ m. P m.file) tt (λ m h. h.0); copy
    | some r ↦ do
      Ensures-mono (λ s h. h.0) (λ _ s h. h.0) (λ e s h. h)
          (call-Returns (λ m. P m.file) host.file_readable tt works.reads)
      copy
  ]
    where
      copy :
          Returns
            (λ m. P m.file)
            (λ _ m. P m.previous)
            (change (λ m. record m { previous = m.file }))
      copy = Ensures-change (λ m. P m.file) (λ m. P m.previous) _ _ (λ m h. h)

  notify_locked-Returns :
      (policy : Policy) (event : Event) (now : ℕ)
      → Allowed policy
      → Returns
          (λ m. Due policy now (fields m.file) × Numbered (fields m.file))
          (λ b _. b ≡ true)
          (notify_locked host policy event now)
  unfolding notify_locked
  notify_locked-Returns policy event now allowed = do
    Ensures-mono (λ s h. h) (λ _ s h. h.0) (λ e s h. h) (call-Returns _ host.lock tt works.locks)
    load-Returns (λ f. Due policy now (fields f) × Numbered (fields f))
    clear ← retry_pending-Returns policy now allowed
    Ensures-if (not clear) (λ no. never _ (λ m h. let yes = h.1 in absurd (ground arith)))
        (λ _. do
          done ← look-Returns _ (λ m. is_settled event m.previous)
          Ensures-if done (λ _. pure-Returns _ _ true (λ m h. refl))
              (λ _.
                Ensures-mono (λ s h. h.0.0) (λ b s h. h) (λ e s h. h)
                  (offer-Returns policy event now)))

  Post-true : (r : Outcome Bool × N) → Post (λ b _. b ≡ true) (λ _ _. ⊥) r → r.0 ≡ returned true
  Post-true (returned b, s) h = ap returned h
  Post-true (raised e, s) h = absurd h

  -- When every call succeeds, the sender accepts and an attempt is due, one call of `notify`
  -- returns true: what waited and the transition are delivered, or it was delivered before.
  pub notify-delivers :
      (contract : Contract) (policy : Policy) (event : Event) (now : ℕ) (n : N)
      → policy_of contract.maximum_attempts contract.retry_interval_seconds ≡ returned policy
      → Due policy now (fields n.memory.file)
      → Numbered (fields n.memory.file)
      → (notify host contract event now n).0 ≡ returned true
  unfolding notify
  notify-delivers contract policy event now n known due numbered =
      Post-true (notify host contract event now n) (
        (do
          Ensures-mono (λ s h. h) (λ _ s h. h.0) (λ e s h. h)
              (call-Returns (λ m. Due policy now (fields m.file) × Numbered (fields m.file))
                host.directory_protected tt works.protects)
          x ←
              lift-Returns _
                (λ x m. (Due policy now (fields m.file) × Numbered (fields m.file)) × (x ≡ policy))
                (policy_of contract.maximum_attempts contract.retry_interval_seconds)
                (λ m h. (policy, known, (h, refl)))
          Ensures-given (λ same.
              subst
                (λ y.
                  Returns (λ m. Due policy now (fields m.file) × Numbered (fields m.file))
                    (λ b _. b ≡ true) (notify_locked host y event now))
                (sym same)
                (notify_locked-Returns policy event now (
                  policy_of-Allowed contract.maximum_attempts contract.retry_interval_seconds policy
                    known)))).at
          n (due, numbered))
