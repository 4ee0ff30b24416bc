-- ===== src/Protection/Delivery/Rationed.antt =====
-- How often a transition is sent under a contract with a limit.
use homelab_server_configs.Prelude.{
  ℕ, suc, ◌≤◌, ◌<◌, true, false, not, Option, none, some, List, [], ◌∷◌, ◌≡◌, refl, ap, sym, ◌∙◌,
  arith, leb, ltb,
}
use homelab_server_configs.Prelude.Exec.{
  Error, Outcome, returned, Exec, lift, pure, Post-same, Ensures, Ensures-pure, Ensures-mono,
  Ensures-if, Ensures-given, Ensures-from,
}
use homelab_server_configs.Prelude.Exec.Chain.{◌>>=◌, ◌>>◌}
use mathlib.Core.Path.{subst}
use homelab_server_configs.Protection.Window.{or_zero}
use homelab_server_configs.Protection.Delivery.{
  Event, Number, whole, other_value, Previous, Payload, Contract, bounded, policy_of, Host, Entry,
  stored, sent, Memory, Node, fields, count, required, settled, is_settled, stored_in, assigned,
  payload_for, look, change, write, deliver, update, attempt, retry_pending, offer, load,
  notify_locked, notify, mark_exhausted, taken, offered,
}
use homelab_server_configs.Protection.Delivery.Rules.{
  On, Ensures-look, Ensures-change, Ensures-try_call, Ensures-known, Ensures-write, Ensures-deliver,
  Ensures-update,
}

abbrev unless_clear : Option Payload → ℕ → ℕ
unless_clear none n = 0
unless_clear (some p) n = n

-- The messages sent since a record without a pending transition was stored.
abbrev pub sends_since : List Entry → ℕ
sends_since [] = 0
sends_since (sent p o ∷ es) = suc (sends_since es)
sends_since (stored r ∷ es) = unless_clear r.pending (sends_since es)

-- At no moment were there more of them than `maximum`.
abbrev pub Rationed : ℕ → List Entry → Type 0
Rationed maximum [] = Unit
Rationed maximum (e ∷ es) = (sends_since (e ∷ es) ≤ maximum) × Rationed maximum es

abbrev pub number_of : Option Number → ℕ
number_of none = 0
number_of (some (whole n)) = n
number_of (some other_value) = 0

-- The attempts that a file has on record.
abbrev pub attempts_of : Option Previous → ℕ
attempts_of file = number_of (fields file).attempts

module _ (maximum : ℕ) where
  -- What holds between two calls: the file has each send on record.
  abbrev pub Counted : Memory → Type 0
  Counted m =
      (sends_since m.log ≤ attempts_of m.file)
      × (sends_since m.log ≤ maximum)
      × Rationed maximum m.log

  abbrev Synced : Memory → Type 0
  Synced m = (sends_since m.log ≤ attempts_of m.previous) × Counted m

  -- One more send is on record already.
  abbrev Reserved : Memory → Type 0
  Reserved m =
      (suc (sends_since m.log) ≤ attempts_of m.previous)
      × (suc (sends_since m.log) ≤ attempts_of m.file)
      × (suc (sends_since m.log) ≤ maximum)
      × Rationed maximum m.log

  unless_clear-fewer : (p : Option Payload) (n : ℕ) → unless_clear p n ≤ n
  unless_clear-fewer none n = omega arith
  unless_clear-fewer (some p) n = omega arith

  stored-Counted :
      (r : Previous) (m : Memory)
      → sends_since m.log ≤ attempts_of (some r)
      → sends_since m.log ≤ maximum
      → Rationed maximum m.log
      → Counted (stored_in r m)
  stored-Counted r m a b c =
      let fewer = unless_clear-fewer r.pending (sends_since m.log) in
      (omega arith, omega arith, (omega arith, c))

  cleared-Counted :
      (r : Previous) (m : Memory)
      → r.pending ≡ none
      → Rationed maximum m.log
      → Counted (stored_in r m)
  cleared-Counted r m h c =
      let zeroed : unless_clear r.pending (sends_since m.log) ≡ 0 =
        ap (λ p. unless_clear p (sends_since m.log)) h in
      (omega arith, omega arith, (omega arith, c))

  count-number : (a : Option Number) (n : ℕ) → count a ≡ returned n → number_of a ≡ n
  count-number none n h = cc
  count-number (some (whole k)) n h = cc
  count-number (some other_value) n h = cc

  module _ (host : Host) where
    abbrev N : Type 0
    N = Node host.State

    abbrev E : Error → N → Type 0
    E _ = On Counted

    abbrev Kept : {A : Type 0} → Exec N A → Type 0
    Kept m = Ensures (On Synced) (λ _. On Synced) E m

    pure-Kept : {A : Type 0} (a : A) → Kept (pure a)
    pure-Kept a = Ensures-pure (On Synced) _ E a (λ n p. p)

    look-Kept : {A : Type 0} (f : Memory → A) → Kept (look f)
    look-Kept f = Ensures-mono (λ n p. p) (λ a n p. p.0) (λ e n p. p) (Ensures-look Synced E f)

    -- A change of `previous` that keeps the attempts, or takes more of them.
    update-Kept :
        (f : Previous → Previous)
        → ((r : Previous) → number_of r.attempts ≤ number_of (f r).attempts)
        → Kept (update host f)
    update-Kept f more =
        Ensures-update host Synced Synced Counted f
          (λ m p.
            let kept = more (fields m.previous) in
            let c =
              stored-Counted (f (fields m.previous)) (assigned f m) (omega arith) p.1.1 p.1.2 in
            let fewer = unless_clear-fewer (f (fields m.previous)).pending (sends_since m.log) in
            (omega arith, c))
          (λ m p.
            let kept = more (fields m.previous) in
            (p.1, stored-Counted (f (fields m.previous)) (assigned f m) (omega arith) p.1.1 p.1.2))

    clear-Kept : (r : Previous) → r.pending ≡ none → Kept (update host (λ _. r))
    clear-Kept r h =
        Ensures-update host Synced Synced Counted (λ _. r)
          (λ m p. let c = cleared-Counted r (assigned (λ _. r) m) h p.1.2 in (c.0, c))
          (λ m p. (p.1, cleared-Counted r (assigned (λ _. r) m) h p.1.2))

    -- The attempt is on record before the message is sent.
    reserve-Kept :
        (f : Previous → Previous) (n : ℕ)
        → n < maximum
        → ((r : Previous) → (f r).attempts ≡ some (whole (suc n)))
        → Ensures
            (On (λ m. Synced m × (attempts_of m.previous ≡ n)))
            (λ _. On Reserved)
            E
            (update host f)
    reserve-Kept f n few known =
        Ensures-update host _ Reserved Counted f
          (λ m p.
            let taken : attempts_of (some (f (fields m.previous))) ≡ suc n =
              ap number_of (known (fields m.previous)) in
            let fewer = unless_clear-fewer (f (fields m.previous)).pending (sends_since m.log) in
            (omega arith, omega arith, omega arith, (omega arith, p.0.1.2)))
          (λ m p.
            let taken : attempts_of (some (f (fields m.previous))) ≡ suc n =
              ap number_of (known (fields m.previous)) in
            (
              p.0.1,
              stored-Counted (f (fields m.previous)) (assigned f m) (omega arith) p.0.1.1 p.0.1.2,
            ))

    deliver-Kept : (p : Payload) → Ensures (On Reserved) (λ _. On Synced) E (deliver host p)
    deliver-Kept p =
        Ensures-deliver host Reserved Counted (λ _. Synced) p
          (λ m h b. (h.0, (h.1, h.2, (h.2, h.3)))) (λ m h e. (h.1, h.2, (h.2, h.3)))

    known-Kept : {A : Type 0} (o : Outcome A) → Kept (lift o)
    known-Kept o =
        Ensures-mono (λ n p. p) (λ a n p. p.0) (λ e n p. p)
          (Ensures-known (On Synced) E o (λ n p _. p.1))

    -- The last record of a call is not kept in `previous`.
    write-Counted :
        (r : Previous) → r.pending ≡ none → Ensures (On Synced) (λ _. On Counted) E (write host r)
    write-Counted r h =
        Ensures-write host Synced Counted Counted r (λ m p. cleared-Counted r m h p.1.2)
          (λ m p. (p.1, cleared-Counted r m h p.1.2))

    loosen : {A : Type 0} {m : Exec N A} → Kept m → Ensures (On Synced) (λ _. On Counted) E m
    loosen k = Ensures-mono (λ s p. p) (λ _ s p. p.1) (λ _ s p. p) k

    abbrev Told : ℕ → Memory → Type 0
    Told n m = Synced m × (attempts_of m.previous ≡ n)

    untold :
        {A : Type 0} {m : Exec N A} → (n : ℕ) → Kept m → Ensures (On (Told n)) (λ _. On Synced) E m
    untold n k = Ensures-from (λ s p. p.0) k

    attempt-Kept :
        (seconds now : ℕ) (p : Payload) → Kept (attempt host (bounded maximum seconds) now p)
    unfolding attempt
    attempt-Kept seconds now p = do
      a ← Ensures-look Synced E (λ m. (fields m.previous).attempts)
      n ← Ensures-known _ E (count a) (λ s h e. h.0.1)
      Ensures-from (λ s h. (h.0.0, ap number_of (sym h.0.1) ∙ count-number a n h.1))
          (Ensures-if (leb maximum n)
            (λ _. untold n (do update-Kept mark_exhausted (λ r. omega arith); pure-Kept false))
            (λ few. do
              due ←
                  Ensures-mono (λ s h. h) (λ a s h. h.0) (λ _ s h. h)
                    (Ensures-look (Told n) E (λ m. or_zero (fields m.previous).next_attempt_at))
              Ensures-if (ltb now due) (λ _. untold n (pure-Kept false))
                  (λ _. do
                    reserve-Kept (taken maximum seconds now n) n (ground arith) (λ r. refl)
                    deliver-Kept p)))

    retry_pending-Kept : (seconds now : ℕ) → Kept (retry_pending host (bounded maximum seconds) now)
    unfolding retry_pending
    retry_pending-Kept seconds now = look-Kept (λ m. (fields m.previous).pending) >>= elim [
      | none ↦ pure-Kept true
      | some p ↦ do
        accepted ← attempt-Kept seconds now p
        Ensures-if (not accepted) (λ _. pure-Kept false)
            (λ _. do
              sequence ← look-Kept (λ m. (fields m.previous).sequence)
              n ← known-Kept (required sequence)
              clear-Kept (settled p.event n) refl
              pure-Kept true)
    ]

    offer-Kept :
        (seconds : ℕ) (event : Event) (now : ℕ)
        → Ensures (On Synced) (λ _. On Counted) E (offer host (bounded maximum seconds) event now)
    unfolding offer
    offer-Kept seconds event now = do
      last ← look-Kept (λ m. or_zero (fields m.previous).sequence)
      prior ← look-Kept (λ m. (fields m.previous).acknowledged)
      update-Kept (offered (suc last) (payload_for host event (suc last) now prior) now)
          (λ r. omega arith)
      accepted ← attempt-Kept seconds now _
      Ensures-if (not accepted) (λ _. loosen (pure-Kept false))
          (λ _. do
            write-Counted (settled event (suc last)) refl
            Ensures-pure (On Counted) _ E true (λ n p. p))

    load-Kept : Ensures (On Counted) (λ _. On Synced) E (load host)
    unfolding load
    load-Kept =
        Ensures-mono (λ s p. p) (λ f s p. p.0) (λ e s p. p) (Ensures-look Counted E (λ m. m.file))
        >>= elim [
          | none ↦ do Ensures-pure (On Counted) (λ _. On Counted) E tt (λ n p. p); copy
          | some r ↦ do Ensures-try_call Counted host.file_readable; copy
        ]
      where
        copy :
            Ensures (On Counted) (λ _. On Synced) E (change (λ m. record m { previous = m.file }))
        copy = Ensures-change Counted Synced E _ (λ m p. (p.0, p))

    notify_locked-Counted :
        (seconds : ℕ) (event : Event) (now : ℕ)
        → Ensures
            (On Counted)
            (λ _. On Counted)
            E
            (notify_locked host (bounded maximum seconds) event now)
    unfolding notify_locked
    notify_locked-Counted seconds event now = do
      Ensures-try_call Counted host.lock
      load-Kept
      clear ← retry_pending-Kept seconds now
      Ensures-if (not clear) (λ _. loosen (pure-Kept false))
          (λ _. do
            done ← look-Kept (λ m. is_settled event m.previous)
            Ensures-if done (λ _. loosen (pure-Kept true)) (λ _. offer-Kept seconds event now))

    notify-Counted :
        (contract : Contract) (seconds : ℕ) (event : Event) (now : ℕ)
        → policy_of contract.maximum_attempts contract.retry_interval_seconds
          ≡ returned (bounded maximum seconds)
        → Ensures (On Counted) (λ _. On Counted) E (notify host contract event now)
    unfolding notify
    notify-Counted contract seconds event now h = do
      Ensures-try_call Counted host.directory_protected
      policy ← Ensures-known (On Counted) E _ (λ n p _. p)
      Ensures-given (λ known.
          let same : bounded maximum seconds ≡ policy = cc in
          subst (λ x. Ensures (On Counted) (λ _. On Counted) E (notify_locked host x event now))
            same (notify_locked-Counted seconds event now))

module _ (host : Host) (contract : Contract) where
  -- Calls of `notify`, each with its event and its time, whatever each of them answers or raises.
  abbrev pub deliveries : List (Event × ℕ) → Node host.State → Node host.State
  deliveries [] n = n
  deliveries ((event, now) ∷ rest) n = deliveries rest (notify host contract event now n).1

  deliveries-Counted :
      (maximum seconds : ℕ)
      → policy_of contract.maximum_attempts contract.retry_interval_seconds
        ≡ returned (bounded maximum seconds)
      → (calls : List (Event × ℕ)) (n : Node host.State) → Counted maximum n.memory
      → Counted maximum (deliveries calls n).memory
  deliveries-Counted maximum seconds h [] n p = p
  deliveries-Counted maximum seconds h ((event, now) ∷ rest) n p =
      deliveries-Counted maximum seconds h rest (notify host contract event now n).1 (
        Post-same (On (Counted maximum)) (notify host contract event now n)
          ((notify-Counted maximum host contract seconds event now h).at n p))

  -- Under a contract with a limit, whatever calls of `notify` are made one after the other, and
  -- however each of them ends, at no moment were more messages sent since the newest stored record
  -- without a pending transition than the limit says.
  pub notify-Rationed :
      (maximum seconds : ℕ) (calls : List (Event × ℕ)) (n : Node host.State)
      → policy_of contract.maximum_attempts contract.retry_interval_seconds
        ≡ returned (bounded maximum seconds)
      → n.memory.log ≡ []
      → Rationed maximum (deliveries calls n).memory.log
  notify-Rationed maximum seconds calls n h empty =
      (deliveries-Counted maximum seconds h calls n (rw empty (omega arith, omega arith, tt))).2
