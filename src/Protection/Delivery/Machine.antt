-- ===== src/Protection/Delivery/Machine.antt =====
-- What `notify` does to the file, as a machine that offers a transition and acknowledges it.
use mathlib.Core.Path.{subst}
use homelab_server_configs.Prelude.{
  ℕ, suc, Bool, true, false, not, Option, none, some, List, [], ◌∷◌, ◌≡◌, refl, ap, sym, ◌∙◌, ◌⊎◌,
  inl, inr, arith, leb, ltb,
}
use homelab_server_configs.Prelude.Exec.{
  Error, returned, Exec, pure, Post-same, Post-returned, Ensures, Ensures-pure, Ensures-mono,
  Ensures-if, Ensures-ghost, Ensures-from,
}
use homelab_server_configs.Prelude.Exec.Chain.{◌>>=◌, ◌>>◌}
use homelab_server_configs.Protection.Window.{or_zero}
use homelab_server_configs.Protection.Delivery.{
  Event, failure, recovery, missed, Previous, Payload, Contract, Policy, unbounded, bounded, Host,
  Entry, stored, sent, Memory, Node, fields, count, required, settled, is_settled, acknowledges,
  event_eq, stored_in, assigned, payload_for, mark_exhausted, taken, offered, change, deliver,
  update, attempt, retry_pending, offer, load, notify_locked, notify,
}
use homelab_server_configs.Protection.Delivery.Rules.{
  On, look-Kept, known-Kept, Ensures-look, Ensures-change, Ensures-try_call, Ensures-known,
  Ensures-write, Ensures-deliver, Ensures-update,
}

-- What the file says: the transition that was acknowledged last, the one that waits, and how many
-- there were.
pub record View : Type 0 where
  pub acknowledged : Option Event
  pub waiting : Option Event
  pub sequence : ℕ

abbrev event_of : Option Payload → Option Event
event_of none = none
event_of (some p) = some p.event

abbrev pub view : Option Previous → View
view file = record {
  acknowledged = (fields file).acknowledged;
  waiting = event_of (fields file).pending;
  sequence = or_zero (fields file).sequence;
}

-- A transition is offered when none waits and it is not the one acknowledged last; only the
-- transition that waits is acknowledged.
pub data Step : View → View → Type 0 where
  offers :
      (e : Event) (v : View)
      → v.waiting ≡ none
      → acknowledges e v.acknowledged ≡ false
      → Step v
          (record { acknowledged = v.acknowledged; waiting = some e; sequence = suc v.sequence })
  confirms :
      (e : Event) (v : View)
      → v.waiting ≡ some e
      → Step v (record { acknowledged = some e; waiting = none; sequence = v.sequence })

pub data Reach (v : View) : View → Type 0 where
  here : Reach v v
  next : {w x : View} → Reach v w → Step w x → Reach v x

-- A record without a pending transition follows at once on the message that was accepted for it.
abbrev pub Confirmed : Option Payload → Option Event → List Entry → Type 0
Confirmed (some p) a es = Unit
Confirmed none a [] = ⊥
Confirmed none a (stored r ∷ es) = ⊥
Confirmed none a (sent p o ∷ es) = (o ≡ returned true) × (a ≡ some p.event)

abbrev pub Earned : List Entry → Type 0
Earned [] = Unit
Earned (stored r ∷ es) = Confirmed r.pending r.acknowledged es × Earned es
Earned (sent p o ∷ es) = Earned es

-- The file says that `event` was delivered, or there is no file and nothing to recover from.
abbrev pub Settled : Event → Option Previous → Type 0
Settled event file =
    ((view file).waiting ≡ none)
    × (((view file).acknowledged ≡ some event) ⊎ ((event ≡ recovery) × (file ≡ none)))

-- The message that was sent last is `p`, and it was accepted.
abbrev Accepted : Payload → List Entry → Type 0
Accepted p [] = ⊥
Accepted p (stored r ∷ es) = ⊥
Accepted p (sent q o ∷ es) = (o ≡ returned true) × (q ≡ p)

Accepted-Confirmed :
    (p : Payload) (es : List Entry) → Accepted p es → Confirmed none (some p.event) es
Accepted-Confirmed p [] h = h
Accepted-Confirmed p (stored r ∷ es) h = h
Accepted-Confirmed p (sent q o ∷ es) h = (h.0, ap (λ x. some x.event) (sym h.1))

required-or_zero : (a : Option ℕ) (n : ℕ) → required a ≡ returned n → or_zero a ≡ n
required-or_zero none n h = cc
required-or_zero (some k) n h = cc

unsettled :
    (event : Event) (previous : Option Previous)
    → is_settled event previous ≡ false
    → acknowledges event (fields previous).acknowledged ≡ false
unsettled event none h = refl
unsettled event (some r) h = h

module _ (v0 : View) where
  abbrev Good : Memory → Type 0
  Good m = Reach v0 (view m.file) × Earned m.log

  abbrev Synced : Memory → Type 0
  Synced m = (m.previous ≡ m.file) × Good m

  -- `p` is pending, and the file says `v`.
  abbrev Holding : Payload → View → Memory → Type 0
  Holding p v m = Synced m × ((fields m.previous).pending ≡ some p) × (view m.previous ≡ v)

  reached : (m : Memory) → Synced m → Reach v0 (view m.previous)
  reached m h = subst (λ f. Reach v0 (view f)) (sym h.0) h.1.0

  held-Confirmed :
      (r : Previous) (p : Payload) (es : List Entry)
      → r.pending ≡ some p
      → Confirmed r.pending r.acknowledged es
  held-Confirmed r p es h = subst (λ x. Confirmed x r.acknowledged es) (sym h) tt

  module _ (host : Host) where
    abbrev N : Type 0
    N = Node host.State

    abbrev E : Error → N → Type 0
    E _ = On Good

    abbrev Kept : {A : Type 0} → (Memory → Type 0) → Exec N A → Type 0
    Kept P m = Ensures (On P) (λ _. On P) E m

    pure-Kept : {A : Type 0} (P : Memory → Type 0) (a : A) → Kept P (pure a)
    pure-Kept P a = Ensures-pure (On P) _ E a (λ n p. p)

    -- Changes that are not about the transition.
    update-Kept :
        (p : Payload) (v : View) (f : Previous → Previous)
        → ((r : Previous) → (f r).pending ≡ r.pending)
        → ((r : Previous) → view (some (f r)) ≡ view (some r))
        → Kept (Holding p v) (update host f)
    update-Kept p v f same kept =
        Ensures-update host (Holding p v) (Holding p v) Good f
          (λ m h.
            ((refl, shown m h), same (fields m.previous) ∙ h.1, kept (fields m.previous) ∙ h.2))
          (λ m h. (h.0.1, shown m h))
      where
        shown :
            (m : Memory) → Holding p v m → Good (stored_in (f (fields m.previous)) (assigned f m))
        shown m h = (
          subst (Reach v0) (sym (kept (fields m.previous))) (reached m h.0),
          (
            held-Confirmed (f (fields m.previous)) p m.log (same (fields m.previous) ∙ h.1),
            h.0.1.1,
          ),
        )

    abbrev Attempted : Payload → View → Bool → Memory → Type 0
    Attempted p v b m = Holding p v m × (b ≡ true → Accepted p m.log)

    refused :
        (p : Payload) (v : View)
        → Ensures (On (Holding p v)) (λ b. On (Attempted p v b)) E (pure false)
    refused p v = Ensures-pure (On (Holding p v)) _ E false (λ n h. (h, λ e. absurd cc))

    deliver-Attempted :
        (p : Payload) (v : View)
        → Ensures (On (Holding p v)) (λ b. On (Attempted p v b)) E (deliver host p)
    deliver-Attempted p v =
        Ensures-deliver host (Holding p v) Good (Attempted p v) p
          (λ m h b. (h, λ e. (ap returned e, refl))) (λ m h e. h.0.1)

    attempt-Attempted :
        (p : Payload) (v : View) (policy : Policy) (now : ℕ)
        → Ensures (On (Holding p v)) (λ b. On (Attempted p v b)) E (attempt host policy now p)
    unfolding attempt
    attempt-Attempted p v unbounded now = deliver-Attempted p v
    attempt-Attempted p v (bounded maximum seconds) now = do
      a ← look-Kept (Holding p v) _
      n ← known-Kept (Holding p v) (λ m h. h.0.1) (count a)
      Ensures-if (leb maximum n)
          (λ _. do update-Kept p v mark_exhausted (λ r. refl) (λ r. refl); refused p v)
          (λ _. do
            due ← look-Kept (Holding p v) _
            Ensures-if (ltb now due) (λ _. refused p v)
                (λ _. do
                  update-Kept p v (taken maximum seconds now n) (λ r. refl) (λ r. refl)
                  deliver-Attempted p v))

    -- A record of the delivery, after the message that was accepted.
    confirm-Good :
        (p : Payload) (v : View) (n : ℕ) (m : Memory)
        → Holding p v m
        → Accepted p m.log
        → v.sequence ≡ n
        → Good (stored_in (settled p.event n) m)
    confirm-Good p v n m h a k =
        let start = subst (Reach v0) h.2 (reached m h.0) in
        let waits : v.waiting ≡ some p.event = ap (λ x. x.waiting) (sym h.2) ∙ ap event_of h.1 in
        let stepped = Reach.next start (confirms p.event v waits) in
        (
          subst
              (λ x. Reach v0 (record { acknowledged = some p.event; waiting = none; sequence = x }))
              k stepped,
          (Accepted-Confirmed p m.log a, h.0.1.1),
        )

    abbrev Delivered : Payload → View → ℕ → Memory → Type 0
    Delivered p v n m = Holding p v m × Accepted p m.log × (v.sequence ≡ n)

    settle :
        (p : Payload) (v : View) (n : ℕ)
        → Ensures
            (On (Delivered p v n))
            (λ _. On (λ m. Synced m × ((fields m.previous).pending ≡ none)))
            E
            (update host (λ _. settled p.event n))
    settle p v n =
        Ensures-update host (Delivered p v n) _ Good (λ _. settled p.event n)
          (λ m h. ((refl, confirm-Good p v n m h.0 h.1 h.2), refl))
          (λ m h. (h.0.0.1, confirm-Good p v n m h.0 h.1 h.2))

    -- No transition waits.
    Clear : Bool → Memory → Type 0
    Clear b m = Synced m × (b ≡ true → (fields m.previous).pending ≡ none)

    retry_pending-Clear :
        (policy : Policy) (now : ℕ)
        → Ensures (On Synced) (λ b. On (Clear b)) E (retry_pending host policy now)
    unfolding retry_pending Clear
    retry_pending-Clear policy now =
        Ensures-look Synced E (λ m. (fields m.previous).pending) >>= elim [
          | none ↦ Ensures-pure _ _ E true (λ s h. (h.0, λ e. sym h.1))
          | some p ↦
              Ensures-mono (λ s h. (view s.memory.previous, (h.0, sym h.1, refl))) (λ b s h. h)
                (λ e s h. h)
                (Ensures-ghost (λ v. do
                  accepted ← attempt-Attempted p v policy now
                  Ensures-if (not accepted)
                      (λ _. Ensures-pure _ _ E false (λ s h. (h.0.0, λ e. absurd cc)))
                      (λ yes. do
                        sequence ←
                            Ensures-look (Attempted p v accepted) E
                              (λ m. (fields m.previous).sequence)
                        n ← Ensures-known _ E (required sequence) (λ s h e. h.0.0.0.1)
                        Ensures-from
                            (λ s h. (
                              h.0.0.0,
                              h.0.0.1 (ground arith),
                              ap (λ x. x.sequence) (sym h.0.0.0.2)
                                  ∙ ap or_zero (sym h.0.1)
                                  ∙ required-or_zero sequence n h.1,
                            ))
                            (do settle p v n; Ensures-pure _ _ E true (λ s h. (h.0, λ e. h.1))))))
        ]

    abbrev Free : Event → Memory → Type 0
    Free event m =
        Synced m × ((fields m.previous).pending ≡ none) × (is_settled event m.previous ≡ false)

    abbrev Known : Event → ℕ → Option Event → Memory → Type 0
    Known event last prior m =
        Free event m
        × (last ≡ or_zero (fields m.previous).sequence)
        × (prior ≡ (fields m.previous).acknowledged)

    abbrev offered_view : Event → ℕ → Option Event → View
    offered_view event last prior = record {
      acknowledged = prior;
      waiting = some event;
      sequence = suc last;
    }

    offer-Reach :
        (event : Event) (last : ℕ) (prior : Option Event) (m : Memory)
        → Known event last prior m
        → Reach v0 (offered_view event last (fields m.previous).acknowledged)
    offer-Reach event last prior m h =
        let stepped =
          Reach.next (reached m h.0.0) (
            offers event (view m.previous) (ap event_of h.0.1)
              (unsettled event m.previous h.0.2)) in
        subst (λ k. Reach v0 (offered_view event k (fields m.previous).acknowledged)) (sym h.1)
          stepped

    offered-Holding :
        (event : Event) (now last : ℕ) (prior : Option Event)
        → let p = payload_for host event (suc last) now prior in
          Ensures
            (On (Known event last prior))
            (λ _. On (Holding p (offered_view event last prior)))
            E
            (update host (offered (suc last) p now))
    offered-Holding event now last prior =
        let p = payload_for host event (suc last) now prior in
        Ensures-update host (Known event last prior) _ Good (offered (suc last) p now)
          (λ m h. (
            (refl, (offer-Reach event last prior m h, (tt, h.0.0.1.1))),
            refl,
            ap (offered_view event last) (sym h.2),
          ))
          (λ m h. (h.0.0.1, (offer-Reach event last prior m h, (tt, h.0.0.1.1))))

    abbrev Ends : Event → Bool → Memory → Type 0
    Ends event b m = Good m × (b ≡ true → Settled event m.file)

    offer-Ends :
        (policy : Policy) (event : Event) (now : ℕ)
        → Ensures (On (Free event)) (λ b. On (Ends event b)) E (offer host policy event now)
    unfolding offer
    offer-Ends policy event now = do
      last ← Ensures-look (Free event) E (λ m. or_zero (fields m.previous).sequence)
      prior ←
          Ensures-mono (λ s h. h) (λ a s h. (h.0.0, h.0.1, h.1)) (λ _ s h. h)
            (Ensures-look (λ m. Free event m × (last ≡ or_zero (fields m.previous).sequence)) E
              (λ m. (fields m.previous).acknowledged))
      let p = payload_for host event (suc last) now prior in
          let v = offered_view event last prior in
          do
            offered-Holding event now last prior
            accepted ← attempt-Attempted p v policy now
            Ensures-if (not accepted)
                (λ _. Ensures-pure _ _ E false (λ s h. (h.0.0.1, λ e. absurd cc)))
                (λ yes. do
                  Ensures-write host (Attempted p v accepted) (Ends event true) Good
                      (settled event (suc last))
                      (λ m h. (
                        confirm-Good p v (suc last) m h.0 (h.1 (ground arith)) refl,
                        λ e. (refl, inl refl),
                      ))
                      (λ m h.
                        (h.0.0.1, confirm-Good p v (suc last) m h.0 (h.1 (ground arith)) refl))
                  Ensures-pure _ _ E true (λ s h. h))

    load-Synced : Ensures (On Good) (λ _. On Synced) E (load host)
    unfolding load
    load-Synced = look-Kept Good (λ m. m.file) >>= elim [
      | none ↦ do pure-Kept Good tt; copy
      | some r ↦ do Ensures-try_call Good host.file_readable; copy
    ]
      where
        copy : Ensures (On Good) (λ _. On Synced) E (change (λ m. record m { previous = m.file }))
        copy = Ensures-change Good Synced E _ (λ m p. (refl, p))

    done-Settled :
        (event : Event) (m : Memory)
        → Synced m
        → (fields m.previous).pending ≡ none
        → is_settled event m.previous ≡ true
        → Settled event m.file
    done-Settled event m h c d = subst (Settled event) h.0 (ap event_of c, shown m.previous d)
      where
        event_eq-sound : (a b : Event) → event_eq a b ≡ true → a ≡ b
        event_eq-sound failure failure e = refl
        event_eq-sound recovery recovery e = refl
        event_eq-sound missed missed e = refl
        event_eq-sound failure recovery e = absurd cc
        event_eq-sound failure missed e = absurd cc
        event_eq-sound recovery failure e = absurd cc
        event_eq-sound recovery missed e = absurd cc
        event_eq-sound missed failure e = absurd cc
        event_eq-sound missed recovery e = absurd cc

        acknowledges-sound : (a : Option Event) → acknowledges event a ≡ true → a ≡ some event
        acknowledges-sound none e = absurd cc
        acknowledges-sound (some x) e = ap some (event_eq-sound x event e)

        shown :
            (f : Option Previous)
            → is_settled event f ≡ true
            → ((view f).acknowledged ≡ some event) ⊎ ((event ≡ recovery) × (f ≡ none))
        shown none e = inr (event_eq-sound event recovery e, refl)
        shown (some r) e = inl (acknowledges-sound r.acknowledged e)

    notify-Ends :
        (contract : Contract) (event : Event) (now : ℕ)
        → Ensures (On Good) (λ b. On (Ends event b)) E (notify host contract event now)
    unfolding notify notify_locked Clear
    notify-Ends contract event now = do
      Ensures-try_call Good host.directory_protected
      policy ← known-Kept Good (λ m h. h) _
      Ensures-try_call Good host.lock
      load-Synced
      clear ← retry_pending-Clear policy now
      Ensures-if (not clear) (λ _. Ensures-pure _ _ E false (λ s h. (h.0.1, λ e. absurd cc)))
          (λ yes. do
            done ← Ensures-look (Clear clear) E (λ m. is_settled event m.previous)
            Ensures-if done
                (λ d. Ensures-pure _ _ E true (λ s h. (
                  h.0.0.1,
                  λ _. done-Settled event s.memory h.0.0 (h.0.1 (ground arith)) (sym h.1 ∙ d),
                )))
                (λ d.
                  Ensures-from (λ s h. (h.0.0, h.0.1 (ground arith), sym h.1 ∙ d))
                    (offer-Ends policy event now)))

module _ (host : Host) (contract : Contract) (event : Event) (now : ℕ) (n : Node host.State) where
  -- Whatever the calls answer, and however the call ends, the file moves by steps of the machine
  -- only; and when each acknowledgement on record followed at once on the message that was accepted
  -- for it, each one still does.
  pub notify-Reach :
      Earned n.memory.log
      → let n' = (notify host contract event now n).1 in
        Reach (view n.memory.file) (view n'.memory.file) × Earned n'.memory.log
  notify-Reach h = Post-same (On (Good (view n.memory.file))) (notify host contract event now n) (
      (Ensures-mono (λ s p. p) (λ b s p. p.0) (λ e s p. p)
          (notify-Ends (view n.memory.file) host contract event now)).at
        n (here, h))

  -- When `notify` answers true, the file says that the transition was acknowledged and that nothing
  -- waits, or the transition is a recovery and there is no file.
  pub notify-Settled :
      Earned n.memory.log
      → (notify host contract event now n).0 ≡ returned true
      → Settled event (notify host contract event now n).1.memory.file
  notify-Settled h e =
      (Post-returned (λ b. On (Ends (view n.memory.file) host event b)) (λ _. On (Good _))
          (notify host contract event now n) true e
          ((notify-Ends (view n.memory.file) host contract event now).at n (here, h))).1
        refl
