-- ===== src/Protection/Delivery.antt =====
-- `notify`: a transition of the protection is stored before it is sent, a transition that was not
-- delivered is sent again before a later one, and the attempts are counted and spaced. Moments are
-- in milliseconds. The file `notification.json` is written by this code only, so that its
-- `acknowledged` is one of the three events and its object is never empty.
pub mod Rules
pub mod Rationed
pub mod Machine
pub mod Delivered
use homelab_server_configs.Prelude.{
  ℕ, suc, ◌+◌, ◌*◌, String, Bool, true, false, not, ◌&&◌, Option, none, some, List, ◌∷◌, leb, ltb,
  text_append, if◌then◌else◌,
}
use homelab_server_configs.Prelude.Exec.{
  Error, value_error, other_error, Outcome, returned, raised, Exec, pure, lift, gets, modify, ◌>>=◌,
  ◌>>◌,
}
use homelab_server_configs.Protection.Window.{or_zero}

pub data Event : Type 0 where
  failure recovery missed : Event

-- A JSON value where the code expects a number that is not negative.
pub data Number : Type 0 where
  whole : ℕ → Number
  other_value : Number

pub record Payload : Type 0 where
  pub event_id : String
  pub event : Event
  pub observed : String
  pub severity : String
  pub transition : String
  pub impact : String
  pub failure_class : String

-- The object in the file, and the variable `previous`; `none` is a key that is left out, and for
-- `pending` also a null.
pub record Previous : Type 0 where
  pub acknowledged : Option Event
  pub sequence : Option ℕ
  pub pending : Option Payload
  pub attempts : Option Number
  pub next_attempt_at : Option ℕ
  pub exhausted : Option Bool
  pub observed_at : Option ℕ

pub record Contract : Type 0 where
  pub maximum_attempts : Option Number
  pub retry_interval_seconds : Option Number

pub data Policy : Type 0 where
  unbounded : Policy
  bounded : ℕ → ℕ → Policy

-- `bounded`, and the check of both numbers when one of them is given.
unfoldable pub policy_of : Option Number → Option Number → Outcome Policy
policy_of none none = returned unbounded
policy_of (some (whole maximum)) (some (whole seconds)) =
    if leb 1 maximum && leb maximum 8 && leb 1 seconds && leb seconds 86400
    then returned (bounded maximum seconds)
    else raised (value_error "notification_retry_policy")
policy_of _ _ = raised (value_error "notification_retry_policy")

-- How `atomic` ends: the file is replaced, it is left as it was, or it is replaced and the call
-- fails afterwards.
pub data Saved : Type 0 where
  replaced : Saved
  untouched replaced_late : Error → Saved

-- What the code calls: the protection of the directory, the lock, the size and shape of the file,
-- `atomic`, the sender, and the texts of the digest and of the time.
pub record Host : Type 1 where
  pub State : Type 0
  pub directory_protected : State → Outcome Unit × State
  pub lock : State → Outcome Unit × State
  pub file_readable : State → Outcome Unit × State
  pub save : Previous → State → Saved × State
  pub sender : Payload → State → Outcome Bool × State
  pub event_id : ℕ → Event → String
  pub isoformat : ℕ → String

pub data Entry : Type 0 where
  stored : Previous → Entry
  sent : Payload → Outcome Bool → Entry

-- The file, the variable `previous`, where `none` is `{}`, and what was stored and sent, the newest
-- first.
pub record Memory : Type 0 where
  pub file : Option Previous
  pub previous : Option Previous
  pub log : List Entry

pub record Node (W : Type 0) : Type 0 where
  pub world : W
  pub memory : Memory

abbrev pub event_eq : Event → Event → Bool
event_eq failure failure = true
event_eq recovery recovery = true
event_eq missed missed = true
event_eq _ _ = false

abbrev pub event_text : Event → String
event_text failure = "failure"
event_text recovery = "recovery"
event_text missed = "missed"

abbrev blank : Previous
blank = record {
  acknowledged = none;
  sequence = none;
  pending = none;
  attempts = none;
  next_attempt_at = none;
  exhausted = none;
  observed_at = none;
}

-- The keys that `previous.get` finds.
abbrev pub fields : Option Previous → Previous
fields none = blank
fields (some previous) = previous

abbrev pub count : Option Number → Outcome ℕ
count none = returned 0
count (some (whole n)) = returned n
count (some other_value) = raised (value_error "notification_attempts")

-- `previous['sequence']`
abbrev pub required : Option ℕ → Outcome ℕ
required none = raised other_error
required (some n) = returned n

-- `dict(acknowledged=…, sequence=…, pending=None)`
abbrev pub settled : Event → ℕ → Previous
settled event sequence = record blank { acknowledged = some event; sequence = some sequence }

abbrev prior_text : Option Event → String
prior_text none = "unknown"
prior_text (some event) = event_text event

abbrev class_of : Event → String
class_of failure = "backup-or-writer-recovery"
class_of recovery = "none"
class_of missed = "missed-schedule"

abbrev pub acknowledges : Event → Option Event → Bool
acknowledges event none = false
acknowledges event (some prior) = event_eq prior event

-- The two tests before a new transition is offered.
abbrev pub is_settled : Event → Option Previous → Bool
is_settled event none = event_eq event recovery
is_settled event (some previous) = acknowledges event previous.acknowledged

abbrev pub stored_in : Previous → Memory → Memory
stored_in r memory = record memory { file = some r; log = stored r ∷ memory.log }

abbrev pub sent_in : Payload → Outcome Bool → Memory → Memory
sent_in p o memory = record memory { log = sent p o ∷ memory.log }

-- `previous[…] = …` and `previous.update(…)`
abbrev pub assigned : (Previous → Previous) → Memory → Memory
assigned f memory = record memory { previous = some (f (fields memory.previous)) }

abbrev pub mark_exhausted : Previous → Previous
mark_exhausted r = record r { exhausted = some true }

-- One more attempt, and when the next may follow.
abbrev pub taken : ℕ → ℕ → ℕ → ℕ → Previous → Previous
taken maximum seconds now n r = record r {
  attempts = some (whole (suc n));
  next_attempt_at = some (now + seconds * 1000);
  exhausted = some (leb maximum (suc n));
}

abbrev pub offered : ℕ → Payload → ℕ → Previous → Previous
offered sequence payload now r = record r {
  sequence = some sequence;
  pending = some payload;
  observed_at = some now;
}

module _ {W : Type 0} where
  pub look : {A : Type 0} → (Memory → A) → Exec (Node W) A
  look f = gets (λ n. f n.memory)

  pub change : (Memory → Memory) → Exec (Node W) Unit
  change f = modify (λ n. record n { memory = f n.memory })

  pub try_call : {A : Type 0} → (W → Outcome A × W) → Exec (Node W) A
  try_call f n = let (o, w) = f n.world in (o, record n { world = w })

  abbrev pub saved : Saved → Previous → Node W → Outcome Unit × Node W
  saved replaced r n = (returned tt, record n { memory = stored_in r n.memory })
  saved (untouched e) r n = (raised e, n)
  saved (replaced_late e) r n = (raised e, record n { memory = stored_in r n.memory })

module _ (host : Host) where
  abbrev N : Type 0
  N = Node host.State

  -- `atomic(path, r)`
  pub write : Previous → Exec N Unit
  write r n = let (o, w) = host.save r n.world in saved o r (record n { world = w })

  -- `sender(contract, payload)`
  pub deliver : Payload → Exec N Bool
  deliver p n =
      let (o, w) = host.sender p n.world in
      (o, record n { world = w; memory = sent_in p o n.memory })

  -- `previous` changed and stored.
  pub update : (Previous → Previous) → Exec N Unit
  unfolding look change write
  update f = do change (assigned f); r ← look (λ m. fields m.previous); write r

  pub attempt : Policy → ℕ → Payload → Exec N Bool
  unfolding look deliver update
  attempt unbounded now p = deliver p
  attempt (bounded maximum seconds) now p = do
    attempts ← look (λ m. (fields m.previous).attempts)
    n ← lift (count attempts)
    if leb maximum n then (do update mark_exhausted; pure false) else do
      due ← look (λ m. or_zero (fields m.previous).next_attempt_at)
      if ltb now due then pure false else do update (taken maximum seconds now n); deliver p

  -- A pending transition is sent before a later one: `false` is the early `return False`.
  pub retry_pending : Policy → ℕ → Exec N Bool
  unfolding look attempt update
  retry_pending policy now = do
    pending ← look (λ m. (fields m.previous).pending)
    elim pending [
      | none ↦ pure true
      | some p ↦ (do
        accepted ← attempt policy now p
        if not accepted then pure false else do
          sequence ← look (λ m. (fields m.previous).sequence)
          n ← lift (required sequence)
          update (λ _. settled p.event n)
          pure true)
    ]

  abbrev pub payload_for : Event → ℕ → ℕ → Option Event → Payload
  payload_for event sequence now prior = record {
    event_id = host.event_id sequence event;
    event = event;
    observed = host.isoformat now;
    severity = if event_eq event recovery then "success" else "failure";
    transition = text_append (prior_text prior) (text_append " -> " (event_text event));
    impact =
        if event_eq event recovery
        then "Protection restored."
        else "Application recovery coverage needs review.";
    failure_class = class_of event;
  }

  -- A new transition, stored and then sent.
  pub offer : Policy → Event → ℕ → Exec N Bool
  unfolding look attempt update write
  offer policy event now = do
    last ← look (λ m. or_zero (fields m.previous).sequence)
    prior ← look (λ m. (fields m.previous).acknowledged)
    let payload = payload_for event (suc last) now prior
    update (offered (suc last) payload now)
    accepted ← attempt policy now payload
    if not accepted then pure false else (do write (settled event (suc last)); pure true)

  -- The file is read when there is one.
  pub load : Exec N Unit
  unfolding look change try_call
  load = do
    file ← look (λ m. m.file)
    elim file [ none ↦ pure tt | some previous ↦ try_call host.file_readable ]
    change (λ m. record m { previous = m.file })

  -- The block under the lock.
  pub notify_locked : Policy → Event → ℕ → Exec N Bool
  unfolding look try_call load retry_pending offer
  notify_locked policy event now = do
    try_call host.lock
    load
    clear ← retry_pending policy now
    if not clear then pure false else do
      done ← look (λ m. is_settled event m.previous)
      if done then pure true else offer policy event now

  -- `notify(state_directory, event, contract, sender, now)`
  unfoldable pub notify : Contract → Event → ℕ → Exec N Bool
  unfolding try_call notify_locked
  notify contract event now = do
    try_call host.directory_protected
    policy ← lift (policy_of contract.maximum_attempts contract.retry_interval_seconds)
    notify_locked policy event now
