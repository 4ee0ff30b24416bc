-- ===== src/Watchdog/Channel.antt =====
-- `trigger_channel` of watchdog/scripts/run-panic-recovery.py, which sends the grant to the worker.
-- Times are milliseconds.
pub mod Granting
pub mod Once
pub mod Traces
use homelab_server_configs.Prelude.{
  ℕ, zero, suc, ◌+◌, ◌-◌, ◌*◌, String, Bool, true, false, not, ◌&&◌, ◌||◌, Option, none, some, List,
  [], ◌∷◌, ◌++◌, ◌==◌, leb, ltb, length, str_eq, all, any, is_empty, select, is_hex, codes,
  if◌then◌else◌,
}
use homelab_server_configs.Prelude.Exec.{
  Error, value_error, other_error, Outcome, returned, raised, Exec, pure, lift, raise, gets, modify,
  require, and_then, ◌>>=◌, ◌>>◌,
}
use homelab_server_configs.Prelude.Json.{Json, boolean, string, object, Fields, find, equals_text}
use homelab_server_configs.Watchdog.Operator.{Number, validate_operator, ready_nonce, health_offset}

abbrev pub first_line : List ℕ → List ℕ
first_line [] = []
first_line (c ∷ rest) = if c == 10 then [] else c ∷ first_line rest

pub data Stream : Type 0 where
  stdin stdout stderr : Stream

abbrev stream_eq : Stream → Stream → Bool
stream_eq stdin stdin = true
stream_eq stdout stdout = true
stream_eq stderr stderr = true
stream_eq _ _ = false

-- What the function calls: the two receipts, both clocks, the process of the worker with its
-- streams, the clients, the operator's record and the evidence. `write_grant` says whether all of the
-- grant was written.
pub record Peer : Type 1 where
  pub State : Type 0
  pub create_armed : State → Outcome Unit × State
  -- With the lower bound of the health check and the moment of the submission.
  pub create_submitted : ℕ → ℕ → State → Outcome Unit × State
  pub monotonic : State → ℕ × State
  pub epoch : State → ℕ × State
  pub popen : State → Outcome Unit × State
  pub register : State → Outcome Unit × State
  pub select : List Stream → ℕ → State → Outcome (List Stream) × State
  pub write_payload : State → Outcome ℕ × State
  pub read_stream : Stream → State → Outcome (List ℕ) × State
  pub write_grant : String → State → Outcome Bool × State
  pub close_stdin : State → Outcome Unit × State
  pub poll : State → Option ℕ × State
  pub kill : State → Outcome Unit × State
  pub wait : State → Outcome Unit × State
  pub clients : State → Outcome Unit × State
  pub read_operator : State → Outcome Json × State
  pub save : String → State → Outcome Unit × State
  pub parse_json : List ℕ → Option Json
  pub number : Json → Option Number
  pub payload_size : ℕ

-- The calls that count, the newest first: the receipt before the contact, a time that was read, the
-- start of the worker, the record of its line, the operator's record that was read, the hour, the
-- receipt of the submission, and an attempt to write a grant. Each is logged by the call itself.
pub data Event : Type 0 where
  armed contacted : Event
  stamped dated : ℕ → Event
  readied : List ℕ → Event
  attested : Json → Event
  submitted : ℕ → ℕ → Event
  granted : String → Event

pub record Channel (W : Type 0) : Type 0 where
  pub world : W
  pub events : List Event
  pub output : List ℕ
  pub errors : ℕ
  pub pending : ℕ
  pub registered : List Stream
  pub deadline : ℕ
  pub healthy : ℕ
  pub submission : Option ℕ

abbrev pub gather : {S A : Type 0} → Exec S A → Exec S (Outcome A)
gather m s = let (o, s') = m s in (returned o, s')

abbrev pub is_some : {A : Type 0} → Option A → Bool
is_some none = false
is_some (some a) = true

module _ (peer : Peer) where
  abbrev pub C : Type 0
  C = Channel peer.State

  pub ask : {A : Type 0} → (peer.State → A × peer.State) → Exec C A
  ask f s = let (a, w) = f s.world in (returned a, record s { world = w })

  pub try_call : {A : Type 0} → (peer.State → Outcome A × peer.State) → Exec C A
  try_call f s = let (o, w) = f s.world in (o, record s { world = w })

  -- A call that leaves an event, however it ends.
  pub log_call : {A : Type 0} → Event → (peer.State → Outcome A × peer.State) → Exec C A
  log_call e f s = let (o, w) = f s.world in (o, record s { world = w; events = e ∷ s.events })

  abbrev pub result_events : {A : Type 0} → (A → Event) → Outcome A → List Event → List Event
  result_events g (returned a) es = g a ∷ es
  result_events g (raised e) es = es

  -- A call that leaves an event when it returns.
  pub log_result : {A : Type 0} → (A → Event) → (peer.State → Outcome A × peer.State) → Exec C A
  log_result g f s =
      let (o, w) = f s.world in (o, record s { world = w; events = result_events g o s.events })

  abbrev pub reading :
      {A : Type 0} → (peer.State → A × peer.State) → peer.State → Outcome A × peer.State
  reading f w = let (a, w') = f w in (returned a, w')

  -- The calls that are logged.
  pub create_armed : Exec C Unit
  unfolding log_result
  create_armed = log_result (λ _. armed) peer.create_armed

  pub stamp : Exec C ℕ
  unfolding log_result
  stamp = log_result stamped (reading peer.monotonic)

  pub popen : Exec C Unit
  unfolding log_call
  popen = log_call contacted peer.popen

  pub save_ready : List ℕ → Exec C Unit
  unfolding log_call
  save_ready line = log_call (readied line) (peer.save "ready")

  pub read_operator : Exec C Json
  unfolding log_result
  read_operator = log_result attested peer.read_operator

  pub date : Exec C ℕ
  unfolding log_result
  date = log_result dated (reading peer.epoch)

  pub create_submitted : ℕ → ℕ → Exec C Unit
  unfolding log_result
  create_submitted healthy moment =
      log_result (λ _. submitted healthy moment) (peer.create_submitted healthy moment)

  pub write_grant : String → Exec C Bool
  unfolding log_call
  write_grant nonce = log_call (granted nonce) (peer.write_grant nonce)

  pub unregister : Stream → Exec C Unit
  unregister stream = do
    streams ← gets (λ s. s.registered)
    require (any (stream_eq stream) streams) other_error
    modify (λ s. record s { registered = select (λ x. not (stream_eq stream x)) s.registered })

  -- The second receipt, and one write of the grant.
  pub send_grant : String → ℕ → ℕ → Exec C Unit
  unfolding try_call create_submitted write_grant
  send_grant nonce healthy moment = do
    create_submitted healthy moment
    try_call (peer.save "submitted")
    complete ← write_grant nonce
    require complete (value_error "partial grant; consumed")
    try_call peer.close_stdin
    modify (λ s. record s { deadline = moment + 5000 })

  -- The worker's first line is there: the last checks before the grant.
  pub submit : String → ℕ → List ℕ → Exec C Unit
  unfolding try_call stamp date save_ready read_operator send_grant
  submit digest launched line = do
    nonce ← lift (ready_nonce (peer.parse_json line))
    save_ready line
    try_call peer.clients
    try_call (peer.save "final-clients")
    offset ← lift (health_offset peer.number (peer.parse_json line))
    let started = launched + offset
    now ← stamp
    require (leb started (now + 2000) && leb (now + 2000) (started + 10000))
        (value_error "final health stale")
    operator ← read_operator
    clock ← date
    lift (validate_operator peer.number operator digest clock)
    moment ← stamp
    modify (λ s. record s { healthy = started - 2000; submission = some moment })
    send_grant nonce (started - 2000) moment

  pub send_payload : Exec C Unit
  unfolding try_call unregister
  send_payload = do
    pending ← gets (λ s. s.pending)
    if pending == 0
        then pure tt
        else do n ← try_call peer.write_payload; modify (λ s. record s { pending = s.pending - n })
    left ← gets (λ s. s.pending)
    if left == 0 then unregister stdin else pure tt

  -- What was read of a stream is not empty.
  pub receive : String → ℕ → Stream → List ℕ → Exec C Unit
  unfolding submit
  receive digest launched stdout bytes = do
    modify (λ s. record s { output = s.output ++ bytes })
    output ← gets (λ s. s.output)
    require (leb (length output) (1024 * 1024)) (value_error "trigger output bound")
    submission ← gets (λ s. s.submission)
    if any (λ c. c == 10) output && not (is_some submission)
        then submit digest launched (first_line output)
        else pure tt
  receive digest launched _ bytes = do
    modify (λ s. record s { errors = s.errors + length bytes })
    size ← gets (λ s. s.errors)
    require (leb size (1024 * 1024)) (value_error "trigger output bound")

  pub on_readable : String → ℕ → Stream → Exec C Unit
  unfolding try_call unregister receive
  on_readable digest launched stream = do
    bytes ← try_call (peer.read_stream stream)
    if is_empty bytes then unregister stream else receive digest launched stream bytes

  pub on_key : String → ℕ → Stream → Exec C Unit
  unfolding send_payload on_readable
  on_key digest launched stdin = send_payload
  on_key digest launched stdout = on_readable digest launched stdout
  on_key digest launched stderr = on_readable digest launched stderr

  pub on_keys : String → ℕ → List Stream → Exec C Unit
  unfolding on_key
  on_keys digest launched [] = pure tt
  on_keys digest launched (key ∷ keys) = do on_key digest launched key; on_keys digest launched keys

  -- The loop over the streams, for `fuel` rounds; false says that the rounds were not enough.
  pub attend : ℕ → String → ℕ → Exec C Bool
  unfolding ask try_call on_keys
  attend zero digest launched = pure false
  attend (suc fuel) digest launched = do
    now ← ask peer.monotonic
    s ← gets (λ s. s)
    if ltb now s.deadline && not (is_empty s.registered)
        then (do
          again ← ask peer.monotonic
          keys ← try_call (
              peer.select s.registered
                (if leb 250 (s.deadline - again) then 250 else s.deadline - again))
          on_keys digest launched keys
          status ← ask peer.poll
          submission ← gets (λ s. s.submission)
          require (not (is_some status && not (is_some submission)))
              (value_error "worker exited before submission")
          attend fuel digest launched)
        else pure true

  -- The `finally` of the loop.
  pub reap : Exec C Unit
  unfolding ask try_call
  reap = do
    status ← ask peer.poll
    if is_some status then pure tt else try_call peer.kill
    try_call peer.wait
    try_call (peer.save "trigger-transport")

  pub submission_of : ℕ → Option ℕ → Exec C (Option (ℕ × ℕ))
  submission_of healthy none = raise (value_error "no submission; armed receipt remains consumed")
  submission_of healthy (some moment) = pure (some (healthy, moment))

  -- `trigger_channel`: the lower bound of the health check, and the moment of the submission.
  unfoldable pub trigger_channel : ℕ → String → Exec C (Option (ℕ × ℕ))
  unfolding ask try_call create_armed stamp popen attend reap submission_of
  trigger_channel fuel digest = do
    create_armed
    launched ← stamp
    popen
    now ← ask peer.monotonic
    modify (λ s. record s {
      output = [];
      errors = 0;
      pending = peer.payload_size;
      registered = stdout ∷ stderr ∷ stdin ∷ [];
      deadline = now + 90000;
      submission = none;
    })
    ended ← gather (do try_call peer.register; attend fuel digest launched)
    reap
    enough ← lift ended
    s ← gets (λ s. s)
    if enough then submission_of s.healthy s.submission else pure none
