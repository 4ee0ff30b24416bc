-- ===== src/Watchdog/Grant.antt =====
-- `grant_valid` and `trigger` of watchdog/scripts/panic-worker.py.
pub mod Once
use homelab_server_configs.Prelude.{
  ℕ, ◌+◌, String, Bool, true, false, not, ◌&&◌, Option, none, some, List, [], ◌∷◌, ◌==◌, leb,
  length, str_eq, all, one_of, if◌then◌else◌,
}
use homelab_server_configs.Prelude.Exec.{
  Error, value_error, other_error, Outcome, returned, raised, Exec, pure, lift, raise, modify,
  require, ◌>>=◌, ◌>>◌,
}
use homelab_server_configs.Prelude.Json.{Json, object, Fields, end, field, find, equals_text}

abbrev keys : Fields → List String
keys end = []
keys (field k j rest) = k ∷ keys rest

-- `set(value) == {'nonce', 'operation_id', 'action'}` of a dictionary.
abbrev has_shape : Fields → Bool
has_shape fs =
    (length (keys fs) == 3) && all (one_of (keys fs)) ("nonce" ∷ "operation_id" ∷ "action" ∷ [])

abbrev is_bound : String → String → Fields → Bool
is_bound operation_id nonce fs =
    equals_text nonce (find "nonce" fs)
    && equals_text operation_id (find "operation_id" fs)
    && equals_text "panic-once" (find "action" fs)

-- `grant_valid(value, nonce, ready, now)`; times are milliseconds. A value that is no dictionary
-- raises as well, at the shape or, for a list of the three names, at the binding.
pub grant_valid : String → Json → String → ℕ → ℕ → Outcome Unit
grant_valid operation_id (object fs) nonce ready now =
    if not (has_shape fs)
    then raised (value_error "grant shape")
    else if not (is_bound operation_id nonce fs)
    then raised (value_error "grant binding")
    else if not (leb ready now && leb now (ready + 8000))
    then raised (value_error "grant expired")
    else returned tt
grant_valid operation_id _ nonce ready now = raised (value_error "grant shape")

-- The target, as far as `trigger` touches it. The grant is what `readline(1025)` returns; the alarm
-- that ends it shows as an exception.
pub record Target : Type 1 where
  pub State : Type 0
  pub monotonic : State → ℕ × State
  -- `identity(expected)`, `command(['/usr/bin/sync'], …)`, `critical(boot)` and `health(boot)`.
  pub identity : String → State → Outcome String × State
  pub sync : State → Outcome Unit × State
  pub critical : String → State → Outcome Unit × State
  pub health : String → State → Outcome Unit × State
  pub nonce : State → String × State
  pub emit_ready : String → State → Outcome Unit × State
  pub read_grant : State → Outcome (List ℕ) × State
  -- `os.open` of the SysRq file with whether it is a regular file, `os.write` of `c`, `os.close`.
  pub open_sysrq : State → Outcome Bool × State
  pub write_sysrq : State → Outcome Unit × State
  pub close_sysrq : State → Outcome Unit × State
  pub parse_json : List ℕ → Option Json

-- The calls that count, the newest first: a time that was read, the nonce of a readiness that was
-- emitted, what was read as the grant, and an attempt to write the panic. Each is logged by the call
-- itself.
pub data Event : Type 0 where
  timed : ℕ → Event
  offered : String → Event
  received : List ℕ → Event
  panicked : Event

pub record Worker (W : Type 0) : Type 0 where
  pub world : W
  pub events : List Event

abbrev ends_line : List ℕ → Bool
ends_line [] = false
ends_line (c ∷ []) = c == 10
ends_line (c ∷ rest) = ends_line rest

abbrev parsed : Option Json → Outcome Json
parsed none = raised (value_error "JSON")
parsed (some j) = returned j

-- What a call gave, as a value: for `try: … finally: …`.
abbrev gather : {S A : Type 0} → Exec S A → Exec S (Outcome A)
gather m s = let (o, s') = m s in (returned o, s')

module _ (target : Target) (base_boot operation_id : String) where
  abbrev pub T : Type 0
  T = Worker target.State

  abbrev logged : T → target.State → Event → T
  logged s w e = record s { world = w; events = e ∷ s.events }

  abbrev pub read_events : Outcome (List ℕ) → List Event → List Event
  read_events (returned raw) es = received raw ∷ es
  read_events (raised e) es = es

  -- The calls that leave an event.
  pub monotonic : Exec T ℕ
  monotonic s = let (now, w) = target.monotonic s.world in (returned now, logged s w (timed now))

  pub emit_ready : String → Exec T Unit
  emit_ready nonce s =
      let (o, w) = target.emit_ready nonce s.world in (o, logged s w (offered nonce))

  pub read_grant : Exec T (List ℕ)
  read_grant s =
      let (o, w) = target.read_grant s.world in
      (o, record s { world = w; events = read_events o s.events })

  pub write_sysrq : Exec T Unit
  write_sysrq s = let (o, w) = target.write_sysrq s.world in (o, logged s w panicked)

  -- The other calls.
  pub ask : {A : Type 0} → (target.State → A × target.State) → Exec T A
  ask f s = let (a, w) = f s.world in (returned a, record s { world = w })

  pub try_call : {A : Type 0} → (target.State → Outcome A × target.State) → Exec T A
  try_call f s = let (o, w) = f s.world in (o, record s { world = w })

  -- The `finally` closes the file, whether the write raises or not.
  pub write_panic : Exec T Unit
  unfolding try_call write_sysrq
  write_panic = do
    is_regular ← try_call target.open_sysrq
    written ←
        gather (do require is_regular (value_error "unexpected SysRq interface type"); write_sysrq)
    try_call target.close_sysrq
    lift written

  -- `trigger()`; its last line raises, so that no call returns.
  pub trigger : Exec T Unit
  unfolding ask try_call monotonic emit_ready read_grant write_panic
  trigger = do
    started ← monotonic
    boot ← try_call (target.identity base_boot)
    try_call target.sync
    try_call (target.critical boot)
    try_call (target.health boot)
    ready ← monotonic
    nonce ← ask target.nonce
    emit_ready nonce
    raw ← read_grant
    require (leb (length raw) 1024 && ends_line raw) (value_error "bounded complete grant")
    value ← lift (parsed (target.parse_json raw))
    now ← monotonic
    lift (grant_valid operation_id value nonce ready now)
    again ← try_call (target.identity boot)
    write_panic
    raise other_error
