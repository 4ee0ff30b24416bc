-- ===== src/Watchdog/Grant/Once.antt =====
-- The trace of `trigger`: the nonce, the grant and the attempt to write the panic.
use homelab_server_configs.Prelude.{
  ℕ, ◌+◌, ◌≤◌, String, Bool, true, ◌&&◌, Option, none, some, List, [], ◌∷◌, ◌≡◌, refl, ap, ◌∙◌,
  arith, length, leb, leb→le,
}
use homelab_server_configs.Prelude.Exec
use homelab_server_configs.Prelude.Exec.{
  Error, Outcome, returned, raised, Exec, lift, Post, Post-same, Post-const, Post-cases, Ensures,
  Ensures-from, Ensures-pure, Ensures-raise, Ensures-lift, Ensures-mono, Ensures-bind,
  Ensures-require, Ensures-given, ◌>>=◌, ◌>>◌,
}
use homelab_server_configs.Prelude.Json.{Json, object, Fields, find, equals_text}
use homelab_server_configs.Watchdog.Grant.{
  grant_valid, ends_line, parsed, Target, Event, timed, offered, received, panicked, Worker,
  read_events, monotonic, emit_ready, read_grant, write_sysrq, ask, try_call, gather, write_panic,
  trigger,
}

-- The text of a grant: a dictionary with the three texts, read 8000 milliseconds at most after the
-- nonce was offered.
abbrev pub IsGrant : Target → String → List ℕ → String → ℕ → ℕ → Type 0
IsGrant target operation_id raw nonce ready now =
    (length raw ≤ 1024)
    × (ready ≤ now)
    × (now ≤ ready + 8000)
    × ((fs : Fields) × (target.parse_json raw ≡ some (object fs))
        × (equals_text nonce (find "nonce" fs) ≡ true)
        × (equals_text operation_id (find "operation_id" fs) ≡ true)
        × (equals_text "panic-once" (find "action" fs) ≡ true))

-- The traces of a worker: two times, a nonce, a grant, the time, and one panic on a valid grant.
abbrev pub Granted : Target → String → List Event → Type 0
Granted target operation_id [] = Unit
Granted target operation_id (timed started ∷ []) = Unit
Granted target operation_id (timed ready ∷ timed started ∷ []) = Unit
Granted target operation_id (offered nonce ∷ timed ready ∷ timed started ∷ []) = Unit
Granted target operation_id (received raw ∷ offered nonce ∷ timed ready ∷ timed started ∷ []) = Unit
Granted target operation_id
      (timed now ∷ received raw ∷ offered nonce ∷ timed ready ∷ timed started ∷ []) =
    Unit
Granted target operation_id
      (panicked ∷ timed now ∷ received raw ∷ offered nonce ∷ timed ready ∷ timed started ∷ []) =
    IsGrant target operation_id raw nonce ready now
Granted target operation_id _ = ⊥

grant_valid-returned :
    (operation_id : String) (value : Json) (nonce : String) (ready now : ℕ)
    → grant_valid operation_id value nonce ready now ≡ returned tt
    → (ready ≤ now)
      × (now ≤ ready + 8000)
      × ((fs : Fields) × (value ≡ object fs)
          × (equals_text nonce (find "nonce" fs) ≡ true)
          × (equals_text operation_id (find "operation_id" fs) ≡ true)
          × (equals_text "panic-once" (find "action" fs) ≡ true))
unfolding grant_valid
grant_valid-returned operation_id (object fs) nonce ready now h =
    (ground arith, ground arith, (fs, refl, ground arith, ground arith, ground arith))
grant_valid-returned operation_id _ nonce ready now h = cc

module _ (target : Target) (base_boot operation_id : String) where
  abbrev T : Type 0
  T = Worker target.State

  abbrev Any : Error → T → Type 0
  Any _ s = Granted target operation_id s.events

  abbrev Is : List Event → T → Type 0
  Is es s = s.events ≡ es

  module _ (es : List Event) (h : Granted target operation_id es) where
    leave :
        {A : Type 0} {Q : A → T → Type 0} {m : Exec T A}
        → Ensures (Is es) Q (λ _. Is es) m
        → Ensures (Is es) Q Any m
    leave e = Ensures-mono (λ s p. p) (λ _ s p. p) (λ _ s p. rw p h) e

    ask-Is :
        {A : Type 0} (f : target.State → A × target.State)
        → Ensures (Is es) (λ _. Is es) Any (ask target base_boot operation_id f)
    unfolding ask
    ask-Is f = record { at = λ s p. p }

    call-Is :
        {A : Type 0} (f : target.State → Outcome A × target.State)
        → Ensures (Is es) (λ _. Is es) Any (try_call target base_boot operation_id f)
    unfolding try_call
    call-Is f = leave (record { at = λ s p. let (o, w) = f s.world in Post-const (Is es) o _ p })

    require-Is :
        (b : Bool) (e : Error)
        → Ensures (Is es) (λ _ s. Is es s × (b ≡ true)) Any (Exec.require b e)
    require-Is b e = Ensures-require (Is es) Any b e (λ s p _. rw p h)

    monotonic-Is :
        Ensures (Is es) (λ now. Is (timed now ∷ es)) Any (monotonic target base_boot operation_id)
    unfolding monotonic
    monotonic-Is = record { at = λ s p. ap (λ es. timed (target.monotonic s.world).0 ∷ es) p }

    emit_ready-Is :
        (nonce : String)
        → Granted target operation_id (offered nonce ∷ es)
        → Ensures
            (Is es)
            (λ _. Is (offered nonce ∷ es))
            Any
            (emit_ready target base_boot operation_id nonce)
    unfolding emit_ready
    emit_ready-Is nonce k = record {
      at = λ s p.
          let (o, w) = target.emit_ready nonce s.world in
          Post-cases (λ _. Is (offered nonce ∷ es)) Any o
            (record s { world = w; events = offered nonce ∷ s.events })
            (λ _ _. ap (λ es. offered nonce ∷ es) p) (λ _ _. rw p k);
    }

    read_grant-Is :
        Ensures
          (Is es)
          (λ raw. Is (received raw ∷ es))
          Any
          (read_grant target base_boot operation_id)
    unfolding read_grant
    read_grant-Is = record { at = λ s p. reads (target.read_grant s.world).0 _ s p }
      where
        reads :
            (o : Outcome (List ℕ)) (w : target.State) (s : T)
            → Is es s
            → Post
                (λ raw. Is (received raw ∷ es))
                Any
                (
                  o,
                  record s {
                    world = w;
                    events = read_events target base_boot operation_id o s.events;
                  },
                )
        reads (returned raw) w s p = ap (λ es. received raw ∷ es) p
        reads (raised e) w s p = rw p h

    write_sysrq-Granted :
        Granted target operation_id (panicked ∷ es)
        → Ensures
            (Is es)
            (λ _ s. Granted target operation_id s.events)
            Any
            (write_sysrq target base_boot operation_id)
    unfolding write_sysrq
    write_sysrq-Granted k = record {
      at = λ s p.
          let (o, w) = target.write_sysrq s.world in
          Post-const (λ (s : T). Granted target operation_id s.events) o
            (record s { world = w; events = panicked ∷ s.events }) (rw p k);
    }

    lift-Is :
        {A : Type 0} (o : Outcome A)
        → Ensures (Is es) (λ a s. Is es s × (o ≡ returned a)) Any (lift o)
    lift-Is o = Ensures-lift (Is es) _ Any o (λ s p.
        Post-cases (λ a s. Is es s × (o ≡ returned a)) Any o s (λ a e. (p, e)) (λ _ _. rw p h))

  abbrev AnyUnit : T → Type 0
  AnyUnit s = Granted target operation_id s.events

  gather-Any :
      {A : Type 0} {P : T → Type 0} (R : T → Type 0) (m : Exec T A)
      → Ensures P (λ _. R) (λ _. R) m
      → Ensures P (λ _. R) Any (gather m)
  gather-Any R m e = record { at = λ s p. Post-same R (m s) (e.at s p) }

  -- Calls of the target leave the trace alone.
  call-Any :
      {A : Type 0} (R : List Event → Type 0) (f : target.State → Outcome A × target.State)
      → Ensures
          (λ s. R s.events)
          (λ _ s. R s.events)
          (λ _ s. R s.events)
          (try_call target base_boot operation_id f)
  unfolding try_call
  call-Any R f = record {
    at = λ s p. let (o, w) = f s.world in Post-const (λ (s : T). R s.events) o _ p;
  }

  -- The last steps of a worker that holds a valid grant.
  write_panic-Granted :
      (es : List Event)
      → Granted target operation_id es
      → Granted target operation_id (panicked ∷ es)
      → Ensures (Is es) (λ _. AnyUnit) Any (write_panic target base_boot operation_id)
  unfolding write_panic
  write_panic-Granted es h k = Ensures-bind (call-Is es h _) (λ is_regular.
      Ensures-bind
        (gather-Any AnyUnit _ (
          Ensures-bind (require-Is es h is_regular _)
            (λ _. Ensures-from (λ s p. p.0) (write_sysrq-Granted es h k))))
        (λ written. Ensures-bind (call-Any (Granted target operation_id) _) (λ _.
          Ensures-lift AnyUnit (λ _. AnyUnit) Any written (λ s p. Post-const AnyUnit written s p))))

  parsed-returned : (o : Option Json) (j : Json) → parsed o ≡ returned j → o ≡ some j
  parsed-returned none j h = cc
  parsed-returned (some k) j h = cc

  -- What a grant that passed every check is.
  granted :
      (raw : List ℕ) (value : Json) (nonce : String) (ready now : ℕ)
      → (leb (length raw) 1024 && ends_line raw) ≡ true
      → parsed (target.parse_json raw) ≡ returned value
      → grant_valid operation_id value nonce ready now ≡ returned tt
      → IsGrant target operation_id raw nonce ready now
  granted raw value nonce ready now hr hp hg =
      let (after, before, (fs, is, n, o, a)) =
        grant_valid-returned operation_id value nonce ready now hg in
      (
        leb→le (length raw) 1024 (ground arith),
        after,
        before,
        (fs, parsed-returned _ value hp ∙ ap some is, n, o, a),
      )

  -- The steps from the offer of the nonce.
  after_offer :
      (nonce : String) (started ready : ℕ) (boot : String)
      → Ensures {A = Unit {0}}
          (Is (timed ready ∷ timed started ∷ []))
          (λ _ _. ⊥)
          Any
          (do
            emit_ready target base_boot operation_id nonce
            raw ← read_grant target base_boot operation_id
            Exec.require
                (leb (length raw) 1024 && ends_line raw)
                (Exec.value_error "bounded complete grant")
            value ← lift (parsed (target.parse_json raw))
            now ← monotonic target base_boot operation_id
            lift (grant_valid operation_id value nonce ready now)
            again ← try_call target base_boot operation_id (target.identity boot)
            write_panic target base_boot operation_id
            Exec.raise Exec.other_error)
  after_offer nonce started ready boot =
      let begun = timed ready ∷ timed started ∷ [] in
      let es = offered nonce ∷ begun in
      Ensures-bind (emit_ready-Is begun tt nonce tt) (λ _.
        Ensures-bind (read_grant-Is es tt) (λ raw.
          Ensures-bind (require-Is (received raw ∷ es) tt _ _) (λ _. swap (λ read.
            Ensures-bind (lift-Is (received raw ∷ es) tt _) (λ value. swap (λ is_value.
              Ensures-bind (monotonic-Is (received raw ∷ es) tt) (λ now.
                let es' = timed now ∷ received raw ∷ es in
                Ensures-bind (lift-Is es' tt _) (λ u. swap (λ valid.
                  Ensures-bind (call-Is es' tt _) (λ _.
                    Ensures-bind
                      (write_panic-Granted es' tt
                        (granted raw value nonce ready now read is_value valid))
                      (λ _. Ensures-raise AnyUnit (λ _ _. ⊥) Any _ (λ s p. p))))))))))))
    where
      swap :
          {A : Type 0} {P : T → Type 0} {C : Type 0} {Q : A → T → Type 0} {m : Exec T A}
          → (C → Ensures P Q Any m)
          → Ensures (λ s. P s × C) Q Any m
      swap k = Ensures-given k

  trigger-Granted : Ensures (Is []) (λ _ _. ⊥) Any (trigger target base_boot operation_id)
  unfolding trigger
  trigger-Granted = Ensures-bind (monotonic-Is [] tt) (λ started.
      let es = timed started ∷ [] in
      Ensures-bind (call-Is es tt _) (λ boot. Ensures-bind (call-Is es tt _) (λ _.
        Ensures-bind (call-Is es tt _) (λ _. Ensures-bind (call-Is es tt _) (λ _.
          Ensures-bind (monotonic-Is es tt) (λ ready.
            Ensures-bind (ask-Is (timed ready ∷ es) tt _)
              (λ nonce. after_offer nonce started ready boot)))))))

  -- Whatever the target and the controller do, the worker never returns. It emits one nonce at
  -- most, after a reading of the clock, reads one grant at most, after the nonce, and calls the
  -- write of the panic once at most, after the grant; and it calls it only if the grant is a
  -- dictionary with the emitted nonce, the operation and the action, in 1024 bytes at most, and the
  -- clock was read within eight seconds of the reading before the nonce.
  pub trigger-once :
      (s : Worker target.State)
      → s.events ≡ []
      → let (o, s') = trigger target base_boot operation_id s in
        Granted target operation_id s'.events × ((e : Error) × (o ≡ raised e))
  trigger-once s h = ended (trigger target base_boot operation_id s) (trigger-Granted.at s h)
    where
      ended :
          (r : Outcome Unit × T)
          → Post (λ _ _. ⊥) Any r
          → Granted target operation_id r.1.events × ((e : Error) × (r.0 ≡ raised e))
      ended (returned u, t) p = absurd p
      ended (raised e, t) p = (p, (e, refl))
