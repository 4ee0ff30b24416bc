-- ===== src/Watchdog/Channel/Granting.antt =====
-- From the worker's line to the grant: each check and each receipt comes before it.
use homelab_server_configs.Prelude.{
  ℕ, ◌+◌, ◌-◌, String, Bool, true, Option, none, some, List, [], ◌∷◌, ◌≡◌, refl, ap, leb→le,
  &&-parts,
}
use homelab_server_configs.Prelude.Exec
use homelab_server_configs.Prelude.Exec.{
  Error, Outcome, returned, raised, Exec, pure, raise, lift, Post, Post-const, Post-same,
  Post-cases, Post-returned, and_then-returned, Ensures, Ensures-pure, Ensures-raise, Ensures-lift,
  Ensures-gets, Ensures-modify, Ensures-require, Ensures-given, Ensures-if, Ensures-from,
  Ensures-mono,
}
use homelab_server_configs.Prelude.Exec.Chain.{◌>>=◌, ◌>>◌}
use homelab_server_configs.Prelude.Json.{Json}
use homelab_server_configs.Watchdog.Channel.{
  Peer, Event, armed, contacted, stamped, dated, readied, attested, submitted, granted, Channel,
  ask, try_call, log_call, log_result, result_events, stamp, save_ready, read_operator, date,
  create_submitted, write_grant, send_grant, submit,
}
use homelab_server_configs.Watchdog.Operator.Checked.{
  IsReady, ready_nonce-returned, health_offset-returned, validate_operator-returned,
}
use homelab_server_configs.Watchdog.Channel.Traces.{IsSubmission, Sent, IsGranted}

module _ (peer : Peer) (digest : String) where
  abbrev pub C : Type 0
  C = Channel peer.State

  abbrev pub Any : Error → C → Type 0
  Any _ s = Sent peer digest s.events

  -- It keeps to the traces, and does not depend on the world.
  pub record Fits (P : C → Type 0) : Type 0 where
    pub steady : (s : C) (w : peer.State) → P s → P (record s { world = w })
    pub sent : (s : C) → P s → Sent peer digest s.events

  module _ (P : C → Type 0) (fits : Fits P) where
    pub ask-Fits :
        {A : Type 0} (f : peer.State → A × peer.State) → Ensures P (λ _. P) Any (ask peer f)
    unfolding ask
    ask-Fits f = record { at = λ s p. fits.steady s _ p }

    pub call-Fits :
        {A : Type 0} (f : peer.State → Outcome A × peer.State)
        → Ensures P (λ _. P) Any (try_call peer f)
    unfolding try_call
    call-Fits f = record {
      at = λ s p.
          Post-cases (λ _. P) Any (f s.world).0 (record s { world = (f s.world).1 })
            (λ a e. fits.steady s _ p) (λ _ _. fits.sent s p);
    }

    pub require-Fits :
        (b : Bool) (e : Error) → Ensures P (λ _ s. P s × (b ≡ true)) Any (Exec.require b e)
    require-Fits b e = Ensures-require P Any b e (λ s p _. fits.sent s p)

    lift-Fits :
        {A : Type 0} (o : Outcome A) → Ensures P (λ a s. P s × (o ≡ returned a)) Any (lift o)
    lift-Fits o = Ensures-lift P _ Any o (λ s p.
        Post-cases (λ a s. P s × (o ≡ returned a)) Any o s (λ a e. (p, e)) (λ _ _. fits.sent s p))

  -- The trace, and what holds of the submission and the lower bound that the state keeps.
  abbrev pub Has : List Event → (Option ℕ → ℕ → Type 0) → C → Type 0
  Has es R s = (s.events ≡ es) × R s.submission s.healthy

  pub Has-Fits :
      (es : List Event) (R : Option ℕ → ℕ → Type 0) → Sent peer digest es → Fits (Has es R)
  Has-Fits es R h = record { steady = λ s w p. p; sent = λ s p. rw p.0 h }

  -- No submission yet.
  abbrev pub Open : Option ℕ → ℕ → Type 0
  Open submission healthy = submission ≡ none

  pub log_call-Has :
      {A : Type 0} (e : Event) (es : List Event) (R : Option ℕ → ℕ → Type 0)
      → Sent peer digest (e ∷ es)
      → (f : peer.State → Outcome A × peer.State)
      → Ensures (Has es R) (λ _. Has (e ∷ es) R) Any (log_call peer e f)
  unfolding log_call
  log_call-Has e es R h f = record {
    at = λ s p.
        Post-cases (λ _. Has (e ∷ es) R) Any (f s.world).0
          (record s { world = (f s.world).1; events = e ∷ s.events })
          (λ _ _. (ap (λ es. e ∷ es) p.0, p.1)) (λ _ _. rw p.0 h);
  }

  pub log_result-Has :
      {A : Type 0} (g : A → Event) (es : List Event) (R : Option ℕ → ℕ → Type 0)
      → Sent peer digest es
      → (f : peer.State → Outcome A × peer.State)
      → Ensures (Has es R) (λ a. Has (g a ∷ es) R) Any (log_result peer g f)
  unfolding log_result
  log_result-Has {A} g es R h f = record { at = λ s p. ended (f s.world).0 (f s.world).1 s p }
    where
      ended :
          (o : Outcome A) (w : peer.State) (s : C)
          → Has es R s
          → Post
              (λ a. Has (g a ∷ es) R)
              Any
              (o, record s { world = w; events = result_events peer g o s.events })
      ended (returned a) w s p = (ap (λ es. g a ∷ es) p.0, p.1)
      ended (raised e) w s p = rw p.0 h

  -- A submission that was made, with its grant.
  abbrev pub Done : C → Type 0
  Done s =
      Sent peer digest s.events
      × ((moment : ℕ) × (s.submission ≡ some moment) × IsGranted s.healthy moment s.events)

  abbrev pub begun : ℕ → List Event
  begun launched = contacted ∷ stamped launched ∷ armed ∷ []

  -- A submission of this moment.
  abbrev Held : ℕ → ℕ → Option ℕ → ℕ → Type 0
  Held bound moment submission healthy = (submission ≡ some moment) × (healthy ≡ bound)

  -- The trace of what was read before the submission.
  abbrev readings : ℕ → List ℕ → ℕ → Json → ℕ → ℕ → List Event
  readings launched line now operator clock moment =
      stamped moment ∷ dated clock ∷ attested operator ∷ stamped now ∷ readied line ∷ begun launched

  -- What follows the last check.
  send_grant-Done :
      (nonce : String) (launched : ℕ) (line : List ℕ) (now : ℕ) (operator : Json)
      (clock moment healthy : ℕ)
      → IsReady (peer.parse_json line) nonce
      → IsSubmission peer digest launched line now operator clock moment healthy moment
      → Ensures
          (Has (readings launched line now operator clock moment) (Held healthy moment))
          (λ _. Done)
          Any
          (send_grant peer nonce healthy moment)
  unfolding send_grant create_submitted write_grant
  send_grant-Done nonce launched line now operator clock moment healthy ready facts = do
    let R = Held healthy moment
    let es = readings launched line now operator clock moment
    let es' = submitted healthy moment ∷ es
    let es'' = granted nonce ∷ es'
    let all = Has-Fits es'' R (ready, facts)
    log_result-Has (λ _. submitted healthy moment) es R tt _
    call-Fits (Has es' R) (Has-Fits es' R facts) _
    complete ← log_call-Has (granted nonce) es' R (ready, facts) _
    require-Fits (Has es'' R) all _ _
    Ensures-from (λ s p. p.0) (call-Fits (Has es'' R) all _)
    Ensures-modify _ _ _ _ (λ s p. (rw p.0 (ready, facts), (moment, p.1.0, rw p.0 (p.1.1, refl))))

  pub submit-Done :
      (launched : ℕ) (line : List ℕ)
      → Ensures (Has (begun launched) Open) (λ _. Done) Any (submit peer digest launched line)
  unfolding submit save_ready stamp read_operator date
  submit-Done launched line = do
    let es = begun launched
    let es' = readied line ∷ es
    let P = Has es' Open
    let at = Has-Fits es' Open tt
    nonce ← lift-Fits (Has es Open) (Has-Fits es Open tt) _
    Ensures-given (λ ready. do
      log_call-Has (readied line) es Open tt _
      call-Fits P at _
      call-Fits P at _
      offset ← lift-Fits P at _
      Ensures-given (λ has_offset. do
        now ← log_result-Has stamped es' Open tt _
        let es2 = stamped now ∷ es'
        require-Fits (Has es2 Open) (Has-Fits es2 Open tt) _ _
        Ensures-given (λ fresh. do
          operator ← log_result-Has attested es2 Open tt _
          clock ← log_result-Has dated (attested operator ∷ es2) Open tt _
          let es4 = dated clock ∷ attested operator ∷ es2
          valid ← lift-Fits (Has es4 Open) (Has-Fits es4 Open tt) _
          Ensures-given (λ is_valid. do
            moment ← log_result-Has stamped es4 Open tt _
            let healthy = launched + offset - 2000
            Ensures-modify _
                (λ _. Has (readings launched line now operator clock moment) (Held healthy moment))
                _ _ (λ s p. (p.0, (refl, refl)))
            let (low, high) = &&-parts _ _ fresh
            send_grant-Done nonce launched line now operator clock moment healthy
                (ready_nonce-returned (peer.parse_json line) nonce ready)
                (
                  (
                    offset,
                    health_offset-returned peer.number (peer.parse_json line) offset has_offset,
                    (leb→le _ _ low, leb→le _ _ high),
                    refl,
                  ),
                  validate_operator-returned peer.number operator digest clock is_valid,
                  refl,
                )))))
