-- ===== src/Watchdog/Channel/Traces.antt =====
-- The traces of a controller that sends at most one grant.
use homelab_server_configs.Prelude.{Option, some, ℕ, ◌≡◌, ◌-◌, ◌+◌, ◌≤◌, String, List, [], ◌∷◌}
use homelab_server_configs.Prelude.Exec.{Outcome, returned}
use homelab_server_configs.Prelude.Json.{Json}
use homelab_server_configs.Watchdog.Channel.{
  Peer, Event, armed, contacted, stamped, dated, readied, attested, submitted, granted,
}
use homelab_server_configs.Watchdog.Operator.Checked.{IsReady, HasOffset, IsAttested}

-- The health check began ten seconds ago at most; `started` is its lower bound and two seconds.
abbrev pub IsHealthy : ℕ → ℕ → Type 0
IsHealthy started now = (started ≤ now + 2000) × (now + 2000 ≤ started + 10000)

-- What the receipt of a submission needs, from the readings before it: the launch, the worker's line,
-- the time of the health check, the operator's record, its hour, and the moment.
abbrev pub IsSubmission : Peer → String → ℕ → List ℕ → ℕ → Json → ℕ → ℕ → ℕ → ℕ → Type 0
IsSubmission peer digest launched line now operator clock moment healthy m =
    ((offset : ℕ) × HasOffset peer.number (peer.parse_json line) offset
      × IsHealthy (launched + offset) now
      × (healthy ≡ launched + offset - 2000))
    × IsAttested peer.number digest operator clock
    × (m ≡ moment)

-- The traces of a controller.
abbrev pub Sent : Peer → String → List Event → Type 0
Sent peer digest [] = Unit
Sent peer digest (armed ∷ []) = Unit
Sent peer digest (stamped launched ∷ armed ∷ []) = Unit
Sent peer digest (contacted ∷ stamped launched ∷ armed ∷ []) = Unit
Sent peer digest (readied line ∷ contacted ∷ stamped launched ∷ armed ∷ []) = Unit
Sent peer digest (stamped now ∷ readied line ∷ contacted ∷ stamped launched ∷ armed ∷ []) = Unit
Sent peer digest
      (attested operator ∷ stamped now ∷ readied line ∷ contacted ∷ stamped launched ∷ armed ∷ []) =
    Unit
Sent peer digest
      (dated clock
        ∷ attested operator
        ∷ stamped now
        ∷ readied line
        ∷ contacted
        ∷ stamped launched
        ∷ armed
        ∷ []) =
    Unit
Sent peer digest
      (stamped moment
        ∷ dated clock
        ∷ attested operator
        ∷ stamped now
        ∷ readied line
        ∷ contacted
        ∷ stamped launched
        ∷ armed
        ∷ []) =
    Unit
Sent peer digest
      (submitted healthy m
        ∷ stamped moment
        ∷ dated clock
        ∷ attested operator
        ∷ stamped now
        ∷ readied line
        ∷ contacted
        ∷ stamped launched
        ∷ armed
        ∷ []) =
    IsSubmission peer digest launched line now operator clock moment healthy m
Sent peer digest
      (granted nonce
        ∷ submitted healthy m
        ∷ stamped moment
        ∷ dated clock
        ∷ attested operator
        ∷ stamped now
        ∷ readied line
        ∷ contacted
        ∷ stamped launched
        ∷ armed
        ∷ []) =
    IsReady (peer.parse_json line) nonce
    × IsSubmission peer digest launched line now operator clock moment healthy m
Sent peer digest _ = ⊥

-- A grant was written, after the receipt of this submission.
abbrev pub IsGranted : ℕ → ℕ → List Event → Type 0
IsGranted healthy moment (granted nonce ∷ submitted h m ∷ es) = (healthy ≡ h) × (moment ≡ m)
IsGranted _ _ _ = ⊥

-- What a call returns fits the trace: a submission is returned only where its grant was written.
abbrev pub Submits : Outcome (Option (ℕ × ℕ)) → List Event → Type 0
Submits (returned (some (healthy, moment))) es = IsGranted healthy moment es
Submits _ es = Unit
