-- ===== src/Watchdog/Channel/Once.antt =====
-- The trace of `trigger_channel`: two receipts, the worker's line and one attempt to write a grant.
use homelab_server_configs.Prelude.{ℕ, String, Bool, Option, none, some, List, ◌⊎◌}
use homelab_server_configs.Prelude.Exec
use homelab_server_configs.Prelude.Exec.{
  Error, Outcome, returned, raised, Exec, raise, Post-const, Post-same, Post-cases, Post-returned,
  and_then-returned, Ensures-require, Ensures-given,
}
use homelab_server_configs.Prelude.Exec.Chain.{◌>>=◌, ◌>>◌}
use homelab_server_configs.Watchdog.Channel.{Peer, Event, Channel}
use homelab_server_configs.Watchdog.Channel.Traces.{Sent, IsGranted}
use homelab_server_configs.Watchdog.Channel.Granting

module _ (peer : Peer) (digest : String) where
  -- A result is returned only with the grant.
  abbrev Kind : Option (ℕ × ℕ) → Channel peer.State → Type 0
  Kind none s = Sent peer digest s.events
  Kind (some r) s = Sent peer digest s.events × IsGranted r.0 r.1 s.events

module _ (peer : Peer) (digest : String) (launched : ℕ) where
  abbrev C : Type 0
  C = Channel peer.State

  abbrev Any : Error → C → Type 0
  Any = Granting.Any peer digest

  abbrev Fits : (C → Type 0) → Type 0
  Fits = Granting.Fits peer digest

  abbrev Done : C → Type 0
  Done = Granting.Done peer digest

  -- The worker was started, and nothing was submitted.
  abbrev Begun : C → Type 0
  Begun = Granting.Has peer digest (Granting.begun peer digest launched) (Granting.Open peer digest)

  -- Between two events of the loop: no line was taken, or the grant was written.
  abbrev Att : C → Type 0
  Att s = Begun s ⊎ Done s

  -- What holds after the loop, by how it ended.
  abbrev Over : Outcome Bool → C → Type 0
  Over (returned enough) s = Att s
  Over (raised e) s = Sent peer digest s.events

-- The whole call.
module _ (peer : Peer) (digest : String) where
  abbrev T : Type 0
  T = Channel peer.State

  abbrev Failed : Error → T → Type 0
  Failed = Granting.Any peer digest

  -- Before the worker is started nothing holds of the state but its trace.
  abbrev First : List Event → T → Type 0
  First es = Granting.Has peer digest es (λ _ _. Unit)
