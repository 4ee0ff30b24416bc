-- ===== src/Protection/Supervisor/Verdict.antt =====
-- What the status that `recover_locked` returns says of the commands that were run.
use homelab_server_configs.Prelude.{
  ℕ, String, Bool, true, false, Option, none, some, List, [], ◌∷◌, ◌≡◌, ◌⊎◌, ◌==◌, all, Every,
}
use homelab_server_configs.Prelude.Exec
use homelab_server_configs.Prelude.Exec.{Error, Outcome, returned, raised, Exec, Post, Ensures-from}
use homelab_server_configs.Protection.Supervisor.{
  preflight, recovered_failure, manual_intervention, StateFile, Settings, Host, Event, ran,
  controlled, stored, Node, is_among, phase_eq, eligible,
}

-- The newest state that was written, if the write succeeded.
abbrev pub newest_stored : List Event → Option StateFile
newest_stored [] = none
newest_stored (stored st (returned _) ∷ es) = some st
newest_stored (stored st (raised _) ∷ es) = none
newest_stored (ran argv status ∷ es) = newest_stored es
newest_stored (controlled argv reply ∷ es) = newest_stored es

-- The command was run, with status zero.
abbrev pub Succeeded : List Event → List String → Type 0
Succeeded [] argv = ⊥
Succeeded (ran line status ∷ es) argv = ((line ≡ argv) × (status ≡ 0)) ⊎ Succeeded es argv
Succeeded (controlled line reply ∷ es) argv = Succeeded es argv
Succeeded (stored st o ∷ es) argv = Succeeded es argv

-- A full recovery: its state, and the commands that it took; a backup that was not yet armed has
-- paused nothing.
abbrev pub Recovered : Settings → StateFile → StateFile → List Event → Type 0
Recovered config loaded st es =
    (st.phase ≡ recovered_failure)
    × (all (λ status. status == 0) st.resume_statuses ≡ true)
    × (st.health_status ≡ some 0)
    × (st.credential_cleanup ≡ some true)
    × ((phase_eq loaded.phase preflight ≡ true) ⊎ Every (Succeeded es) config.resume_commands)
    × Succeeded es config.health_argv

-- The newest write succeeded, and goes with the status.
abbrev pub Verdict : Settings → StateFile → ℕ → List Event → Type 0
Verdict config loaded status es =
    (st : StateFile) × (newest_stored es ≡ some st)
    × (((status ≡ 0) × Recovered config loaded st es)
        ⊎ ((status ≡ 1) × (st.phase ≡ manual_intervention)))

-- It stays true whatever is done next.
abbrev Lasting : (List Event → Type 0) → Type 0
Lasting R = (e : Event) (es : List Event) → R es → R (e ∷ es)

module _ (host : Host) (config : Settings) where
  abbrev N : Type 0
  N = Node host.State

  -- What the statuses of the resume commands say.
  abbrev Resumed : Bool → List ℕ → List Event → Type 0
  Resumed paused statuses es =
      all (λ status. status == 0) statuses ≡ true
      → (paused ≡ false) ⊎ Every (Succeeded es) config.resume_commands

  -- What the verdict rests on.
  abbrev Collected : Bool → List ℕ → ℕ → List Event → Type 0
  Collected paused statuses health es =
      Resumed paused statuses es × (health ≡ 0 → Succeeded es config.health_argv)

  abbrev Judged : Bool → ℕ → List Event → Type 0
  Judged paused status es =
      (st : StateFile) × (newest_stored es ≡ some st)
      × (((status ≡ 0)
            × (st.phase ≡ recovered_failure)
            × (all (λ status. status == 0) st.resume_statuses ≡ true)
            × (st.health_status ≡ some 0)
            × (st.credential_cleanup ≡ some true)
            × ((paused ≡ false) ⊎ Every (Succeeded es) config.resume_commands)
            × Succeeded es config.health_argv)
          ⊎ ((status ≡ 1) × (st.phase ≡ manual_intervention)))

  -- How a recovery of a loaded state ends.
  abbrev Ended : Bool → StateFile → Option ℕ → List Event → Type 0
  Ended timer loaded none es = Unit
  Ended timer loaded (some status) es =
      ((status ≡ 0) × (is_among (eligible host config timer) loaded.phase ≡ false) × (es ≡ []))
      ⊎ Verdict config loaded status es
