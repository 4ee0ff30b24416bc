-- ===== src/Protection/Supervisor/Recovery.antt =====
-- What `recover_locked` runs, and after which answer of systemd.
use homelab_server_configs.Prelude.{
  ℕ, zero, suc, String, Bool, true, false, not, Option, none, some, List, [], ◌∷◌, ◌≡◌, refl, ◌⊎◌,
  inl, leb, ltb, if◌then◌else◌,
}
use homelab_server_configs.Prelude.Exec
use homelab_server_configs.Prelude.Exec.{
  Error, Outcome, returned, raised, Exec, pure, catch, Post, Post-same, Post-returned, Post-const,
  Ensures, Ensures-pure, Ensures-mono, Ensures-bind, Ensures-catch, Ensures-from, Ensures-if,
}
use homelab_server_configs.Prelude.Exec.Chain.{◌>>=◌, ◌>>◌}
use homelab_server_configs.Protection.Supervisor.{
  preflight, recovering, manual_intervention, StateFile, Settings, Host, Event, ran, controlled,
  stored, Node, is_quiet, is_among, phase_eq, ask, try_call, command, control, write, quiesce,
  within_budget, run_all, resume_all, eligible, recover_locked, state_query,
}

-- Some query of the service was answered by "inactive" or "failed".
abbrev pub SeenQuiet : Settings → List Event → Type 0
SeenQuiet config [] = ⊥
SeenQuiet config (controlled argv reply ∷ es) =
    ((argv ≡ state_query config)
      × ((answer : ℕ × List ℕ) × (reply ≡ returned answer) × (is_quiet answer ≡ true)))
    ⊎ SeenQuiet config es
SeenQuiet config (ran argv status ∷ es) = SeenQuiet config es
SeenQuiet config (stored st o ∷ es) = SeenQuiet config es

-- Each command was run after such an answer.
abbrev pub QuietFirst : Settings → List Event → Type 0
QuietFirst config [] = Unit
QuietFirst config (ran argv status ∷ es) = SeenQuiet config es × QuietFirst config es
QuietFirst config (controlled argv reply ∷ es) = QuietFirst config es
QuietFirst config (stored st o ∷ es) = QuietFirst config es

abbrev OkQuiet : Settings → List Event → Type 0
OkQuiet config es = QuietFirst config es × SeenQuiet config es

module _ (host : Host) (config : Settings) where
  abbrev pub N : Type 0
  N = Node host.State

  -- Rules for the calls of the host, for assertions about the events.
  module _ (R : List Event → Type 0) where
    abbrev pub At : N → Type 0
    At n = R n.events

    abbrev pub Left : Error → N → Type 0
    Left _ n = R n.events

    pub Ensures-ask :
        {A : Type 0} (f : host.State → A × host.State)
        → Ensures At (λ _. At) Left (ask host config f)
    unfolding ask
    Ensures-ask f = record { at = λ n p. p }

    pub Ensures-try_call :
        {A : Type 0} (f : host.State → Outcome A × host.State)
        → Ensures At (λ _. At) Left (try_call host config f)
    unfolding try_call
    Ensures-try_call f = record { at = λ n p. let (o, w) = f n.world in Post-const At o _ p }

    pub Ensures-command :
        (Q : ℕ → List Event → Type 0) (argv : List String) (timeout : ℕ)
        → ((es : List Event) (status : ℕ) → R es → Q status (ran argv status ∷ es))
        → Ensures At (λ status n. Q status n.events) Left (command host config argv timeout)
    unfolding command
    Ensures-command Q argv timeout h = record { at = λ n p. h n.events _ p }

    pub Ensures-control :
        (Q : ℕ × List ℕ → List Event → Type 0) (argv : List String)
        → ((es : List Event) (reply : ℕ × List ℕ)
            → R es
            → Q reply (controlled argv (returned reply) ∷ es))
        → ((es : List Event) (e : Error) → R es → R (controlled argv (raised e) ∷ es))
        → Ensures At (λ reply n. Q reply n.events) Left (control host config argv)
    unfolding control
    Ensures-control Q argv h k = record { at = λ n p. answered (host.control argv n.world).0 _ n p }
      where
        answered :
            (o : Outcome (ℕ × List ℕ)) (w : host.State) (n : N)
            → R n.events
            → Post
                (λ reply n. Q reply n.events)
                Left
                (o, record n { world = w; events = controlled argv o ∷ n.events })
        answered (returned reply) w n p = h n.events reply p
        answered (raised e) w n p = k n.events e p

    pub Ensures-write :
        (Q : List Event → Type 0) (E : List Event → Type 0) (st : StateFile)
        → ((es : List Event) → R es → Q (stored st (returned tt) ∷ es))
        → ((es : List Event) (e : Error) → R es → E (stored st (raised e) ∷ es))
        → Ensures At (λ _ n. Q n.events) (λ _ n. E n.events) (write host config st)
    unfolding write
    Ensures-write Q E st h k = record {
      at = λ n p. let (o, w) = host.store st n.world in pick o w n p;
    }
      where
        pick :
            (o : Outcome Unit) (w : host.State) (n : N)
            → R n.events
            → Post
                (λ _ n. Q n.events)
                (λ _ n. E n.events)
                (o, record n { world = w; events = stored st o ∷ n.events })
        pick (returned u) w n p = h n.events p
        pick (raised e) w n p = k n.events e p

  quiesce-quiet :
      (fuel deadline : ℕ)
      → Ensures
          (At (QuietFirst config))
          (λ quiet n. QuietFirst config n.events × (quiet ≡ some true → SeenQuiet config n.events))
          (Left (QuietFirst config))
          (quiesce host config fuel deadline)
  unfolding quiesce
  quiesce-quiet zero deadline = Ensures-pure _ _ _ _ (λ n p. (p, λ e. cc))
  quiesce-quiet (suc fuel) deadline =
      Ensures-bind
        (Ensures-control (QuietFirst config)
          (λ reply es. QuietFirst config es × (is_quiet reply ≡ true → SeenQuiet config es)) _
          (λ es reply p. (p, λ e. inl (refl, (reply, refl, e)))) (λ es e p. p))
        (λ reply. after (is_quiet reply) (quiesce-quiet fuel deadline))
    where
      timed :
          (late : Bool)
          → Ensures
              (At (QuietFirst config))
              (λ quiet n.
                QuietFirst config n.events × (quiet ≡ some true → SeenQuiet config n.events))
              (Left (QuietFirst config))
              (quiesce host config fuel deadline)
          → Ensures
              (At (QuietFirst config))
              (λ quiet n.
                QuietFirst config n.events × (quiet ≡ some true → SeenQuiet config n.events))
              (Left (QuietFirst config))
              (if late
                then pure (some false)
                else Exec.◌>>◌
                    (ask host config (λ w. (tt, host.sleep 100 w)))
                    (quiesce host config fuel deadline))
      timed true ih = Ensures-pure _ _ _ _ (λ n p. (p, λ e. cc))
      timed false ih = Ensures-bind (Ensures-ask (QuietFirst config) _) (λ _. ih)

      after :
          (quiet : Bool)
          → Ensures
              (At (QuietFirst config))
              (λ q n. QuietFirst config n.events × (q ≡ some true → SeenQuiet config n.events))
              (Left (QuietFirst config))
              (quiesce host config fuel deadline)
          → Ensures
              (λ n. QuietFirst config n.events × (quiet ≡ true → SeenQuiet config n.events))
              (λ q n. QuietFirst config n.events × (q ≡ some true → SeenQuiet config n.events))
              (Left (QuietFirst config))
              (if quiet
                then pure (some true)
                else Exec.◌>>=◌ (ask host config host.monotonic) (λ now.
                  if leb deadline now
                  then pure (some false)
                  else Exec.◌>>◌
                      (ask host config (λ w. (tt, host.sleep 100 w)))
                      (quiesce host config fuel deadline)))
      after true ih = Ensures-pure _ _ _ _ (λ n p. (p.0, λ _. p.1 refl))
      after false ih =
          Ensures-from (λ n p. p.0)
            (Ensures-bind (Ensures-ask (QuietFirst config) _) (λ now. timed (leb deadline now) ih))

  within_budget-ok :
      (recovery_deadline : ℕ) (argv : List String) (maximum : ℕ)
      → Ensures
          (At (OkQuiet config))
          (λ _. At (OkQuiet config))
          (Left (OkQuiet config))
          (within_budget host config recovery_deadline argv maximum)
  unfolding within_budget
  within_budget-ok recovery_deadline argv maximum =
      Ensures-bind (Ensures-ask (OkQuiet config) _) (λ now. branch (ltb now recovery_deadline) _)
    where
      branch :
          (b : Bool) (t : ℕ)
          → Ensures
              (At (OkQuiet config))
              (λ _. At (OkQuiet config))
              (Left (OkQuiet config))
              (if b then command host config argv t else pure 124)
      branch true t =
          Ensures-command (OkQuiet config) (λ _. OkQuiet config) argv t
            (λ es status p. ((p.1, p.0), p.1))
      branch false t = Ensures-pure _ _ _ _ (λ n p. p)

  run_all-ok :
      (recovery_deadline maximum : ℕ) (commands : List (List String))
      → Ensures
          (At (OkQuiet config))
          (λ _. At (OkQuiet config))
          (Left (OkQuiet config))
          (run_all host config recovery_deadline maximum commands)
  unfolding run_all
  run_all-ok recovery_deadline maximum [] = Ensures-pure _ _ _ _ (λ n p. p)
  run_all-ok recovery_deadline maximum (argv ∷ rest) =
      Ensures-bind (within_budget-ok recovery_deadline argv maximum) (λ status.
        Ensures-bind (run_all-ok recovery_deadline maximum rest)
          (λ statuses. Ensures-pure _ _ _ _ (λ n p. p)))

module _ (host : Host) (config : Settings) where
  abbrev First : Node host.State → Type 0
  First n = QuietFirst config n.events

  abbrev Failed : Error → Node host.State → Type 0
  Failed _ n = QuietFirst config n.events

  -- A step after the answer may end in either way.
  quiet :
      {A : Type 0} {Q : A → Node host.State → Type 0} {m : Exec (Node host.State) A}
      → Ensures (At host config (OkQuiet config)) Q (Left host config (OkQuiet config)) m
      → Ensures (At host config (OkQuiet config)) Q Failed m
  quiet e = Ensures-mono (λ n p. p) (λ _ n p. p) (λ _ n p. p.0) e

  statuses-ok :
      (paused : Bool) (deadline maximum : ℕ)
      → Ensures
          (At host config (OkQuiet config))
          (λ _. At host config (OkQuiet config))
          (Left host config (OkQuiet config))
          (if paused then run_all host config deadline maximum config.resume_commands else pure [])
  statuses-ok true deadline maximum = run_all-ok host config deadline maximum config.resume_commands
  statuses-ok false deadline maximum = Ensures-pure _ _ _ _ (λ n p. p)

  resume_all-ok :
      (deadline : ℕ) (st : StateFile) (root : String) (paused : Bool)
      → Ensures
          (At host config (OkQuiet config))
          (λ _. First)
          Failed
          (resume_all host config deadline st root paused)
  unfolding resume_all
  resume_all-ok deadline st root paused = do
    statuses ← quiet (statuses-ok paused deadline _)
    health ← quiet (within_budget-ok host config deadline config.health_argv _)
    cleaned ← quiet (
        Ensures-catch
          (do
            Ensures-try_call host config (OkQuiet config) _
            Ensures-pure _ (λ _. At host config (OkQuiet config)) _ _ (λ n p. p))
          (λ e. Ensures-pure _ _ _ _ (λ n p. p)))
    Ensures-write host config (OkQuiet config) (QuietFirst config) (QuietFirst config) _
        (λ es p. p.0) (λ es e p. p.0)
    Ensures-control host config (QuietFirst config) (λ _. QuietFirst config) _ (λ es reply p. p)
        (λ es e p. p)
    Ensures-pure _ _ _ _ (λ n p. p)

  after_quiesce :
      (quiet : Option Bool) (deadline : ℕ) (st claimed : StateFile) (root : String)
      → Ensures {A = Option ℕ}
          (λ (n : Node host.State).
            QuietFirst config n.events × (quiet ≡ some true → SeenQuiet config n.events))
          (λ _. First)
          Failed
          (elim quiet [
            | none ↦ pure none
            | some false ↦
                Exec.◌>>◌
                  (write host config (record claimed {
                    phase = manual_intervention;
                    reason = some "backup_not_quiescent";
                  }))
                  (pure (some 1))
            | some true ↦
                Exec.◌>>=◌
                  (resume_all host config deadline claimed root (not (phase_eq st.phase preflight)))
                  (λ status. pure (some status))
          ])
  after_quiesce none deadline st claimed root = Ensures-pure _ _ _ _ (λ n p. p.0)
  after_quiesce (some false) deadline st claimed root = do
    Ensures-from (λ n p. p.0)
        (Ensures-write host config (QuietFirst config) (QuietFirst config) (QuietFirst config) _
          (λ es p. p) (λ es e p. p))
    Ensures-pure _ _ _ _ (λ n p. p)
  after_quiesce (some true) deadline st claimed root = do
    status ←
        Ensures-from (λ n p. (p.0, p.1 refl))
          (resume_all-ok deadline claimed root (not (phase_eq st.phase preflight)))
    Ensures-pure _ _ _ _ (λ n p. p)

  recover_locked-ok :
      (fuel : ℕ) (timer : Bool)
      → Ensures First (λ _. First) Failed (recover_locked host config fuel timer)
  unfolding recover_locked
  recover_locked-ok fuel timer = do
    started ← Ensures-ask host config (QuietFirst config) _
    st ← Ensures-try_call host config (QuietFirst config) _
    Ensures-if (not (is_among (eligible host config timer) st.phase))
        (λ _. Ensures-pure _ _ _ _ (λ n p. p))
        (λ _. do
          root ← Ensures-try_call host config (QuietFirst config) _
          Ensures-write host config (QuietFirst config) (QuietFirst config) (QuietFirst config) _
              (λ es p. p) (λ es e p. p)
          Ensures-control host config (QuietFirst config) (λ _. QuietFirst config) _
              (λ es reply p. p) (λ es e p. p)
          now ← Ensures-ask host config (QuietFirst config) _
          quiet ← quiesce-quiet host config fuel _
          after_quiesce quiet _ st (record st { phase = recovering }) root)

  -- However the host behaves, calls of systemd that raise included, a recovery that starts with an
  -- empty trace runs a resume or health command only after the query of the state of the backup
  -- service returned zero and, stripped, "inactive" or "failed".
  pub recover_locked-QuietFirst :
      (fuel : ℕ) (timer : Bool) (n : Node host.State)
      → n.events ≡ []
      → QuietFirst config (recover_locked host config fuel timer n).1.events
  recover_locked-QuietFirst fuel timer n h =
      Post-same {A = Option ℕ} First (recover_locked host config fuel timer n)
        ((recover_locked-ok fuel timer).at n (rw h tt))
