-- ===== src/Protection/Supervisor/Phases.antt =====
-- Which phases `run_locked` writes, and after which commands.
use homelab_server_configs.Prelude.{
  ℕ, String, Bool, true, false, not, List, [], ◌∷◌, ◌≡◌, refl, ◌⊎◌, inl, inr, arith, ◌==◌,
  if◌then◌else◌,
}
use homelab_server_configs.Prelude.Exec
use homelab_server_configs.Prelude.Exec.{
  Error, Outcome, returned, raised, Exec, pure, raise, catch, Post, Post-same, Post-const, Ensures,
  Ensures-pure, Ensures-raise, Ensures-mono, Ensures-bind, Ensures-catch, Ensures-require,
  Ensures-given, ◌>>=◌, ◌>>◌, Ensures-from,
}
use homelab_server_configs.Protection.Supervisor.{
  armed, complete, failed, StateFile, Settings, Host, Event, ran, controlled, stored, Node,
  phase_eq, append, or_raise, ask, try_call, command, control, write, check, on_error, finally,
  dispose_payload, complete_run, run_steps, end_run, run_locked,
}
use homelab_server_configs.Protection.Supervisor.Recovery.{
  Ensures-ask, Ensures-try_call, Ensures-command, Ensures-control, Ensures-write,
}

-- A command line that begins with `base` was run, with status zero.
abbrev pub Ran : List String → List Event → Type 0
Ran base [] = ⊥
Ran base (ran argv status ∷ es) =
    (((rest : List String) × (argv ≡ append base rest)) × (status ≡ 0)) ⊎ Ran base es
Ran base (controlled argv reply ∷ es) = Ran base es
Ran base (stored st o ∷ es) = Ran base es

-- Before "armed" was written the preparation had succeeded, and before "complete" the backup.
abbrev pub Earned : Settings → List Event → Type 0
Earned config [] = Unit
Earned config (stored st o ∷ es) =
    (phase_eq st.phase armed ≡ true → Ran config.prepare_argv es)
    × (phase_eq st.phase complete ≡ true → Ran config.ansible_argv es)
    × Earned config es
Earned config (ran argv status ∷ es) = Earned config es
Earned config (controlled argv reply ∷ es) = Earned config es

module _ (host : Host) (config : Settings) where
  abbrev P : Node host.State → Type 0
  P n = Earned config n.events

  abbrev E : Error → Node host.State → Type 0
  E _ n = Earned config n.events

  abbrev Kept : {A : Type 0} → Exec (Node host.State) A → Type 0
  Kept m = Ensures P (λ _. P) E m

  require-Kept : (b : Bool) (e : Error) → Kept (Exec.require b e)
  require-Kept b e =
      Ensures-mono (λ n p. p) (λ _ n p. p.0) (λ _ n p. p) (Ensures-require P E b e (λ n p _. p))

  ask-Kept : {A : Type 0} (f : host.State → A × host.State) → Kept (ask host config f)
  ask-Kept f = Ensures-ask host config (Earned config) f

  try_call-Kept :
      {A : Type 0} (f : host.State → Outcome A × host.State) → Kept (try_call host config f)
  try_call-Kept f = Ensures-try_call host config (Earned config) f

  command-Kept : (argv : List String) (t : ℕ) → Kept (command host config argv t)
  command-Kept argv t =
      Ensures-command host config (Earned config) (λ _. Earned config) argv t (λ es s p. p)

  control-Kept : (argv : List String) → Kept (control host config argv)
  control-Kept argv =
      Ensures-control host config (Earned config) (λ _. Earned config) argv (λ es r p. p)
        (λ es e p. p)

  -- A state that claims neither phase may always be written.
  write-Kept :
      (st : StateFile)
      → phase_eq st.phase armed ≡ false
      → phase_eq st.phase complete ≡ false
      → Kept (write host config st)
  write-Kept st na nc =
      Ensures-write host config (Earned config) (Earned config) (Earned config) st
        (λ es p. (λ e. absurd (ground arith), λ e. absurd (ground arith), p))
        (λ es e p. (λ e. absurd (ground arith), λ e. absurd (ground arith), p))

  -- A command that succeeded is on record for the phase that it earns.
  command-Ran :
      (base rest : List String) (t : ℕ)
      → Ensures P
          (λ status n. Earned config n.events × (status ≡ 0 → Ran base n.events))
          E
          (command host config (append base rest) t)
  command-Ran base rest t =
      Ensures-command host config (Earned config)
        (λ status es. Earned config es × (status ≡ 0 → Ran base es)) _ t
        (λ es status p. (p, λ e. inl ((rest, refl), e)))

  check-Kept : Kept (check host config)
  unfolding check
  check-Kept = Ensures-bind (try_call-Kept _) (λ st. Ensures-bind (try_call-Kept _) (λ _.
      Ensures-bind (ask-Kept _) (λ _.
        Ensures-bind (require-Kept _ _)
          (λ _. Ensures-bind (control-Kept _) (λ _. require-Kept _ _)))))

  dispose-Kept : (st : StateFile) (root : String) → Kept (dispose_payload host config st root)
  unfolding dispose_payload on_error
  dispose-Kept st root =
      Ensures-catch
        (Ensures-bind (try_call-Kept _) (λ _.
          Ensures-bind (command-Kept _ _)
            (λ _. Ensures-bind (require-Kept _ _) (λ _. try_call-Kept _))))
        (λ e. Ensures-bind (write-Kept _ refl refl) (λ _. Ensures-raise P (λ _. P) E e (λ n p. p)))

  -- The facts about the backup command survive what comes between it and the last write.
  abbrev Backed : ℕ → Node host.State → Type 0
  Backed rc n = Earned config n.events × (rc ≡ 0 → Ran config.ansible_argv n.events)

  abbrev BackedAt : ℕ → List Event → Type 0
  BackedAt rc es = Earned config es × (rc ≡ 0 → Ran config.ansible_argv es)

  backed :
      {A : Type 0} {m : Exec (Node host.State) A} (rc : ℕ)
      → Ensures (Backed rc) (λ _. Backed rc) (λ _. Backed rc) m
      → Ensures (Backed rc) (λ _. Backed rc) E m
  backed rc e = Ensures-mono (λ n p. p) (λ _ n p. p) (λ _ n p. p.0) e

  Backed-require :
      (rc : ℕ) (b : Bool) (e : Error) → Ensures (Backed rc) (λ _. Backed rc) E (Exec.require b e)
  Backed-require rc b e =
      Ensures-mono (λ n p. p) (λ _ n p. p.0) (λ _ n p. p)
        (Ensures-require (Backed rc) E b e (λ n p _. p.0))

  Backed-dispose :
      (rc : ℕ) (st : StateFile) (root : String)
      → Ensures (Backed rc) (λ _. Backed rc) (λ _. Backed rc) (dispose_payload host config st root)
  unfolding dispose_payload on_error
  Backed-dispose rc st root =
      Ensures-catch
        (Ensures-bind (Ensures-try_call host config (BackedAt rc) _) (λ _.
          Ensures-bind
            (Ensures-command host config (BackedAt rc) (λ _. BackedAt rc) _ _
              (λ es s p. (p.0, λ e. inr (p.1 e))))
            (λ _.
              Ensures-bind
                (Ensures-mono (λ n p. p) (λ _ n p. p.0) (λ _ n p. p)
                  (Ensures-require (Backed rc) (λ _. Backed rc) _ _ (λ n p _. p)))
                (λ _. Ensures-try_call host config (BackedAt rc) _))))
        (λ e.
          Ensures-bind
            (Ensures-write host config (BackedAt rc) (BackedAt rc) (BackedAt rc) _
              (λ es p. ((λ e. cc, λ e. cc, p.0), p.1)) (λ es e p. ((λ e. cc, λ e. cc, p.0), p.1)))
            (λ _. Ensures-raise _ _ _ _ (λ n p. p)))

  maybe-dispose :
      (b : Bool) (rc : ℕ) (st : StateFile) (root : String)
      → Ensures
          (Backed rc)
          (λ _. Backed rc)
          E
          (if b then dispose_payload host config st root else pure tt)
  maybe-dispose true rc st root = backed rc (Backed-dispose rc st root)
  maybe-dispose false rc st root = Ensures-pure _ _ _ _ (λ n p. p)

  completed-phase :
      (rc : ℕ) (es : List Event)
      → (rc ≡ 0 → Ran config.ansible_argv es)
      → phase_eq (if rc == 0 then complete else failed) complete ≡ true
      → Ran config.ansible_argv es
  completed-phase rc es h e = h (ground arith)

  not_armed : (b : Bool) → phase_eq (if b then complete else failed) armed ≡ true → ⊥
  not_armed true e = cc
  not_armed false e = cc

  complete_run-Kept :
      (root : String) (rc : ℕ) → Ensures (Backed rc) (λ _. P) E (complete_run host config root rc)
  unfolding complete_run
  complete_run-Kept root rc =
      Ensures-bind (backed rc (Ensures-try_call host config (BackedAt rc) _)) (λ st.
        Ensures-bind (Backed-require rc _ _) (λ _. Ensures-bind (maybe-dispose _ rc st root) (λ _.
          Ensures-bind (backed rc (Ensures-ask host config (BackedAt rc) _)) (λ now.
            Ensures-write host config (BackedAt rc) (Earned config) (Earned config) _
              (λ es p. (λ e. absurd (not_armed (rc == 0) e), completed-phase rc es p.1, p.0))
              (λ es _ p. (λ e. absurd (not_armed (rc == 0) e), completed-phase rc es p.1, p.0))))))

  abbrev Prepared : Node host.State → Type 0
  Prepared n = Earned config n.events × Ran config.prepare_argv n.events

  abbrev PreparedAt : List Event → Type 0
  PreparedAt es = Earned config es × Ran config.prepare_argv es

  prepared :
      {A : Type 0} {m : Exec (Node host.State) A}
      → Ensures Prepared (λ _. Prepared) (λ _. Prepared) m
      → Ensures Prepared (λ _. Prepared) E m
  prepared e = Ensures-mono (λ n p. p) (λ _ n p. p) (λ _ n p. p.0) e

  Prepared-require : (b : Bool) (e : Error) → Ensures Prepared (λ _. Prepared) E (Exec.require b e)
  Prepared-require b e =
      Ensures-mono (λ n p. p) (λ _ n p. p.0) (λ _ n p. p)
        (Ensures-require Prepared E b e (λ n p _. p.0))

  run_steps-Kept : (st : StateFile) (root : String) → Kept (run_steps host config st root)
  unfolding run_steps
  run_steps-Kept st root =
      Ensures-bind (Ensures-from (λ n p. p) (command-Ran config.prepare_argv (root ∷ []) _))
        (λ status.
          Ensures-bind
            (Ensures-mono (λ n p. p) (λ _ n p. (p.0.0, p.0.1 (ground arith))) (λ _ n p. p)
              (Ensures-require
                (λ n. Earned config n.events × (status ≡ 0 → Ran config.prepare_argv n.events)) E
                (status == 0) _ (λ n p _. p.0)))
            (λ _. Ensures-bind (prepared (Ensures-ask host config PreparedAt _)) (λ still_open.
              Ensures-bind (Prepared-require still_open _) (λ _.
                Ensures-bind (prepared (Ensures-try_call host config PreparedAt _)) (λ _.
                  Ensures-bind (prepared (Ensures-ask host config PreparedAt _)) (λ now.
                    Ensures-bind
                      (Ensures-write host config PreparedAt (Earned config) (Earned config) _
                        (λ es p. (λ _. p.1, λ e. cc, p.0)) (λ es _ p. (λ _. p.1, λ e. cc, p.0)))
                      (λ _. Ensures-bind (control-Kept _) (λ reply.
                        Ensures-bind (require-Kept _ _) (λ _. Ensures-bind check-Kept (λ _.
                          Ensures-bind (command-Ran config.ansible_argv _ _) (λ rc.
                            Ensures-bind (backed rc (Ensures-try_call host config (BackedAt rc) _))
                              (λ _.
                                Ensures-bind (complete_run-Kept root rc)
                                  (λ _. Ensures-pure P (λ _. P) E rc (λ n p. p))))))))))))))

  maybe_control-Kept :
      (b : Bool) (argv : List String)
      → Kept (if b then (control host config argv >> pure tt) else pure tt)
  maybe_control-Kept true argv =
      Ensures-bind (control-Kept argv) (λ _. Ensures-pure P (λ _. P) E tt (λ n p. p))
  maybe_control-Kept false argv = Ensures-pure P (λ _. P) E tt (λ n p. p)

  maybe_write-Kept :
      (b : Bool) (st : StateFile)
      → phase_eq st.phase armed ≡ false
      → phase_eq st.phase complete ≡ false
      → Kept (if b then write host config st else pure tt)
  maybe_write-Kept true st na nc = write-Kept st na nc
  maybe_write-Kept false st na nc = Ensures-pure P (λ _. P) E tt (λ n p. p)

  end_run-Kept : (root : String) → Kept (end_run host config root)
  unfolding end_run
  end_run-Kept root = Ensures-bind (try_call-Kept _) (λ st.
      Ensures-bind (maybe_control-Kept _ _) (λ _.
        Ensures-bind
          (Ensures-catch {E = E} (try_call-Kept _) (λ e. Ensures-bind (try_call-Kept _) (λ again.
            Ensures-bind (write-Kept _ refl refl) (λ _. Ensures-raise P (λ _. P) E e (λ n p. p)))))
          (λ _. maybe_write-Kept _ _ refl refl)))

  or_raise-Kept : {A : Type 0} (o : Outcome A) → Kept (or_raise o)
  or_raise-Kept (returned a) = record { at = λ n p. p }
  or_raise-Kept (raised e) = record { at = λ n p. p }

  finally-Kept :
      {A : Type 0} (m : Exec (Node host.State) A) (last : Exec (Node host.State) Unit)
      → Kept m
      → Kept last
      → Kept (finally host config m last)
  unfolding finally
  finally-Kept m last km kl =
      Ensures-bind
        (Ensures-catch {E = E} (Ensures-bind km (λ a. Ensures-pure P (λ _. P) E _ (λ n p. p)))
          (λ e. Ensures-pure P (λ _. P) E _ (λ n p. p)))
        (λ result. Ensures-bind kl (λ _. or_raise-Kept result))

  start-Kept :
      (window : Bool) (st : String → StateFile)
      → ((root : String) → phase_eq (st root).phase armed ≡ false)
      → ((root : String) → phase_eq (st root).phase complete ≡ false)
      → Kept (
          if not window
          then (try_call host config (host.skip_recorded "outside_window") >> pure 3)
          else do
            root ← try_call host config host.make_root
            write host config (st root)
            finally host config (run_steps host config (st root) root) (end_run host config root))
  start-Kept false st na nc =
      Ensures-bind (try_call-Kept _) (λ _. Ensures-pure P (λ _. P) E _ (λ n p. p))
  start-Kept true st na nc = Ensures-bind (try_call-Kept _) (λ root.
      Ensures-bind (write-Kept (st root) (na root) (nc root))
        (λ _. finally-Kept _ _ (run_steps-Kept (st root) root) (end_run-Kept root)))

  run_locked-Kept : (digest : String) → Kept (run_locked host config digest)
  unfolding run_locked
  run_locked-Kept digest = Ensures-bind (try_call-Kept _) (λ previous.
      Ensures-bind (require-Kept _ _)
        (λ _. Ensures-bind (ask-Kept _) (λ window. start-Kept window _ (λ _. refl) (λ _. refl))))

  -- However the host behaves and whichever other process changes the state file meanwhile, a
  -- scheduled run writes the phase "armed" only after the preparation has ended with status zero,
  -- and "complete" only after the backup command has.
  pub run_locked-Earned :
      (digest : String) (n : Node host.State)
      → n.events ≡ []
      → Earned config (run_locked host config digest n).1.events
  run_locked-Earned digest n h =
      Post-same {A = ℕ} P (run_locked host config digest n)
        ((run_locked-Kept digest).at n (rw h tt))
