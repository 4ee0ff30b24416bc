-- ===== src/Protection/Supervisor.antt =====
-- `Supervisor`: the phases of state.json, the guard, the recovery and one scheduled run.
-- The state file lives in the host, so that other processes may change it between two calls.
pub mod Recovery
pub mod Verdict
pub mod Phases
pub mod Polling
use homelab_server_configs.Prelude.{
  ℕ, zero, suc, ◌+◌, ◌-◌, ◌*◌, ◌/◌, String, Bool, true, false, not, ◌&&◌, ◌||◌, Option, none, some,
  List, [], ◌∷◌, ◌++◌, ◌==◌, leb, ltb, all, str_eq, one_of, map, text_append, if◌then◌else◌, codes,
  list_eq, is_empty,
}
use homelab_server_configs.Prelude.Exec.{
  Error, value_error, Outcome, returned, raised, Exec, pure, raise, modify, require, catch, ◌>>=◌,
  ◌>>◌,
}

pub data Phase : Type 0 where
  idle preflight armed recovering resumed recovered_failure manual_intervention complete failed :
      Phase

-- state.json; times are milliseconds, the deadline on the monotonic clock.
pub record StateFile : Type 0 where
  pub phase : Phase
  pub root : String
  pub configuration_sha256 : String
  pub deadline : ℕ
  pub reason : Option String
  pub resume_statuses : List ℕ
  pub health_status : Option ℕ
  pub credential_cleanup : Option Bool
  pub exit_status : Option ℕ
  pub last_success : Option ℕ
  pub previous_success : Option ℕ

-- The part of the configuration that the methods read; times in seconds, as they are written.
pub record Settings : Type 0 where
  pub prefix : String
  pub capture_seconds : ℕ
  pub recovery_seconds : ℕ
  pub run_seconds : ℕ
  pub prepare_argv : List String
  pub ansible_argv : List String
  pub health_argv : List String
  pub resume_commands : List (List String)
  pub dispose_successful_payload : Bool
  -- `json.dumps` of the variables for Ansible, for the root of the run.
  pub extra_vars : String → String

-- The clocks, the processes, systemd and the files. `command argv timeout` is the static method
-- `command`: an exit status, 124 for a timeout and 127 for a program that cannot be run.
pub record Host : Type 1 where
  pub State : Type 0
  pub monotonic : State → ℕ × State
  pub wall_clock : State → ℕ × State
  pub window_open : State → Bool × State
  pub command : List String → ℕ → State → ℕ × State
  -- `systemctl` with its arguments: the status and the output, or a call that did not end in time.
  pub control : List String → State → Outcome (ℕ × List ℕ) × State
  pub sleep : ℕ → State → State
  pub load : State → Outcome StateFile × State
  pub store : StateFile → State → Outcome Unit × State
  -- `tempfile.mkdtemp` with the checks of the staging directory.
  pub make_root : State → Outcome String × State
  pub check_binding : StateFile → State → Outcome String × State
  pub inputs_protected : String → State → Outcome Unit × State
  pub cleanup : String → State → Outcome Unit × State
  pub dispose : String → State → Outcome Unit × State
  pub skip_recorded : String → State → Outcome Unit × State
  -- A lock that is not waited for: `false` is `BlockingIOError`.
  pub try_lock : String → State → Bool × State

-- What was done, the newest first.
pub data Event : Type 0 where
  ran : List String → ℕ → Event
  controlled : List String → Outcome (ℕ × List ℕ) → Event
  stored : StateFile → Outcome Unit → Event

pub record Node (W : Type 0) : Type 0 where
  pub world : W
  pub events : List Event

abbrev pub phase_eq : Phase → Phase → Bool
phase_eq idle idle = true
phase_eq preflight preflight = true
phase_eq armed armed = true
phase_eq recovering recovering = true
phase_eq resumed resumed = true
phase_eq recovered_failure recovered_failure = true
phase_eq manual_intervention manual_intervention = true
phase_eq complete complete = true
phase_eq failed failed = true
phase_eq _ _ = false

abbrev pub is_among : List Phase → Phase → Bool
is_among [] p = false
is_among (q ∷ qs) p = phase_eq p q || is_among qs p

-- Python's `min` of two numbers.
abbrev smaller : ℕ → ℕ → ℕ
smaller a b = if leb a b then a else b

-- `bytes.strip()`
abbrev is_space : ℕ → Bool
is_space c = (c == 32) || (leb 9 c && leb c 13)

abbrev strip_start : List ℕ → List ℕ
strip_start [] = []
strip_start (c ∷ rest) = if is_space c then strip_start rest else c ∷ rest

abbrev strip_end : List ℕ → List ℕ
strip_end [] = []
strip_end (c ∷ rest) =
    let end = strip_end rest in if is_empty end && is_space c then [] else c ∷ end

abbrev pub is_quiet : ℕ × List ℕ → Bool
is_quiet (status, output) =
    let state = strip_end (strip_start output) in
    (status == 0) && (list_eq ◌==◌ state (codes "inactive") || list_eq ◌==◌ state (codes "failed"))

abbrev pub first_some : Option ℕ → Option ℕ → Option ℕ
first_some (some n) other = some n
first_some none other = other

abbrev pub or_raise : {S A : Type 0} → Outcome A → Exec S A
or_raise (returned a) s = (returned a, s)
or_raise (raised e) s = (raised e, s)

abbrev pub append : List String → List String → List String
append xs ys = xs ++ ys

-- The query of the backup service.
abbrev pub state_query : Settings → List String
state_query config =
    "show" ∷ text_append config.prefix ".service" ∷ "--property=ActiveState" ∷ "--value" ∷ []

module _ (host : Host) (config : Settings) where
  abbrev pub unit_name : String → String
  unit_name suffix = text_append config.prefix suffix

  abbrev pub N : Type 0
  N = Node host.State

  -- A call of the host that leaves no event.
  pub ask : {A : Type 0} → (host.State → A × host.State) → Exec N A
  ask f n = let (a, w) = f n.world in (returned a, record n { world = w })

  pub try_call : {A : Type 0} → (host.State → Outcome A × host.State) → Exec N A
  try_call f n = let (o, w) = f n.world in (o, record n { world = w })

  pub command : List String → ℕ → Exec N ℕ
  command argv timeout n =
      let (status, w) = host.command argv timeout n.world in
      (returned status, record n { world = w; events = ran argv status ∷ n.events })

  pub control : List String → Exec N (ℕ × List ℕ)
  control argv n =
      let (reply, w) = host.control argv n.world in
      (reply, record n { world = w; events = controlled argv reply ∷ n.events })

  -- `self.write(state)`
  pub write : StateFile → Exec N Unit
  write st n =
      let (o, w) = host.store st n.world in
      (o, record n { world = w; events = stored st o ∷ n.events })

  pub check : Exec N Unit
  unfolding ask try_call control
  check = do
    st ← try_call host.load
    root ← try_call (host.check_binding st)
    now ← ask host.monotonic
    require (phase_eq st.phase armed && ltb now st.deadline) (value_error "guard_not_armed")
    reply ← control ("is-active" ∷ "--quiet" ∷ unit_name "-guard.timer" ∷ [])
    require (reply.0 == 0) (value_error "guard_not_active")

  pub recovered : Exec N Unit
  unfolding ask try_call control command write
  recovered = do
    health ← command config.health_argv (config.recovery_seconds * 1000)
    require (health == 0) (value_error "health_failed")
    st ← try_call host.load
    root ← try_call (host.check_binding st)
    now ← ask host.monotonic
    require (phase_eq st.phase armed && ltb now st.deadline) (value_error "guard_already_due")
    write (record st { phase = resumed })
    reply ← control ("stop" ∷ unit_name "-guard.timer" ∷ [])
    require (reply.0 == 0) (value_error "guard_disarm_failed")

  -- `while True`: the backup service is asked for its state until it is quiet or the deadline has
  -- passed. The fuel is the number of rounds.
  pub quiesce : ℕ → ℕ → Exec N (Option Bool)
  unfolding ask control
  quiesce zero deadline = pure none
  quiesce (suc fuel) deadline = do
    reply ← control (state_query config)
    if is_quiet reply then pure (some true) else do
      now ← ask host.monotonic
      if leb deadline now
          then pure (some false)
          else do ask (λ w. (tt, host.sleep 100 w)); quiesce fuel deadline

  -- `within_budget(argv, maximum)`
  pub within_budget : ℕ → List String → ℕ → Exec N ℕ
  unfolding ask command
  within_budget recovery_deadline argv maximum = do
    now ← ask host.monotonic
    if ltb now recovery_deadline
        then command argv (smaller maximum (recovery_deadline - now))
        else pure 124

  pub run_all : ℕ → ℕ → List (List String) → Exec N (List ℕ)
  unfolding within_budget
  run_all recovery_deadline maximum [] = pure []
  run_all recovery_deadline maximum (argv ∷ rest) = do
    status ← within_budget recovery_deadline argv maximum
    statuses ← run_all recovery_deadline maximum rest
    pure (status ∷ statuses)

  -- What follows once the backup service is quiet.
  pub resume_all : ℕ → StateFile → String → Bool → Exec N ℕ
  unfolding run_all within_budget try_call write control
  resume_all recovery_deadline st root paused_possible = do
    statuses ←
        if paused_possible
        then run_all recovery_deadline (config.recovery_seconds * 1000 / 8) config.resume_commands
        else pure []
    health ← within_budget recovery_deadline config.health_argv (config.recovery_seconds * 1000)
    cleaned ← catch (do try_call (host.cleanup root); pure true) (λ e. pure false)
    let good = all (λ status. status == 0) statuses && (health == 0) && cleaned
    write (record st {
      phase = if good then recovered_failure else manual_intervention;
      resume_statuses = statuses;
      health_status = some health;
      credential_cleanup = some cleaned;
    })
    control ("stop" ∷ unit_name "-guard.timer" ∷ [])
    pure (if good then 0 else 1)

  pub eligible : Bool → List Phase
  eligible timer =
      if timer then armed ∷ recovering ∷ [] else preflight ∷ armed ∷ recovering ∷ resumed ∷ []

  -- `recover_locked(timer)` with `fuel` rounds of polling; `none` is a poll that has not ended.
  unfoldable pub recover_locked : ℕ → Bool → Exec N (Option ℕ)
  unfolding ask try_call control write quiesce resume_all eligible
  recover_locked fuel timer = do
    started ← ask host.monotonic
    st ← try_call host.load
    if not (is_among (eligible timer) st.phase) then pure (some 0) else do
      root ← try_call (host.check_binding st)
      let claimed = record st { phase = recovering }
      write claimed
      control ("stop" ∷ "--no-block" ∷ unit_name ".service" ∷ [])
      now ← ask host.monotonic
      quiet ← quiesce fuel (now + config.recovery_seconds * 1000 / 2)
      elim quiet [
        | none ↦ pure none
        | some false ↦ (do
          write
              (record claimed { phase = manual_intervention; reason = some "backup_not_quiescent" })
          pure (some 1))
        | some true ↦ (do
          status ←
              resume_all (started + config.recovery_seconds * 1000) claimed root
                (not (phase_eq st.phase preflight))
          pure (some status))
      ]

  pub recover : ℕ → Bool → Exec N (Option ℕ)
  unfolding ask recover_locked
  recover fuel timer = do
    acquired ← ask (host.try_lock "recovery.lock")
    if acquired then recover_locked fuel timer else pure (some 0)

  -- `recover` and `guard`: the guard's timer recovers with `timer` set.
  pub guard : ℕ → Exec N (Option ℕ)
  unfolding recover
  guard fuel = recover fuel true

  -- `try: … except Exception: …; raise`
  pub on_error : {A : Type 0} → Exec N A → Exec N Unit → Exec N A
  on_error m undo = catch m (λ e. undo >> raise e)

  -- `try: m finally: last`, where an exception of `last` wins.
  pub finally : {A : Type 0} → Exec N A → Exec N Unit → Exec N A
  finally m last = do
    result ← catch (do a ← m; pure (returned a)) (λ e. pure (raised e))
    last
    or_raise result

  -- The payload is disposed of after a health check; a failure is left to a person.
  pub dispose_payload : StateFile → String → Exec N Unit
  unfolding command try_call write on_error
  dispose_payload st root =
      on_error
        (do
          bound ← try_call (host.check_binding st)
          health ← command config.health_argv 30000
          require (health == 0) (value_error "disposal_health")
          try_call (host.dispose root))
        (write (record st { phase = manual_intervention; reason = some "payload_disposal_failed" }))

  -- The end of a run: the state is read again, and must say that the service was resumed.
  pub complete_run : String → ℕ → Exec N Unit
  unfolding ask try_call write dispose_payload
  complete_run root rc = do
    st ← try_call host.load
    require (phase_eq st.phase resumed) (value_error "resume_not_verified")
    if (rc == 0) && config.dispose_successful_payload then dispose_payload st root else pure tt
    now ← ask host.wall_clock
    write (record st {
      phase = if rc == 0 then complete else failed;
      exit_status = some rc;
      last_success = if rc == 0 then some now else st.last_success;
    })

  ansible_arguments : String → List String
  ansible_arguments root =
      "--extra-vars"
      ∷ text_append "@" (text_append root "/inputs.json")
      ∷ "--extra-vars"
      ∷ config.extra_vars root
      ∷ []

  -- The `try` block of `run_locked`, on the state that was written for the preflight.
  pub run_steps : StateFile → String → Exec N ℕ
  unfolding ask try_call command control write check complete_run ansible_arguments
  run_steps st root = do
    prepared ← command (append config.prepare_argv (root ∷ [])) 120000
    require (prepared == 0) (value_error "prepare_failed")
    still_open ← ask host.window_open
    require still_open (value_error "window_expired")
    try_call (host.inputs_protected root)
    now ← ask host.monotonic
    write (record st { phase = armed; deadline = now + config.capture_seconds * 1000 })
    reply ← control ("start" ∷ unit_name "-guard.timer" ∷ [])
    require (reply.0 == 0) (value_error "guard_start_failed")
    check
    rc ← command (append config.ansible_argv (ansible_arguments root)) (config.run_seconds * 1000)
    try_call (host.cleanup root)
    complete_run root rc
    pure rc

  -- Its `finally` block.
  pub end_run : String → Exec N Unit
  unfolding try_call control write
  end_run root = do
    st ← try_call host.load
    if phase_eq st.phase armed
        then (control ("start" ∷ "--no-block" ∷ unit_name "-recovery.service" ∷ []) >> pure tt)
        else pure tt
    catch (try_call (host.cleanup root)) (λ e. do
      again ← try_call host.load
      write
          (record again { phase = manual_intervention; reason = some "credential_cleanup_failed" })
      raise e)
    if phase_eq st.phase preflight
        then write (record st { phase = failed; reason = some "preflight_failed" })
        else pure tt

  pub unresolved : List Phase
  unresolved = preflight ∷ armed ∷ recovering ∷ manual_intervention ∷ []

  -- `run_locked`; `digest` is the hash of the configuration, and 3 says that the run was skipped.
  pub run_locked : String → Exec N ℕ
  unfolding ask try_call write run_steps end_run finally unresolved
  run_locked digest = do
    previous ← try_call host.load
    require (not (is_among unresolved previous.phase)) (value_error "unresolved_recovery")
    window ← ask host.window_open
    if not window then (try_call (host.skip_recorded "outside_window") >> pure 3) else do
      root ← try_call host.make_root
      let st : StateFile = record {
        phase = preflight;
        root = root;
        configuration_sha256 = digest;
        deadline = 0;
        reason = none;
        resume_statuses = [];
        health_status = none;
        credential_cleanup = none;
        exit_status = none;
        last_success = none;
        previous_success = first_some previous.last_success previous.previous_success;
      }
      write st
      finally (run_steps st root) (end_run root)

  pub run : String → Exec N ℕ
  unfolding ask try_call run_locked
  run digest = do
    acquired ← ask (host.try_lock "run.lock")
    if acquired then run_locked digest else (try_call (host.skip_recorded "overlap") >> pure 3)
