-- ===== src/Protection/Supervisor/Polling.antt =====
-- How long the polling loop of `recover_locked` takes.
use homelab_server_configs.Prelude.{
  ℕ, zero, suc, ◌+◌, ◌*◌, ◌≤◌, ◌<◌, String, Bool, false, Option, none, some, List, ◌∷◌, ◌≡◌, inl,
  inr, arith, Bool-cases, leb, if◌then◌else◌,
}
use homelab_server_configs.Prelude.Exec.{
  Outcome, returned, raised, Exec, continue, pure, ◌>>=◌, ◌>>◌,
}
use homelab_server_configs.Protection.Supervisor.{
  Settings, Host, Node, controlled, is_quiet, ask, control, quiesce, state_query,
}

-- An answer whether the service is quiet, or an exception: the rounds were enough.
abbrev pub Finished : Outcome (Option Bool) → Type 0
Finished (returned none) = ⊥
Finished (returned (some quiet)) = Unit
Finished (raised e) = Unit

continue-Finished :
    {S A : Type 0} (o : Outcome A) (f : A → Exec S (Option Bool)) (s : S)
    → ((a : A) → Finished (f a s).0)
    → Finished (continue o f s).0
continue-Finished (returned a) f s h = h a
continue-Finished (raised e) f s h = tt

-- The monotonic clock shows the time, does not go back, and a sleep lasts as long as was asked.
module _ (host : Host) (config : Settings) (clock : host.State → ℕ)
    (reads : (w : host.State)
      → ((host.monotonic w).0 ≡ clock w) × (clock w ≤ clock (host.monotonic w).1))
    (controls : (argv : List String) (w : host.State) → clock w ≤ clock (host.control argv w).1)
    (sleeps : (ms : ℕ) (w : host.State) → clock w + ms ≤ clock (host.sleep ms w)) where
  abbrev N : Type 0
  N = Node host.State

  abbrev Ends : ℕ → ℕ → N → Type 0
  Ends fuel deadline n = Finished (quiesce host config fuel deadline n).0

  -- What follows a query that was not answered by a quiet state.
  timed :
      (fuel deadline : ℕ) (n : N)
      → ((m : N)
          → clock n.world < deadline
          → clock n.world + 100 ≤ clock m.world
          → Ends fuel deadline m)
      → Finished
          ((do
            now ← ask host config host.monotonic
            if leb deadline now then pure (some false) else do
              ask host config (λ w. (tt, host.sleep 100 w))
              quiesce host config fuel deadline)
            n).0
  unfolding ask ◌>>=◌
  timed fuel deadline n rest = elim (Bool-cases (leb deadline (host.monotonic n.world).0)) [
    | inl late ↦ rw late tt
    | inr early ↦
        let (shows, keeps) = reads n.world in
        let w = host.sleep 100 (host.monotonic n.world).1 in
        let slept = sleeps 100 (host.monotonic n.world).1 in
        let before : clock n.world < deadline = ground (arith, shows, early) in
        rw early (rest (record n { world = w }) before (omega arith))
  ]

  abbrev query : List String
  query = state_query config

  abbrev queried : N → N
  queried n = record n {
    world = (host.control query n.world).1;
    events = controlled query (host.control query n.world).0 ∷ n.events;
  }

  -- One round of polling for each tenth of a second before the deadline, and one more, are enough:
  -- the poll ends with an answer, whether the service was quiet, or a call of systemd raises.
  pub quiesce-ends :
      (fuel deadline : ℕ) (n : N)
      → deadline ≤ clock n.world + fuel * 100
      → Finished (quiesce host config (suc fuel) deadline n).0
  unfolding quiesce control ◌>>=◌
  quiesce-ends zero deadline n h =
      let later = controls query n.world in
      continue-Finished (host.control query n.world).0 _ (queried n) (λ reply.
        elim (Bool-cases (is_quiet reply)) [
          | inl e ↦ rw e tt
          | inr e ↦ rw e (timed zero deadline (queried n) (λ m before passed. absurd (omega arith)))
        ])
  quiesce-ends (suc fuel) deadline n h =
      let later = controls query n.world in
      continue-Finished (host.control query n.world).0 _ (queried n) (λ reply.
        elim (Bool-cases (is_quiet reply)) [
          | inl e ↦ rw e tt
          | inr e ↦ rw e (
              timed (suc fuel) deadline (queried n)
                (λ m before passed. quiesce-ends fuel deadline m (omega arith)))
        ])
