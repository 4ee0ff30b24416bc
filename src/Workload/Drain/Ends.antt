-- ===== src/Workload/Drain/Ends.antt =====
-- How long `drain` takes.
use homelab_server_configs.Prelude.{
  ℕ, zero, suc, ◌+◌, ◌*◌, ◌≤◌, String, Bool, true, false, not, Option, none, some, List, [], ◌∷◌,
  ◌≡◌, refl, ◌⊎◌, inl, inr, arith, leb, ◌==◌, str_eq, if◌then◌else◌,
}
use homelab_server_configs.Prelude.Exec
use homelab_server_configs.Prelude.Exec.{
  Error, value_error, Outcome, returned, raised, Exec, pure, raise, Post, Post-cases, Ensures,
  Ensures-pure, Ensures-raise, Ensures-mono, Ensures-if, Ensures-given, Ensures-require,
  Ensures-from,
}
use homelab_server_configs.Prelude.Exec.Chain.{◌>>=◌, ◌>>◌}
use homelab_server_configs.Workload.Drain.{
  Action, active, reserved, scheduled, Host, Event, Node, try_call, note, measure, key_pending,
  broker_loop, broker_empty, single, task_count, ask, worker_loop, worker_empty, observation,
  drain_loop, drain,
}

-- The clock shows the time, no call turns it back, and a sleep lasts as long as was asked.
pub record Timed (host : Host) (time : host.State → ℕ) : Type 0 where
  pub reads : (w : host.State) → (host.clock w).0 ≡ time w
  pub clock_keeps : (w : host.State) → time w ≤ time (host.clock w).1
  pub inspect_keeps : (a : Action) (w : host.State) → time w ≤ time (host.inspect a w).1
  pub next_key_keeps : (w : host.State) → time w ≤ time (host.next_key w).1
  pub type_of_keeps : (key : String) (w : host.State) → time w ≤ time (host.type_of key w).1
  pub llen_keeps : (key : String) (w : host.State) → time w ≤ time (host.llen key w).1
  pub hlen_keeps : (key : String) (w : host.State) → time w ≤ time (host.hlen key w).1
  pub zcard_keeps : (key : String) (w : host.State) → time w ≤ time (host.zcard key w).1
  pub sleeps : (ms : ℕ) (w : host.State) → time w + ms ≤ time (host.sleep ms w)

module _ (host : Host) (time : host.State → ℕ) (timed : Timed host time) where
  abbrev N : Type 0
  N = Node host.State

  -- It is `t` or later.
  abbrev After : ℕ → N → Type 0
  After t n = t ≤ time n.world

  abbrev Keeps : {A : Type 0} → ℕ → Exec N A → Type 0
  Keeps t m = Ensures (After t) (λ _. After t) (λ _ _. Unit) m

  try_call-Keeps :
      {A : Type 0} (t : ℕ) (f : host.State → Outcome A × host.State)
      → ((w : host.State) → time w ≤ time (f w).1)
      → Keeps t (try_call f)
  unfolding try_call
  try_call-Keeps t f h = record {
    at = λ n p.
        let later = h n.world in
        Post-cases (λ _. After t) (λ _ _. Unit) (f n.world).0 (record n { world = (f n.world).1 })
          (λ a e. omega arith) (λ e h. tt);
  }

  note-Keeps : (t : ℕ) (e : Event) → Keeps t (note e)
  unfolding note
  note-Keeps t e = record { at = λ n p. p }

  pure-Keeps : {A : Type 0} (t : ℕ) (a : A) → Keeps t (pure a)
  pure-Keeps t a = Ensures-pure (After t) (λ _. After t) _ a (λ n p. p)

  require-Keeps : (t : ℕ) (b : Bool) (e : Error) → Keeps t (Exec.require b e)
  require-Keeps t b e =
      Ensures-mono (λ n p. p) (λ _ n p. p.0) (λ _ n p. p)
        (Ensures-require (After t) (λ _ _. Unit) b e (λ n p h. tt))

  measure-Keeps :
      (t : ℕ) (f : host.State → Outcome ℕ × host.State) (key : String) (pending : ℕ)
      → ((w : host.State) → time w ≤ time (f w).1)
      → Keeps t (measure host f key pending)
  unfolding measure
  measure-Keeps t f key pending h = do n ← try_call-Keeps t f h; note-Keeps t _; pure-Keeps t _

  key_pending-Keeps :
      (t : ℕ) (key kind : String) (pending : ℕ) → Keeps t (key_pending host key kind pending)
  unfolding key_pending
  key_pending-Keeps t key kind pending =
      Ensures-if (str_eq kind "list")
        (λ _. measure-Keeps t (host.llen key) key pending (timed.llen_keeps key))
        (λ _.
          Ensures-if (str_eq key "unacked")
            (λ _. do
              require-Keeps t _ _
              measure-Keeps t (host.hlen key) key pending (timed.hlen_keeps key))
            (λ _.
              Ensures-if (str_eq key "unacked_index")
                (λ _. do
                  require-Keeps t _ _
                  measure-Keeps t (host.zcard key) key pending (timed.zcard_keeps key))
                (λ _. pure-Keeps t pending)))

  broker_loop-Keeps : (t left pending : ℕ) → Keeps t (broker_loop host left pending)
  unfolding broker_loop
  broker_loop-Keeps t zero pending =
      try_call-Keeps t host.next_key timed.next_key_keeps
      >>= elim [ none ↦ pure-Keeps t pending | some key ↦ Ensures-raise _ _ _ _ (λ n h. tt) ]
  broker_loop-Keeps t (suc left) pending =
      try_call-Keeps t host.next_key timed.next_key_keeps >>= elim [
        | none ↦ pure-Keeps t pending
        | some key ↦ do
          kind ← try_call-Keeps t (host.type_of key) (timed.type_of_keeps key)
          key_pending-Keeps t key kind pending >>= (broker_loop-Keeps t left)
      ]

  ask-Keeps : (t : ℕ) (identity : Option String) (x : Action) → Keeps t (ask host identity x)
  unfolding ask
  ask-Keeps t identity x = do
    r ← try_call-Keeps t (host.inspect x) (timed.inspect_keeps x)
    note-Keeps t _
    item ← try_call-Keeps t (λ w. (single r, w)) (λ w. omega arith)
    require-Keeps t _ _
    n ← try_call-Keeps t (λ w. (task_count item.1, w)) (λ w. omega arith)
    pure-Keeps t _

  worker_loop-Keeps :
      (t : ℕ) (identity : Option String) (actions : List Action)
      → Keeps t (worker_loop host identity actions)
  unfolding worker_loop
  worker_loop-Keeps t identity [] = pure-Keeps t true
  worker_loop-Keeps t identity (x ∷ rest) = do
    answer ← ask-Keeps t identity x
    Ensures-if (not answer.1) (λ _. pure-Keeps t false)
        (λ _. worker_loop-Keeps t (some answer.0) rest)

  broker_then-Keeps :
      (t : ℕ) (idle : Bool) → Keeps t (if idle then broker_empty host else pure false)
  unfolding broker_empty
  broker_then-Keeps t true = do pending ← broker_loop-Keeps t 4096 0; pure-Keeps t _
  broker_then-Keeps t false = pure-Keeps t false

  observation-Keeps : (t : ℕ) → Keeps t (observation host)
  unfolding observation worker_empty
  observation-Keeps t = do
    idle ← worker_loop-Keeps t none (active ∷ reserved ∷ scheduled ∷ [])
    clear ← broker_then-Keeps t idle
    note-Keeps t _
    pure-Keeps t clear

  -- The clock that is read shows a time that has come.
  clock-Shows :
      (t : ℕ)
      → Ensures
          (After t)
          (λ now n. (t ≤ now) × (now ≤ time n.world))
          (λ _ _. Unit)
          (try_call (λ w. let (now, w') = host.clock w in (returned now, w')))
  unfolding try_call
  clock-Shows t = record {
    at = λ n p.
        let shown = timed.reads n.world in
        let later = timed.clock_keeps n.world in (omega arith, omega arith);
  }

  sleep-After :
      (t ms : ℕ)
      → Ensures
          (After t)
          (λ _. After (t + ms))
          (λ _ _. Unit)
          (try_call (λ w. (returned tt, host.sleep ms w)))
  unfolding try_call
  sleep-After t ms = record { at = λ n p. let slept = timed.sleeps ms n.world in omega arith }

  abbrev Ended : Option {0} Unit → Type 0
  Ended none = ⊥
  Ended (some u) = Unit

  drain_loop-Ended :
      (fuel deadline consecutive t : ℕ)
      → deadline ≤ t + fuel * 5000
      → Ensures
          (After t)
          (λ a _. Ended a)
          (λ _ _. Unit)
          (drain_loop host (suc fuel) deadline consecutive)
  unfolding drain_loop
  drain_loop-Ended zero deadline consecutive t h = do
    now ← clock-Shows t
    Ensures-if (leb deadline now) (λ _. Ensures-raise _ _ _ _ (λ n h. tt))
        (λ early.
          Ensures-from (λ n p. (p.1, p.0))
            (Ensures-given (λ reached. absurd (ground (arith, early, reached, h)))))
  drain_loop-Ended (suc fuel) deadline consecutive t h = do
    now ← clock-Shows t
    Ensures-if (leb deadline now) (λ _. Ensures-raise _ _ _ _ (λ n h. tt))
        (λ early.
          Ensures-from (λ n p. (p.1, p.0))
            (Ensures-given (λ reached. do
              clear ← observation-Keeps now
              Ensures-if ((if clear then suc consecutive else 0) == 2)
                  (λ _. Ensures-pure _ _ _ (some tt) (λ n p. tt))
                  (λ _. do
                    sleep-After now 5000
                    drain_loop-Ended fuel deadline (if clear then suc consecutive else 0)
                        (now + 5000) (omega arith)))))

  Post-Ended :
      (r : Outcome (Option Unit) × N)
      → Post (λ a _. Ended a) (λ _ _. Unit) r
      → (r.0 ≡ returned (some tt)) ⊎ ((e : Error) × (r.0 ≡ raised e))
  Post-Ended (returned none, n) h = absurd h
  Post-Ended (returned (some tt), n) h = inl refl
  Post-Ended (raised e, n) h = inr (e, refl)

  -- One round for each five seconds of the timeout, and one more, are enough: `drain` ends, with
  -- its result or with an exception.
  pub drain-ends :
      (fuel timeout : ℕ) (n : N)
      → timeout ≤ fuel * 5000
      → let o = (drain host (suc fuel) timeout n).0 in
        (o ≡ returned (some tt)) ⊎ ((e : Error) × (o ≡ raised e))
  unfolding drain
  drain-ends fuel timeout n h = Post-Ended (drain host (suc fuel) timeout n) (
      (do
        now ← clock-Shows (time n.world)
        Ensures-from (λ m p. p.1) (drain_loop-Ended fuel (now + timeout) 0 now (omega arith))).at
        n (omega arith))
