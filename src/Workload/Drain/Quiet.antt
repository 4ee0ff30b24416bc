-- ===== src/Workload/Drain/Quiet.antt =====
-- What was seen before `drain` returns.
use mathlib.Core.Path.{subst}
use homelab_server_configs.Prelude.{
  ℕ, zero, suc, ◌+◌, String, Bool, true, false, not, Option, none, some, List, [], ◌∷◌, ◌≡◌, refl,
  ◌∙◌, ap, arith, leb, ◌==◌, str_eq, if◌then◌else◌,
}
use homelab_server_configs.Prelude.Exec
use homelab_server_configs.Prelude.Exec.{
  Error, value_error, Outcome, returned, raised, Exec, pure, raise, Post, Post-const, Post-cases,
  Post-returned, Ensures, Ensures-pure, Ensures-raise, Ensures-mono, Ensures-if, Ensures-require,
  Ensures-from,
}
use homelab_server_configs.Prelude.Exec.Chain.{◌>>=◌, ◌>>◌}
use homelab_server_configs.Workload.Drain.{
  Action, active, reserved, scheduled, Tasks, list, no_list, Replies, dict, no_dict, Host, Event,
  replied, measured, observed, Node, try_call, note, measure, key_pending, broker_loop,
  broker_empty, single, task_count, ask, worker_loop, worker_empty, observation, drain_loop, drain,
}

-- A reply of one worker without tasks.
abbrev pub IsIdle : Replies → Type 0
IsIdle r = (name : String) × (r ≡ dict ((name, list 0) ∷ []))

-- The newest `replies` replies are idle, nothing was measured since that was not empty, and before
-- that come `rounds` observations in a row of which the same holds, each with three replies.
abbrev pub Clear : ℕ → ℕ → List Event → Type 0
Clear zero zero es = Unit
Clear zero (suc rounds) (observed clear ∷ es) = (clear ≡ true) × Clear 3 rounds es
Clear (suc replies) rounds (replied asked r ∷ es) = IsIdle r × Clear replies rounds es
Clear (suc replies) rounds (measured key n ∷ es) = (n ≡ 0) × Clear (suc replies) rounds es
Clear _ _ _ = ⊥

-- A reply that is idle, by what the code reads of it.
single-IsIdle :
    (r : Replies) (item : String × Tasks) (n : ℕ)
    → single r ≡ returned item
    → task_count item.1 ≡ returned n
    → (n == 0) ≡ true
    → IsIdle r
single-IsIdle (dict []) item n h c e = absurd cc
single-IsIdle (dict ((name, tasks) ∷ [])) (name', list k) n h c e =
    let same : tasks ≡ list k = cc in
    let counted : k ≡ n = cc in
    let zeroed : n ≡ 0 = ground arith in
    (name, ap (λ x. dict ((name, x) ∷ [])) (same ∙ ap list (counted ∙ zeroed)))
single-IsIdle (dict ((name, tasks) ∷ [])) (name', no_list) n h c e = absurd cc
single-IsIdle (dict (x ∷ y ∷ rest)) item n h c e = absurd cc
single-IsIdle no_dict item n h c e = absurd cc

module _ (host : Host) where
  abbrev N : Type 0
  N = Node host.State

  abbrev Yields :
      {A : Type 0} → (List Event → Type 0) → (A → List Event → Type 0) → Exec N A → Type 0
  Yields P Q m = Ensures (λ n. P n.events) (λ a n. Q a n.events) (λ _ _. Unit) m

  try_call-Yields :
      {A : Type 0} (P : List Event → Type 0) (f : host.State → Outcome A × host.State)
      → Yields P (λ _. P) (try_call f)
  unfolding try_call
  try_call-Yields P f = record {
    at = λ n p.
        Post-cases (λ _ m. P m.events) (λ _ _. Unit) (f n.world).0
          (record n { world = (f n.world).1 }) (λ a e. p) (λ e h. tt);
  }

  -- A result that is computed.
  known-Yields :
      {A : Type 0} (P : List Event → Type 0) (o : Outcome A)
      → Yields P (λ a es. P es × (o ≡ returned a)) (try_call (λ w. (o, w)))
  unfolding try_call
  known-Yields P o = record {
    at = λ n p.
        Post-cases (λ a m. P m.events × (o ≡ returned a)) (λ _ _. Unit) o
          (record n { world = n.world }) (λ a e. (p, e)) (λ e h. tt);
  }

  note-Yields :
      (P Q : List Event → Type 0) (e : Event)
      → ((es : List Event) → P es → Q (e ∷ es))
      → Yields P (λ _. Q) (note e)
  unfolding note
  note-Yields P Q e h = record { at = λ n p. h n.events p }

  pure-Yields :
      {A : Type 0} (P : List Event → Type 0) (Q : A → List Event → Type 0) (a : A)
      → ((es : List Event) → P es → Q a es)
      → Yields P Q (pure a)
  pure-Yields P Q a h = Ensures-pure _ _ _ a (λ n. h n.events)

  require-Yields :
      (P : List Event → Type 0) (b : Bool) (e : Error) → Yields P (λ _. P) (Exec.require b e)
  require-Yields P b e =
      Ensures-mono (λ n p. p) (λ _ n p. p.0) (λ _ n p. p) (Ensures-require _ _ b e (λ n p h. tt))

  module _ (rounds : ℕ) where
    -- Nothing that was added to `pending` is left out.
    abbrev Summed : ℕ → List Event → Type 0
    Summed pending es = pending ≡ 0 → Clear 3 rounds es

    measure-Summed :
        (f : host.State → Outcome ℕ × host.State) (key : String) (pending : ℕ)
        → Yields (Summed pending) Summed (measure host f key pending)
    unfolding measure
    measure-Summed f key pending = do
      n ← try_call-Yields (Summed pending) f
      note-Yields (Summed pending) (Summed (pending + n)) (measured key n)
          (λ es h zeroed. (omega (arith, zeroed), h (omega (arith, zeroed))))
      pure-Yields (Summed (pending + n)) Summed (pending + n) (λ es h. h)

    key_pending-Summed :
        (key kind : String) (pending : ℕ)
        → Yields (Summed pending) Summed (key_pending host key kind pending)
    unfolding key_pending
    key_pending-Summed key kind pending =
        Ensures-if (str_eq kind "list") (λ _. measure-Summed _ key pending)
          (λ _.
            Ensures-if (str_eq key "unacked")
              (λ _. do require-Yields (Summed pending) _ _; measure-Summed _ key pending)
              (λ _.
                Ensures-if (str_eq key "unacked_index")
                  (λ _. do require-Yields (Summed pending) _ _; measure-Summed _ key pending)
                  (λ _. pure-Yields (Summed pending) Summed pending (λ es h. h))))

    broker_loop-Summed :
        (left pending : ℕ) → Yields (Summed pending) Summed (broker_loop host left pending)
    unfolding broker_loop
    broker_loop-Summed zero pending = try_call-Yields (Summed pending) host.next_key >>= elim [
      | none ↦ pure-Yields (Summed pending) Summed pending (λ es h. h)
      | some key ↦ Ensures-raise _ _ _ _ (λ n h. tt)
    ]
    broker_loop-Summed (suc left) pending =
        try_call-Yields (Summed pending) host.next_key >>= elim [
          | none ↦ pure-Yields (Summed pending) Summed pending (λ es h. h)
          | some key ↦ do
            kind ← try_call-Yields (Summed pending) (host.type_of key)
            key_pending-Summed key kind pending >>= (broker_loop-Summed left)
        ]

    broker_empty-Clear :
        Yields (Clear 3 rounds) (λ b es. b ≡ true → Clear 3 rounds es) (broker_empty host)
    unfolding broker_empty
    broker_empty-Clear = do
      pending ← Ensures-from (λ n h _. h) (broker_loop-Summed 4096 0)
      pure-Yields (Summed pending) _ (pending == 0) (λ es h e. h (ground arith))

    ask-Clear :
        (replies : ℕ) (identity : Option String) (action : Action)
        → Yields
            (Clear replies rounds)
            (λ answer es. answer.1 ≡ true → Clear (suc replies) rounds es)
            (ask host identity action)
    unfolding ask
    ask-Clear replies identity action = do
      r ← try_call-Yields (Clear replies rounds) (host.inspect action)
      let Below : List Event → Type 0 = λ es. IsIdle r → Clear (suc replies) rounds es in
          do
            note-Yields (Clear replies rounds) Below (replied action r) (λ es h idle. (idle, h))
            item ← known-Yields Below (single r)
            require-Yields _ _ _
            n ← known-Yields _ (task_count item.1)
            pure-Yields _ _ (item.0, n == 0) (λ es h e. h.0.0 (single-IsIdle r item n h.0.1 h.1 e))

    abbrev grown : ℕ → List Action → ℕ
    grown replies [] = replies
    grown replies (x ∷ rest) = grown (suc replies) rest

    worker_loop-Clear :
        (replies : ℕ) (identity : Option String) (actions : List Action)
        → Yields
            (Clear replies rounds)
            (λ b es. b ≡ true → Clear (grown replies actions) rounds es)
            (worker_loop host identity actions)
    unfolding worker_loop
    worker_loop-Clear replies identity [] = pure-Yields _ _ true (λ es h e. h)
    worker_loop-Clear replies identity (x ∷ rest) = do
      answer ← ask-Clear replies identity x
      Ensures-if (not answer.1) (λ _. pure-Yields _ _ false (λ es h e. absurd cc))
          (λ yes.
            Ensures-from (λ n h. h (ground arith))
              (worker_loop-Clear (suc replies) (some answer.0) rest))

    -- The broker is measured only where the worker is idle.
    broker_then-Clear :
        (idle : Bool)
        → Yields
            (λ es. idle ≡ true → Clear 3 rounds es)
            (λ b es. b ≡ true → Clear 3 rounds es)
            (if idle then broker_empty host else pure false)
    broker_then-Clear true = Ensures-from (λ n h. h refl) broker_empty-Clear
    broker_then-Clear false = pure-Yields _ _ false (λ es h e. absurd cc)

    observation-Clear :
        Yields (Clear 0 rounds) (λ b es. b ≡ true → Clear 0 (suc rounds) es) (observation host)
    unfolding observation worker_empty
    observation-Clear = do
      idle ← worker_loop-Clear 0 none (active ∷ reserved ∷ scheduled ∷ [])
      clear ← broker_then-Clear idle
      note-Yields _ (λ es. clear ≡ true → Clear 0 (suc rounds) es) (observed clear)
          (λ es h e. (e, h e))
      pure-Yields _ _ clear (λ es h. h)

  abbrev counted : Bool → ℕ → ℕ
  counted clear consecutive = if clear then suc consecutive else 0

  counted-Clear :
      (clear : Bool) (consecutive : ℕ) (es : List Event)
      → (clear ≡ true → Clear 0 (suc consecutive) es)
      → Clear 0 (counted clear consecutive) es
  counted-Clear true consecutive es h = h refl
  counted-Clear false consecutive es h = tt

  abbrev Done : Option {0} Unit → List Event → Type 0
  Done none es = Unit
  Done (some u) es = Clear 0 2 es

  drain_loop-Done :
      (fuel deadline consecutive : ℕ)
      → Yields (Clear 0 consecutive) Done (drain_loop host fuel deadline consecutive)
  unfolding drain_loop
  drain_loop-Done zero deadline consecutive = pure-Yields _ _ none (λ es h. tt)
  drain_loop-Done (suc fuel) deadline consecutive = do
    now ← try_call-Yields (Clear 0 consecutive) _
    Ensures-if (leb deadline now) (λ _. Ensures-raise _ _ _ _ (λ n h. tt))
        (λ _. do
          clear ← observation-Clear consecutive
          Ensures-from (λ n h. counted-Clear clear consecutive n.events h)
              (Ensures-if (counted clear consecutive == 2)
                (λ e. pure-Yields _ _ (some tt) (λ es h.
                  let two : counted clear consecutive ≡ 2 = ground arith in
                  subst (λ k. Clear 0 k es) two h))
                (λ _. do
                  try_call-Yields (Clear 0 (counted clear consecutive)) _
                  drain_loop-Done fuel deadline (counted clear consecutive))))

  -- When `drain` returns, its two newest observations are in a row, and in each of them the worker
  -- gave three replies without tasks, and every list that was measured was empty.
  pub drain-Clear :
      (fuel timeout : ℕ) (n : N)
      → (drain host fuel timeout n).0 ≡ returned (some tt)
      → Clear 0 2 (drain host fuel timeout n).1.events
  unfolding drain
  drain-Clear fuel timeout n h =
      Post-returned (λ a m. Done a m.events) (λ _ _. Unit) (drain host fuel timeout n) (some tt) h
        ((do now ← try_call-Yields (λ _. Unit) _; drain_loop-Done fuel (now + timeout) 0).at n tt)
