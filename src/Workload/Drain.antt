-- ===== src/Workload/Drain.antt =====
-- `broker_empty`, `worker_empty` and `drain`: the broker's lists are measured and the worker is
-- asked, until both were empty twice in a row. Times are milliseconds.
pub mod Quiet
pub mod Ends
use homelab_server_configs.Prelude.{
  ℕ, zero, suc, ◌+◌, String, Bool, true, false, not, ◌&&◌, Option, none, some, List, [], ◌∷◌, leb,
  ltb, ◌==◌, str_eq, if◌then◌else◌,
}
use homelab_server_configs.Prelude.Exec.{
  Error, value_error, other_error, Outcome, returned, raised, Exec, pure, raise, require, ◌>>=◌,
  ◌>>◌,
}

pub data Action : Type 0 where
  active reserved scheduled : Action

-- The value of one worker in a reply: a list of that many tasks, or something else.
pub data Tasks : Type 0 where
  list : ℕ → Tasks
  no_list : Tasks

-- A reply of the inspector: the items of a dictionary, or something else.
pub data Replies : Type 0 where
  dict : List (String × Tasks) → Replies
  no_dict : Replies

-- What the code calls: the inspector, the iteration over the keys of the broker (`none` is its
-- end), the type and the three lengths of a key, the clock and the sleep.
pub record Host : Type 1 where
  pub State : Type 0
  pub inspect : Action → State → Outcome Replies × State
  pub next_key : State → Outcome (Option String) × State
  pub type_of : String → State → Outcome String × State
  pub llen : String → State → Outcome ℕ × State
  pub hlen : String → State → Outcome ℕ × State
  pub zcard : String → State → Outcome ℕ × State
  pub clock : State → ℕ × State
  pub sleep : ℕ → State → State

-- What was answered and measured, and how each observation ended, the newest first.
pub data Event : Type 0 where
  replied : Action → Replies → Event
  measured : String → ℕ → Event
  observed : Bool → Event

pub record Node (W : Type 0) : Type 0 where
  pub world : W
  pub events : List Event

abbrev pub no_other : Option String → String → Bool
no_other none name = true
no_other (some identity) name = str_eq name identity

module _ {W : Type 0} where
  pub try_call : {A : Type 0} → (W → Outcome A × W) → Exec (Node W) A
  try_call f n = let (o, w) = f n.world in (o, record n { world = w })

  pub note : Event → Exec (Node W) Unit
  note e n = (returned tt, record n { events = e ∷ n.events })

-- The one item of a reply.
abbrev pub single : Replies → Outcome (String × Tasks)
single (dict (item ∷ [])) = returned item
single _ = raised (value_error "worker_reply_coverage")

abbrev pub task_count : Tasks → Outcome ℕ
task_count (list n) = returned n
task_count no_list = raised (value_error "worker_reply_shape")

module _ (host : Host) where
  abbrev pub N : Type 0
  N = Node host.State

  -- The length of a key that was read, which is added to `pending`.
  pub measure : (host.State → Outcome ℕ × host.State) → String → ℕ → Exec N ℕ
  unfolding try_call note
  measure f key pending = do n ← try_call f; note (measured key n); pure (pending + n)

  pub key_pending : String → String → ℕ → Exec N ℕ
  unfolding measure
  key_pending key kind pending =
      if str_eq kind "list"
      then measure (host.llen key) key pending
      else if str_eq key "unacked"
      then (do
        require (str_eq kind "hash") (value_error "broker_unacked_type")
        measure (host.hlen key) key pending)
      else if str_eq key "unacked_index"
      then (do
        require (str_eq kind "zset") (value_error "broker_unacked_index_type")
        measure (host.zcard key) key pending)
      else pure pending

  -- The loop over the keys, of which `left` more may come.
  pub broker_loop : ℕ → ℕ → Exec N ℕ
  unfolding try_call key_pending
  broker_loop zero pending = do
    found ← try_call host.next_key
    elim found [ none ↦ pure pending | some key ↦ raise (value_error "broker_key_limit") ]
  broker_loop (suc left) pending = do
    found ← try_call host.next_key
    elim found [
      | none ↦ pure pending
      | some key ↦ (do
        kind ← try_call (host.type_of key)
        more ← key_pending key kind pending
        broker_loop left more)
    ]

  pub broker_empty : Exec N Bool
  unfolding broker_loop
  broker_empty = do pending ← broker_loop 4096 0; pure (pending == 0)

  -- One round of the loop over the actions: the identity, and whether there are no tasks.
  pub ask : Option String → Action → Exec N (String × Bool)
  unfolding try_call note
  ask identity action = do
    replies ← try_call (host.inspect action)
    note (replied action replies)
    item ← try_call (λ w. (single replies, w))
    require (no_other identity item.0) (value_error "worker_identity_changed")
    n ← try_call (λ w. (task_count item.1, w))
    pure (item.0, n == 0)

  pub worker_loop : Option String → List Action → Exec N Bool
  unfolding ask
  worker_loop identity [] = pure true
  worker_loop identity (action ∷ rest) = do
    answer ← ask identity action
    if not answer.1 then pure false else worker_loop (some answer.0) rest

  pub worker_empty : Exec N Bool
  unfolding worker_loop
  worker_empty = worker_loop none (active ∷ reserved ∷ scheduled ∷ [])

  -- `worker_empty(…) and broker_empty(…)`
  pub observation : Exec N Bool
  unfolding note worker_empty broker_empty
  observation = do
    idle ← worker_empty
    clear ← if idle then broker_empty else pure false
    note (observed clear)
    pure clear

  -- The loop of `drain`, with a number of rounds; `none` is a loop that has not ended.
  pub drain_loop : ℕ → ℕ → ℕ → Exec N (Option Unit)
  unfolding try_call observation
  drain_loop zero deadline consecutive = pure none
  drain_loop (suc fuel) deadline consecutive = do
    now ← try_call (λ w. let (t, w') = host.clock w in (returned t, w'))
    if leb deadline now then raise (value_error "drain_timeout_no_cancellation") else do
      clear ← observation
      if (if clear then suc consecutive else 0) == 2 then pure (some tt) else do
        try_call (λ w. (returned tt, host.sleep 5000 w))
        drain_loop fuel deadline (if clear then suc consecutive else 0)

  unfoldable pub drain : ℕ → ℕ → Exec N (Option Unit)
  unfolding try_call drain_loop
  drain fuel timeout = do
    now ← try_call (λ w. let (t, w') = host.clock w in (returned t, w'))
    drain_loop fuel (now + timeout) 0
