-- ===== src/Fixture/Apply.antt =====
-- `apply`: the planned objects are created, all of them, or compared with a receipt. The store, the
-- canonical text of the data set and its digest are parameters. The projection and the counts that
-- are returned beside the receipt are left out.
pub mod Owned
pub mod Resolved
use homelab_server_configs.Prelude.{
  ℕ, String, Bool, true, false, not, ◌&&◌, ◌||◌, Option, none, some, List, [], ◌∷◌, ◌++◌, map, leb,
  ◌==◌, str_eq, one_of, subset, length, if◌then◌else◌,
}
use homelab_server_configs.Prelude.Exec.{
  Error, value_error, other_error, Outcome, returned, raised, Exec, pure, raise, lift, require,
  catch, and_then, checks, ◌>>=◌, ◌>>◌,
}
use homelab_server_configs.Fixture.Data.{Value, Fields, Node, Dataset, Formats, ref, text}
use homelab_server_configs.Fixture.Loops.{keys}
use homelab_server_configs.Fixture.Plan.{plan}

-- A reference that was resolved, or another value.
pub data Argument (O : Type 0) : Type 0 where
  object : O → Argument O
  plain : Value → Argument O

abbrev pub Arguments : Type 0 → Type 0
Arguments O = List (String × Argument O)

pub record Receipt : Type 0 where
  pub schema_version : ℕ
  pub fixture_sha256 : String
  pub objects : List (String × String)

-- The store, with the two ends of its transaction, and what is computed of a data set. Of a name
-- that is given twice the last value counts.
pub record Store : Type 1 where
  pub State : Type 0
  pub Object : Type 0
  pub enter : Bool → State → Outcome Unit × State
  pub commit : State → Outcome Unit × State
  pub roll_back : State → State
  pub find : String → Arguments Object → State → Outcome (List Object) × State
  pub create : String → Arguments Object → Option (List String) → State → Outcome Object × State
  pub matches : Object → Arguments Object → Option (List String) → State → Outcome Bool × State
  pub check_membership : List (String × Object) → List Node → State → Outcome Unit × State
  pub identity : Object → String
  pub canonical_size : Dataset → ℕ
  pub digest : Dataset → String

-- The keys of the objects that the store was asked to create, the newest first.
pub record Run (W : Type 0) : Type 0 where
  pub world : W
  pub created : List String

abbrev pub name_of : {A : Type 0} → String × A → String
name_of (name, a) = name

abbrev pub is_given : {A : Type 0} → Option A → Bool
is_given none = false
is_given (some a) = true

-- `table[key]`
abbrev pub at : {A : Type 0} → List (String × A) → String → Outcome A
at [] key = raised other_error
at ((name, a) ∷ rest) key = let later = at rest key in if str_eq key name then returned a else later

-- The nested `resolve`.
abbrev pub resolve : {O : Type 0} → List (String × O) → Fields → Outcome (Arguments O)
resolve objects [] = returned []
resolve objects ((name, ref key) ∷ rest) =
    and_then (at objects key)
      (λ o. and_then (resolve objects rest) (λ others. returned ((name, object o) ∷ others)))
resolve objects ((name, value) ∷ rest) =
    and_then (resolve objects rest) (λ others. returned ((name, plain value) ∷ others))

-- Whether the receipt has this identity under the key.
abbrev pub owned : Option Receipt → String → String → Outcome Bool
owned none key identity = returned false
owned (some receipt) key identity =
    and_then (at receipt.objects key) (λ known. returned (str_eq known identity))

abbrev pub receipt_checks : Option Receipt → String → List Node → List (Bool × String)
receipt_checks none digest nodes = []
receipt_checks (some receipt) digest nodes =
    (
      (receipt.schema_version == 1)
          && str_eq receipt.fixture_sha256 digest
          && subset (map name_of receipt.objects) (keys nodes)
          && subset (keys nodes) (map name_of receipt.objects),
      "ownership_receipt",
    )
    ∷ []

module _ (store : Store) where
  abbrev pub N : Type 0
  N = Run store.State

  pub try_call : {A : Type 0} → (store.State → Outcome A × store.State) → Exec N A
  try_call f n = let (o, w) = f n.world in (o, record n { world = w })

  -- `store.create(…)`
  pub create : Node → Arguments store.Object → Exec N store.Object
  create node arguments n =
      let (o, w) = store.create node.model arguments node.content_types n.world in
      (o, record n { world = w; created = node.key ∷ n.created })

  -- The object of a node: the one that was found and is owned, or a new one.
  pub owned_object :
      Option Receipt
      → Bool
      → Node
      → Arguments store.Object
      → List store.Object
      → Exec N store.Object
  unfolding create
  owned_object receipt write node arguments [] = do
    require (write && not (is_given receipt)) (value_error "owned_object_missing")
    create node arguments
  owned_object receipt write node arguments (found ∷ rest) = do
    known ← lift (owned receipt node.key (store.identity found))
    require known (value_error "unowned_object")
    pure found

  -- One round of the loop over the nodes.
  pub apply_node : Option Receipt → Bool → List (String × store.Object) → Node → Exec N store.Object
  unfolding try_call owned_object
  apply_node receipt write objects node = do
    lookup ← lift (resolve objects node.lookup)
    fields ← lift (resolve objects node.fields)
    found ← try_call (store.find node.model lookup)
    require (leb (length found) 1) (value_error "ambiguous_object")
    o ← owned_object receipt write node (lookup ++ fields) found
    same ← try_call (store.matches o (lookup ++ fields) node.content_types)
    require same (value_error "owned_object_drift")
    pure o

  pub apply_nodes :
      Option Receipt
      → Bool
      → List (String × store.Object)
      → List Node
      → Exec N (List (String × store.Object))
  unfolding apply_node
  apply_nodes receipt write objects [] = pure objects
  apply_nodes receipt write objects (node ∷ rest) = do
    o ← apply_node receipt write objects node
    apply_nodes receipt write ((node.key, o) ∷ objects) rest

  abbrev pub identified : List (String × store.Object) → List (String × String)
  identified [] = []
  identified ((key, o) ∷ rest) = (key, store.identity o) ∷ identified rest

  -- The block under the transaction, which is rolled back when it raises.
  pub in_transaction : Option Receipt → Bool → List Node → Exec N (List (String × store.Object))
  unfolding try_call apply_nodes
  in_transaction receipt write nodes = do
    try_call (store.enter write)
    objects ←
        catch
          (do
            objects ← apply_nodes receipt write [] nodes
            try_call (store.check_membership objects nodes)
            pure objects)
          (λ e. try_call (λ w. (returned tt, store.roll_back w)) >> raise e)
    try_call store.commit
    pure objects

  abbrev pub size_checks : Dataset → List (Bool × String)
  size_checks dataset = (leb (store.canonical_size dataset) 4194304, "fixture_size") ∷ []

  unfoldable pub apply : Formats → Dataset → Option Receipt → Bool → Exec N Receipt
  unfolding in_transaction
  apply formats dataset receipt write = do
    lift (checks (size_checks dataset))
    nodes ← lift (plan formats dataset)
    let digest = store.digest dataset
    lift (checks (receipt_checks receipt digest nodes))
    require (write || is_given receipt) (value_error "ownership_required")
    objects ← in_transaction receipt write nodes
    pure (record { schema_version = 1; fixture_sha256 = digest; objects = identified objects })
