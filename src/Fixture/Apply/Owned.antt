-- ===== src/Fixture/Apply/Owned.antt =====
-- Which objects a run creates.
use homelab_server_configs.Prelude.{
  String, Bool, true, false, ◌&&◌, Option, none, some, List, [], ◌∷◌, ◌++◌, ◌≡◌, refl, ap, ◌∙◌,
  arith,
}
use homelab_server_configs.Prelude.Exec
use homelab_server_configs.Prelude.Exec.{
  Error, Outcome, returned, raised, Exec, pure, raise, lift, catch, Post, Post-const, Post-cases,
  Post-same, Post-returned, Ensures, Ensures-pure, Ensures-raise, Ensures-lift, Ensures-bind,
  Ensures-mono, Ensures-catch, Ensures-require, Ensures-given, checks, ◌>>=◌, ◌>>◌,
}
use homelab_server_configs.Fixture.Data.{Node, Dataset, Formats}
use homelab_server_configs.Fixture.Loops.{keys, reversed}
use homelab_server_configs.Fixture.Plan.{plan}
use homelab_server_configs.Fixture.Apply.{
  Arguments, Receipt, Store, Run, is_given, resolve, owned, try_call, create, owned_object,
  apply_node, apply_nodes, in_transaction, apply,
}

-- With a receipt nothing is created, and without one each object.
abbrev made : Option Receipt → Node → List String → List String
made none node names = node.key ∷ names
made (some receipt) node names = names

-- The names at the end of the loop.
abbrev pub all_made : Option Receipt → List String → List Node → List String
all_made none names nodes = reversed names (keys nodes)
all_made (some receipt) names nodes = names

module _ (store : Store) (receipt : Option Receipt) (start : List String) where
  abbrev N : Type 0
  N = Run store.State

  abbrev Made : List String → N → Type 0
  Made names n = n.created ≡ names

  -- With a receipt, nothing was created before an exception either.
  abbrev Left : Error → N → Type 0
  Left e n = is_given receipt ≡ true → Made start n

  abbrev Makes : {A : Type 0} → List String → List String → Exec N A → Type 0
  Makes before after m = Ensures (Made before) (λ _. Made after) Left m

  -- With a receipt the names are still those of the start.
  abbrev Fixed : List String → Type 0
  Fixed names = is_given receipt ≡ true → names ≡ start

  left : (names : List String) → Fixed names → (e : Error) (n : N) → Made names n → Left e n
  left names fixed e n p given = p ∙ fixed given

  try_call-Makes :
      {A : Type 0} (names : List String)
      → Fixed names
      → (f : store.State → Outcome A × store.State) → Makes names names (try_call store f)
  unfolding try_call
  try_call-Makes names fixed f = record {
    at = λ n p.
        Post-cases (λ _. Made names) Left (f n.world).0 (record n { world = (f n.world).1 })
          (λ a e. p) (λ e h. left names fixed e (record n { world = (f n.world).1 }) p);
  }

  lift-Makes :
      {A : Type 0} (names : List String)
      → Fixed names
      → (o : Outcome A) → Makes names names (lift o)
  lift-Makes names fixed o =
      Ensures-lift _ _ _ o
        (λ n p. Post-cases (λ _. Made names) Left o n (λ a e. p) (λ e h. left names fixed e n p))

  require-Makes :
      (names : List String)
      → Fixed names
      → (b : Bool) (e : Error) → Makes names names (Exec.require b e)
  require-Makes names fixed b e =
      Ensures-mono (λ n p. p) (λ _ n p. p.0) (λ _ n p. p)
        (Ensures-require _ _ b e (λ n p h. left names fixed e n p))

  pure-Makes : {A : Type 0} (names : List String) (a : A) → Makes names names (pure a)
  pure-Makes names a = Ensures-pure _ _ _ a (λ n p. p)

  -- A branch whose test fails does not return.
  refused-Makes :
      {A : Type 0} (before after : List String)
      → Fixed before
      → (b : Bool) (e : Error) (m : Exec N A) → b ≡ false
      → Makes before after (Exec.require b e >> m)
  refused-Makes before after fixed b e m failed =
      Ensures-bind (Ensures-require (Made before) Left b e (λ n p h. left before fixed e n p))
        (λ _. Ensures-given (λ passed. absurd (ground (arith, failed, passed))))

module _ (store : Store) where
  create-Makes :
      (start names : List String) (node : Node) (arguments : Arguments store.Object)
      → Makes store none start names (node.key ∷ names) (create store node arguments)
  unfolding create
  create-Makes start names node arguments = record {
    at = λ n p.
        let (o, w) = store.create node.model arguments node.content_types n.world in
        Post-cases (λ _. Made store none start (node.key ∷ names)) (Left store none start) o
          (record n { world = w; created = node.key ∷ n.created }) (λ a e. ap (λ x. node.key ∷ x) p)
          (λ e h given. absurd cc);
  }

  owned_object-Makes :
      (receipt : Option Receipt) (start names : List String)
      → Fixed store receipt start names
      → (write : Bool) (node : Node) (arguments : Arguments store.Object)
        (found : List store.Object)
      → Makes store receipt start names
          (made receipt node names)
          (owned_object store receipt write node arguments found)
  unfolding owned_object
  owned_object-Makes none start names fixed write node arguments [] =
      Ensures-bind (require-Makes store none start names fixed _ _)
        (λ _. create-Makes start names node arguments)
  owned_object-Makes (some receipt) start names fixed write node arguments [] =
      refused-Makes store (some receipt) start names names fixed (write && false) _ _ (ground arith)
  owned_object-Makes none start names fixed write node arguments (o ∷ rest) =
      Ensures-bind
        (Ensures-lift (Made store none start names)
          (λ known n. Made store none start names n × (known ≡ false)) _ (returned false)
          (λ n p. (p, refl)))
        (λ known. Ensures-given (λ failed.
          refused-Makes store none start names (node.key ∷ names) fixed known _ _ failed))
  owned_object-Makes (some receipt) start names fixed write node arguments (o ∷ rest) =
      Ensures-bind
        (lift-Makes store (some receipt) start names fixed
          (owned (some receipt) node.key (store.identity o)))
        (λ known.
          Ensures-bind (require-Makes store (some receipt) start names fixed known _)
            (λ _. pure-Makes store (some receipt) start names o))

  made-Fixed :
      (receipt : Option Receipt) (start names : List String) (node : Node)
      → Fixed store receipt start names
      → Fixed store receipt start (made receipt node names)
  made-Fixed none start names node fixed given = absurd cc
  made-Fixed (some receipt) start names node fixed given = fixed given

  apply_node-Makes :
      (receipt : Option Receipt) (start names : List String)
      → Fixed store receipt start names
      → (write : Bool) (objects : List (String × store.Object)) (node : Node)
      → Makes store receipt start names
          (made receipt node names)
          (apply_node store receipt write objects node)
  unfolding apply_node
  apply_node-Makes receipt start names fixed write objects node =
      let after = made receipt node names in
      let still = made-Fixed receipt start names node fixed in
      Ensures-bind (lift-Makes store receipt start names fixed (resolve objects node.lookup))
        (λ lookup.
          Ensures-bind (lift-Makes store receipt start names fixed (resolve objects node.fields))
            (λ fields.
              Ensures-bind
                (try_call-Makes store receipt start names fixed (store.find node.model lookup))
                (λ found. Ensures-bind (require-Makes store receipt start names fixed _ _) (λ _.
                  Ensures-bind
                    (owned_object-Makes receipt start names fixed write node (lookup ++ fields)
                      found)
                    (λ o. Ensures-bind (try_call-Makes store receipt start after still _) (λ same.
                      Ensures-bind (require-Makes store receipt start after still same _)
                        (λ _. pure-Makes store receipt start after o)))))))

  apply_nodes-Makes :
      (receipt : Option Receipt) (start names : List String)
      → Fixed store receipt start names
      → (write : Bool) (objects : List (String × store.Object)) (nodes : List Node)
      → Makes store receipt start names
          (all_made receipt names nodes)
          (apply_nodes store receipt write objects nodes)
  unfolding apply_nodes
  apply_nodes-Makes none start names fixed write objects [] =
      pure-Makes store none start names objects
  apply_nodes-Makes (some receipt) start names fixed write objects [] =
      pure-Makes store (some receipt) start names objects
  apply_nodes-Makes none start names fixed write objects (node ∷ rest) =
      Ensures-bind (apply_node-Makes none start names fixed write objects node) (λ o.
        apply_nodes-Makes none start (node.key ∷ names) (λ given. absurd cc) write
          ((node.key, o) ∷ objects) rest)
  apply_nodes-Makes (some receipt) start names fixed write objects (node ∷ rest) =
      Ensures-bind (apply_node-Makes (some receipt) start names fixed write objects node) (λ o.
        apply_nodes-Makes (some receipt) start names fixed write ((node.key, o) ∷ objects) rest)

  all_made-Fixed :
      (receipt : Option Receipt) (start : List String) (nodes : List Node)
      → Fixed store receipt start (all_made receipt start nodes)
  all_made-Fixed none start nodes given = absurd cc
  all_made-Fixed (some receipt) start nodes given = refl

  roll_back-Left :
      {A : Type 0} (receipt : Option Receipt) (start after : List String) (e : Error)
      → Ensures
          (Left store receipt start e)
          (λ _. Made store receipt start after)
          (Left store receipt start)
          (try_call store {A = Unit} (λ w. (returned tt, store.roll_back w)) >> raise {A = A} e)
  unfolding try_call
  roll_back-Left receipt start after e =
      Ensures-bind {Q = λ _. Left store receipt start e} (record { at = λ n p. p })
        (λ _. Ensures-raise _ _ _ e (λ n p. p))

  in_transaction-Makes :
      (receipt : Option Receipt) (start : List String) (write : Bool) (nodes : List Node)
      → Makes store receipt start start
          (all_made receipt start nodes)
          (in_transaction store receipt write nodes)
  unfolding in_transaction
  in_transaction-Makes receipt start write nodes =
      let after = all_made receipt start nodes in
      let still = all_made-Fixed receipt start nodes in
      Ensures-bind (try_call-Makes store receipt start start (λ given. refl) (store.enter write))
        (λ _.
          Ensures-bind
            (Ensures-catch
              (Ensures-bind (apply_nodes-Makes receipt start start (λ given. refl) write [] nodes)
                (λ objects.
                  Ensures-bind (try_call-Makes store receipt start after still _)
                    (λ _. pure-Makes store receipt start after objects)))
              (λ e. roll_back-Left receipt start after e))
            (λ objects.
              Ensures-bind (try_call-Makes store receipt start after still store.commit)
                (λ _. pure-Makes store receipt start after objects)))

  -- What a run that returns has created.
  abbrev pub Created : Option Receipt → List String → Formats → Dataset → List String → Type 0
  Created receipt start formats dataset names =
      (nodes : List Node) × (plan formats dataset ≡ returned nodes)
      × (names ≡ all_made receipt start nodes)

  planned-Makes :
      (formats : Formats) (dataset : Dataset) (receipt : Option Receipt) (start : List String)
      → Ensures
          (Made store receipt start start)
          (λ nodes n. Made store receipt start start n × (plan formats dataset ≡ returned nodes))
          (Left store receipt start)
          (lift (plan formats dataset))
  planned-Makes formats dataset receipt start = Ensures-lift _ _ _ (plan formats dataset) (λ n p.
      Post-cases
        (λ nodes m. Made store receipt start start m × (plan formats dataset ≡ returned nodes))
        (Left store receipt start) (plan formats dataset) n (λ nodes e. (p, e)) (λ e h given. p))

  apply-Makes :
      (formats : Formats) (dataset : Dataset) (receipt : Option Receipt) (write : Bool)
      (start : List String)
      → Ensures
          (Made store receipt start start)
          (λ _ n. Created receipt start formats dataset n.created)
          (Left store receipt start)
          (apply store formats dataset receipt write)
  unfolding apply
  apply-Makes formats dataset receipt write start =
      let fixed : Fixed store receipt start start = λ given. refl in
      Ensures-bind (lift-Makes store receipt start start fixed _) (λ _.
        Ensures-bind (planned-Makes formats dataset receipt start) (λ nodes. Ensures-given (λ known.
          Ensures-bind (lift-Makes store receipt start start fixed _) (λ _.
            Ensures-bind (require-Makes store receipt start start fixed _ _) (λ _.
              Ensures-bind (in_transaction-Makes receipt start write nodes)
                (λ objects. Ensures-pure _ _ _ _ (λ n p. (nodes, known, p))))))))

  -- A run of `apply` that returns has followed a plan: without a receipt it has created each of its
  -- nodes, in their order, and with a receipt none.
  pub apply-creates :
      (formats : Formats) (dataset : Dataset) (receipt : Option Receipt) (write : Bool)
      (n : Run store.State) (result : Receipt)
      → (apply store formats dataset receipt write n).0 ≡ returned result
      → Created receipt n.created formats dataset
          (apply store formats dataset receipt write n).1.created
  apply-creates formats dataset receipt write n result h =
      Post-returned (λ _ m. Created receipt n.created formats dataset m.created)
        (Left store receipt n.created) (apply store formats dataset receipt write n) result h
        ((apply-Makes formats dataset receipt write n.created).at n refl)

  Kept-either :
      (receipt : Receipt) (start : List String) (formats : Formats) (dataset : Dataset)
      (r : Outcome Receipt × Run store.State)
      → Post
          (λ _ m. Created (some receipt) start formats dataset m.created)
          (Left store (some receipt) start)
          r
      → r.1.created ≡ start
  Kept-either receipt start formats dataset (returned x, m) h = h.2
  Kept-either receipt start formats dataset (raised e, m) h = h refl

  -- With a receipt, a run of `apply` asks the store to create nothing, whatever the store answers
  -- and however the run ends.
  pub apply-creates_nothing :
      (formats : Formats) (dataset : Dataset) (receipt : Receipt) (write : Bool)
      (n : Run store.State)
      → (apply store formats dataset (some receipt) write n).1.created ≡ n.created
  apply-creates_nothing formats dataset receipt write n =
      Kept-either receipt n.created formats dataset
        (apply store formats dataset (some receipt) write n)
        ((apply-Makes formats dataset (some receipt) write n.created).at n refl)
