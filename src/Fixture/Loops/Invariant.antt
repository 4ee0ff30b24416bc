-- ===== src/Fixture/Loops/Invariant.antt =====
-- The order of a plan, and the invariant of the loops that build it.
use mathlib.Core.Path.{subst}
use homelab_server_configs.Prelude.{
  String, Bool, true, false, ◌||◌, List, [], ◌∷◌, ◌≡◌, refl, sym, ◌⊎◌, inl, inr, arith, str_eq,
  eq_iff, one_of, if◌then◌else◌,
}
use homelab_server_configs.Prelude.Exec.{value_error, returned, raised}
use homelab_server_configs.Fixture.Data.{Fields, Node, Built, ref}
use homelab_server_configs.Fixture.Loops.{keys, reversed, add}

abbrev pub Has : List String → String → Type 0
Has names k = one_of names k ≡ true

-- Each reference of the fields is one of the names.
abbrev pub Refers : List String → Fields → Type 0
Refers names [] = Unit
Refers names ((name, ref k) ∷ rest) = Has names k × Refers names rest
Refers names ((name, value) ∷ rest) = Refers names rest

-- The key is new, and what the node refers to is there.
abbrev pub Fits : List String → Node → Type 0
Fits names node =
    (one_of names node.key ≡ false) × Refers names node.lookup × Refers names node.fields

-- Each node fits those that come before it, after the names of `names`.
abbrev pub Ordered : List String → List Node → Type 0
Ordered names [] = Unit
Ordered names (node ∷ rest) = Fits names node × Ordered (node.key ∷ names) rest

-- The same of nodes of which the newest is the first.
abbrev pub Stacked : List Node → Type 0
Stacked [] = Unit
Stacked (node ∷ rest) = Fits (keys rest) node × Stacked rest

pub reversed-Ordered :
    (later nodes : List Node)
    → Stacked nodes
    → Ordered (keys nodes) later
    → Ordered [] (reversed later nodes)
reversed-Ordered later [] s o = o
reversed-Ordered later (node ∷ rest) s o = reversed-Ordered (node ∷ later) rest s.1 (s.0, o)

-- The sets of `plan`, together.
abbrev pub known : Built → String → Bool
known b k =
    one_of b.locations k || (one_of b.interfaces k || (one_of b.prefixes k || one_of b.assigned k))

abbrev pub Based : List Node → Type 0
Based nodes =
    Has (keys nodes) "namespace"
    × Has (keys nodes) "status"
    × Has (keys nodes) "role"
    × Has (keys nodes) "location_type"
    × Has (keys nodes) "device_type"

-- What holds between two rounds of the loops.
pub record Inv (b : Built) : Type 0 where
  pub stacked : Stacked b.nodes
  pub knows : (k : String) → known b k ≡ true → Has (keys b.nodes) k
  pub based : Based b.nodes

-- No name is lost.
abbrev pub Grows : Built → Built → Type 0
Grows b c = (k : String) → Has (keys b.nodes) k → Has (keys c.nodes) k

str_eq_refl : (k : String) → str_eq k k ≡ true
str_eq_refl k = (eq_iff k k).1 refl

Has-head : (k : String) (names : List String) → Has (k ∷ names) k
Has-head k names = rw (str_eq_refl k) refl

Has-tail : (k n : String) (names : List String) → Has names k → Has (n ∷ names) k
Has-tail k n names h = ground arith

or-first : (s x r : Bool) → ((s || x) || r) ≡ true → (s ≡ true) ⊎ ((x || r) ≡ true)
or-first true x r h = inl refl
or-first false x r h = inr h

or-second : (l s x r : Bool) → (l || ((s || x) || r)) ≡ true → (s ≡ true) ⊎ ((l || (x || r)) ≡ true)
or-second l true x r h = inl refl
or-second l false x r h = inr h

or-third :
    (l i s x r : Bool)
    → (l || (i || ((s || x) || r))) ≡ true
    → (s ≡ true) ⊎ ((l || (i || (x || r))) ≡ true)
or-third l i true x r h = inl refl
or-third l i false x r h = inr h

or-fourth :
    (l i p s x : Bool)
    → (l || (i || (p || (s || x)))) ≡ true
    → (s ≡ true) ⊎ ((l || (i || (p || x))) ≡ true)
or-fourth l i p true x h = inl refl
or-fourth l i p false x h = inr h

-- A name that a set was extended with.
named :
    (c : Built) (key k : String)
    → Inv c
    → Has (keys c.nodes) key
    → (str_eq k key ≡ true) ⊎ (known c k ≡ true)
    → Has (keys c.nodes) k
named c key k i h (inl e) = subst (Has (keys c.nodes)) (sym ((eq_iff k key).0 e)) h
named c key k i h (inr e) = i.knows k e

-- `add` that returns: the node fits, and the invariant is kept.
pub add-Inv :
    (b c : Built) (node : Node)
    → Inv b
    → Refers (keys b.nodes) node.lookup
    → Refers (keys b.nodes) node.fields
    → add b node ≡ returned c
    → Inv c × Grows b c × Has (keys c.nodes) node.key × (known c ≡ known b)
add-Inv b c node i l f h = by_key (one_of (keys b.nodes) node.key) refl h
  where
    grown : Grows b (record b { nodes = node ∷ b.nodes })
    grown k has = Has-tail k node.key (keys b.nodes) has

    added : one_of (keys b.nodes) node.key ≡ false → Inv (record b { nodes = node ∷ b.nodes })
    added fresh = record {
      stacked = ((fresh, l, f), i.stacked);
      knows = λ k has. grown k (i.knows k has);
      based = (
        grown "namespace" i.based.0,
        grown "status" i.based.1,
        grown "role" i.based.2,
        grown "location_type" i.based.3,
        grown "device_type" i.based.4,
      );
    }

    by_key :
        (taken : Bool)
        → one_of (keys b.nodes) node.key ≡ taken
        → (if taken
            then raised (value_error "duplicate_key")
            else returned (record b { nodes = node ∷ b.nodes }))
          ≡ returned c
        → Inv c × Grows b c × Has (keys c.nodes) node.key × (known c ≡ known b)
    by_key true e h = absurd cc
    by_key false e h =
        let same : record b { nodes = node ∷ b.nodes } ≡ c = cc in
        subst (λ x. Inv x × Grows b x × Has (keys x.nodes) node.key × (known x ≡ known b)) same
          (added e, grown, Has-head node.key (keys b.nodes), refl)

-- Steps that keep the invariant, and lose no name.
abbrev pub Kept : Built → Built → Type 0
Kept b c = Inv c × Grows b c

pub then_Kept : (b c d : Built) → Kept b c → Kept c d → Kept b d
then_Kept b c d (i, g) (j, h) = (j, λ k has. h k (g k has))

pub stay : (b c : Built) → Inv b → returned b ≡ returned c → Kept b c
stay b c i h = let same : b ≡ c = cc in subst (Kept b) same (i, λ k has. has)

pub Kept-as : (b d c : Built) → Kept b d → returned d ≡ returned c → Kept b c
Kept-as b d c kept h = let same : d ≡ c = cc in subst (Kept b) same kept

pub with_location :
    (c : Built) (key : String)
    → Inv c
    → Has (keys c.nodes) key
    → Inv (record c { locations = key ∷ c.locations })
with_location c key i h = record {
  stacked = i.stacked;
  knows = λ k e. named c key k i h (or-first _ _ _ e);
  based = i.based;
}

pub with_interface :
    (c : Built) (key : String)
    → Inv c
    → Has (keys c.nodes) key
    → Inv (record c { interfaces = key ∷ c.interfaces })
with_interface c key i h = record {
  stacked = i.stacked;
  knows = λ k e. named c key k i h (or-second _ _ _ _ e);
  based = i.based;
}

pub with_prefix :
    (c : Built) (key : String)
    → Inv c
    → Has (keys c.nodes) key
    → Inv (record c { prefixes = key ∷ c.prefixes })
with_prefix c key i h = record {
  stacked = i.stacked;
  knows = λ k e. named c key k i h (or-third _ _ _ _ _ e);
  based = i.based;
}

pub with_assigned :
    (c : Built) (key : String)
    → Inv c
    → Has (keys c.nodes) key
    → Inv (record c { assigned = key ∷ c.assigned })
with_assigned c key i h = record {
  stacked = i.stacked;
  knows = λ k e. named c key k i h (
      or-fourth (one_of c.locations k) (one_of c.interfaces k) (one_of c.prefixes k) (str_eq k key)
        (one_of c.assigned k) e);
  based = i.based;
}
