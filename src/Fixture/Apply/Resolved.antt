-- ===== src/Fixture/Apply/Resolved.antt =====
-- No reference of a plan is missing when it is applied.
use homelab_server_configs.Prelude.{
  String, List, [], ◌∷◌, ◌≡◌, refl, map, str_eq, Bool-cases, inl, inr, arith,
}
use homelab_server_configs.Prelude.Exec.{Outcome, returned, raised, and_then}
use homelab_server_configs.Fixture.Data.{
  Fields, Node, Dataset, Formats, ref, text, number, flag, null,
}
use homelab_server_configs.Fixture.Plan.{plan}
use homelab_server_configs.Fixture.Loops.Invariant.{Has, Refers, Ordered}
use homelab_server_configs.Fixture.Plan.Ordered.{plan-Ordered}
use homelab_server_configs.Fixture.Apply.{name_of, at, resolve}

abbrev Returned : {A : Type 0} → Outcome A → Type 0
Returned {A} o = (a : A) × (o ≡ returned a)

and_then-Returned :
    {A B : Type 0} (o : Outcome A) (f : A → Outcome B)
    → Returned o
    → ((a : A) → Returned (f a))
    → Returned (and_then o f)
and_then-Returned (returned a) f h g = g a
and_then-Returned (raised e) f (a, h) g = absurd cc

module _ {O : Type 0} where
  at-Returned :
      (objects : List (String × O)) (key : String)
      → Has (map name_of objects) key
      → Returned (at objects key)
  at-Returned [] key h = absurd cc
  at-Returned ((name, o) ∷ rest) key h = elim (Bool-cases (str_eq key name)) [
    | inl e ↦ rw e (o, refl)
    | inr e ↦ rw e (at-Returned rest key (ground (arith, e, h)))
  ]

  resolve-Returned :
      (objects : List (String × O)) (fields : Fields)
      → Refers (map name_of objects) fields
      → Returned (resolve objects fields)
  resolve-Returned objects [] h = ([], refl)
  resolve-Returned objects ((name, ref key) ∷ rest) h =
      and_then-Returned (at objects key) _ (at-Returned objects key h.0) (λ o.
        and_then-Returned (resolve objects rest) _ (resolve-Returned objects rest h.1)
          (λ others. (_, refl)))
  resolve-Returned objects ((name, text x) ∷ rest) h =
      and_then-Returned (resolve objects rest) _ (resolve-Returned objects rest h)
        (λ others. (_, refl))
  resolve-Returned objects ((name, number x) ∷ rest) h =
      and_then-Returned (resolve objects rest) _ (resolve-Returned objects rest h)
        (λ others. (_, refl))
  resolve-Returned objects ((name, flag x) ∷ rest) h =
      and_then-Returned (resolve objects rest) _ (resolve-Returned objects rest h)
        (λ others. (_, refl))
  resolve-Returned objects ((name, null) ∷ rest) h =
      and_then-Returned (resolve objects rest) _ (resolve-Returned objects rest h)
        (λ others. (_, refl))

  -- With the objects of the nodes before it, whichever they are, each node is resolved.
  abbrev pub Resolves : List (String × O) → List Node → Type 0
  Resolves objects [] = Unit
  Resolves objects (node ∷ rest) =
      Returned (resolve objects node.lookup)
      × Returned (resolve objects node.fields)
      × ((o : O) → Resolves ((node.key, o) ∷ objects) rest)

  Ordered-Resolves :
      (objects : List (String × O)) (nodes : List Node)
      → Ordered (map name_of objects) nodes
      → Resolves objects nodes
  Ordered-Resolves objects [] h = tt
  Ordered-Resolves objects (node ∷ rest) (fits, more) = (
    resolve-Returned objects node.lookup fits.1,
    resolve-Returned objects node.fields fits.2,
    λ o. Ordered-Resolves ((node.key, o) ∷ objects) rest more,
  )

-- When `plan` returns, the references of each of its nodes are resolved with the objects of the
-- nodes before it, whichever objects these are.
pub plan-Resolves :
    (O : Type 0) (formats : Formats) (dataset : Dataset) (nodes : List Node)
    → plan formats dataset ≡ returned nodes
    → Resolves {O = O} [] nodes
plan-Resolves O formats dataset nodes h =
    Ordered-Resolves [] nodes (plan-Ordered formats dataset nodes h)
