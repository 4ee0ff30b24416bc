-- ===== src/Fixture/Plan.antt =====
-- `plan`: the objects of a data set, in an order in which each refers to earlier ones only.
pub mod Ordered
use homelab_server_configs.Prelude.{
  ℕ, ◌+◌, ◌≤◌, ◌<◌, String, Bool, true, false, not, ◌&&◌, ◌||◌, Option, none, some, List, [], ◌∷◌,
  ◌++◌, map, leb, ltb, ◌==◌, str_eq, one_of, text_append, length, all, any, if◌then◌else◌,
}
use homelab_server_configs.Prelude.Exec.{
  Error, value_error, Outcome, returned, raised, and_then, checks,
}
use homelab_server_configs.Fixture.Data.{Node, Dataset, Formats, Built}
use homelab_server_configs.Fixture.Loops.{
  reversed, add_all, empty, base, add_locations, add_devices, add_assignments,
}
use homelab_server_configs.Fixture.Records.{add_dns}

module _ (formats : Formats) where
  abbrev pub shape_checks : Dataset → List (Bool × String)
  shape_checks dataset =
      ((dataset.schema_version == 1) && str_eq dataset.namespace "pilot-synthetic", "fixture_shape")
      ∷ (
        ltb 0 (length dataset.locations)
            && leb (length dataset.locations) (length dataset.devices)
            && leb (length dataset.devices) 64000
            && ltb 0 (length dataset.ip_assignments)
            && leb (length dataset.ip_assignments) 64000,
        "fixture_counts",
      )
      ∷ []

  abbrev pub is_given : {A : Type 0} → Option A → Bool
  is_given none = false
  is_given (some a) = true

  -- Whether the key of an assignment holds its address.
  abbrev pub long_keys : Dataset → Bool
  long_keys dataset =
      is_given dataset.dns_records || ltb (length dataset.devices) (length dataset.ip_assignments)

  -- The loops, after the nodes that every plan starts with.
  pub filled : Dataset → Built → Outcome Built
  unfolding add_locations add_devices add_assignments add_dns
  filled dataset b = and_then (add_locations formats b dataset.locations) (λ c.
      and_then (add_devices formats c dataset.devices) (λ d.
        and_then (add_assignments formats (long_keys dataset) d dataset.ip_assignments)
          (λ e. add_dns formats dataset.namespace e dataset.dns_records)))

  -- The sets and the nodes at the end of `plan`.
  pub built : Dataset → Outcome Built
  unfolding add_all filled
  built dataset =
      and_then (checks (shape_checks dataset))
        (λ _. and_then (add_all empty (base dataset.namespace)) (filled dataset))

  unfoldable pub plan : Dataset → Outcome (List Node)
  unfolding built
  plan dataset = and_then (built dataset) (λ b. returned (reversed [] b.nodes))
