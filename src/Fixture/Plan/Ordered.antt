-- ===== src/Fixture/Plan/Ordered.antt =====
-- A plan names each object once, and each object after those that it refers to.
use mathlib.Core.Path.{subst}
use homelab_server_configs.Prelude.{String, List, [], ◌≡◌, refl}
use homelab_server_configs.Prelude.Exec.{returned, and_then-returned, checked}
use homelab_server_configs.Fixture.Data.{Node, Dataset, Formats, Built}
use homelab_server_configs.Fixture.Loops.{
  reversed, add_all, empty, base, add_locations, add_devices, add_assignments,
}
use homelab_server_configs.Fixture.Plan.{shape_checks, long_keys, filled, built, plan}
use homelab_server_configs.Fixture.Records.Zones.{add_dns-Kept}
use homelab_server_configs.Fixture.Loops.Invariant.{Ordered, Inv, reversed-Ordered}
use homelab_server_configs.Fixture.Loops.Order.{
  add_locations-Kept, add_devices-Kept, add_assignments-Kept,
}

module _ (formats : Formats) where
  -- The nodes that every plan starts with.
  base-Inv : (name : String) (b : Built) → add_all empty (base name) ≡ returned b → Inv b
  unfolding add_all
  base-Inv name b h =
      let start : Built = record empty { nodes = reversed [] (base name) } in
      let same : start ≡ b = cc in
      subst Inv same (record {
        stacked = (
          (refl, (refl, tt), tt),
          (
            (refl, tt, tt),
            ((refl, tt, tt), ((refl, tt, tt), ((refl, tt, tt), ((refl, tt, tt), tt)))),
          ),
        );
        knows = λ k e. absurd cc;
        based = (refl, refl, refl, refl, refl);
      })

  filled-Inv :
      (dataset : Dataset) (b c : Built) → Inv b → filled formats dataset b ≡ returned c → Inv c
  unfolding filled
  filled-Inv dataset b c i h =
      let (d, placed, r) = and_then-returned (add_locations formats b dataset.locations) _ c h in
      let (j, _) = add_locations-Kept formats b d dataset.locations i placed in
      let (e, owned, s) = and_then-returned (add_devices formats d dataset.devices) _ c r in
      let (k, _) = add_devices-Kept formats d e dataset.devices j owned in
      let long = long_keys formats dataset in
      let (f, assigned, t) =
        and_then-returned (add_assignments formats long e dataset.ip_assignments) _ c s in
      let (l, _) = add_assignments-Kept formats long e f dataset.ip_assignments k assigned in
      (add_dns-Kept formats dataset.namespace f c dataset.dns_records l t).0

  built-Inv : (dataset : Dataset) (b : Built) → built formats dataset ≡ returned b → Inv b
  unfolding built
  built-Inv dataset b h =
      let (_, rest) = checked (shape_checks formats dataset) _ b h in
      let (c, based, more) =
        and_then-returned (add_all empty (base dataset.namespace)) (filled formats dataset) b
          rest in
      filled-Inv dataset c b (base-Inv dataset.namespace c based) more

  -- When `plan` returns, no two nodes have the same key, and each node refers in its lookup and its
  -- fields only to keys of nodes that come before it.
  pub plan-Ordered :
      (dataset : Dataset) (nodes : List Node)
      → plan formats dataset ≡ returned nodes
      → Ordered [] nodes
  unfolding plan
  plan-Ordered dataset nodes h =
      let (b, done, last) = and_then-returned (built formats dataset) _ nodes h in
      let same : reversed [] b.nodes ≡ nodes = cc in
      subst (Ordered []) same (reversed-Ordered [] b.nodes (built-Inv dataset b done).stacked tt)
