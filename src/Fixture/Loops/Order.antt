-- ===== src/Fixture/Loops/Order.antt =====
-- A plan names each object once, and each object after those that it refers to.
use mathlib.Core.Path.{subst}
use homelab_server_configs.Prelude.{
  String, Bool, true, false, List, [], ◌∷◌, ◌≡◌, refl, arith, one_of, if◌then◌else◌,
}
use homelab_server_configs.Prelude.Exec.{returned, and_then, and_then-returned, checked}
use homelab_server_configs.Fixture.Data.{
  Location, Interface, Device, Assignment, Address, Formats, Built,
}
use homelab_server_configs.Fixture.Loops.{
  keys, add, location_node, location_checks, interface_checks, add_location, add_locations,
  device_node, joined, interface_node, add_interface, add_interfaces, device_checks, add_device,
  add_devices, prefix_node, add_prefix, address_node, assignment_node, assignment_checks,
  add_assignment, add_assignments,
}
use homelab_server_configs.Fixture.Loops.Invariant.{
  Has, Inv, Kept, add-Inv, then_Kept, stay, Kept-as, with_location, with_interface, with_prefix,
  with_assigned,
}

module _ (formats : Formats) where
  add_location-Kept :
      (b c : Built) (row : Location) → Inv b → add_location formats b row ≡ returned c → Kept b c
  unfolding add_location
  add_location-Kept b c row i h =
      let (_, rest) = checked (location_checks formats row) _ c h in
      let (d, added, last) = and_then-returned (add b (location_node row)) _ c rest in
      let (j, g, has, _) =
        add-Inv b d (location_node row) i tt (i.based.3, (i.based.1, tt)) added in
      Kept-as b (record d { locations = row.key ∷ d.locations }) c
        (with_location d row.key j has, g) last

  pub add_locations-Kept :
      (b c : Built) (rows : List Location)
      → Inv b
      → add_locations formats b rows ≡ returned c
      → Kept b c
  unfolding add_locations
  add_locations-Kept b c [] i h = stay b c i h
  add_locations-Kept b c (row ∷ rest) i h =
      let (d, first, more) = and_then-returned (add_location formats b row) _ c h in
      let kept = add_location-Kept b d row i first in
      then_Kept b d c kept (add_locations-Kept d c rest kept.0 more)

  add_interface-Kept :
      (device : String) (b c : Built) (row : Interface)
      → Inv b
      → Has (keys b.nodes) device
      → add_interface formats device b row ≡ returned c
      → Kept b c
  unfolding add_interface
  add_interface-Kept device b c row i owner h =
      let (_, rest) = checked (interface_checks formats row) _ c h in
      let node = interface_node formats device row in
      let (d, added, last) = and_then-returned (add b node) _ c rest in
      let (j, g, has, _) = add-Inv b d node i (owner, tt) (i.based.1, tt) added in
      Kept-as b (record d { interfaces = joined formats device row.name ∷ d.interfaces }) c
        (with_interface d (joined formats device row.name) j has, g) last

  add_interfaces-Kept :
      (device : String) (b c : Built) (rows : List Interface)
      → Inv b
      → Has (keys b.nodes) device
      → add_interfaces formats device b rows ≡ returned c
      → Kept b c
  unfolding add_interfaces
  add_interfaces-Kept device b c [] i owner h = stay b c i h
  add_interfaces-Kept device b c (row ∷ rest) i owner h =
      let (d, first, more) = and_then-returned (add_interface formats device b row) _ c h in
      let kept = add_interface-Kept device b d row i owner first in
      then_Kept b d c kept (add_interfaces-Kept device d c rest kept.0 (kept.1 device owner) more)

  add_device-Kept :
      (b c : Built) (row : Device) → Inv b → add_device formats b row ≡ returned c → Kept b c
  unfolding add_device
  add_device-Kept b c row i h =
      let (held, rest) = checked (device_checks formats b row) _ c h in
      let node = device_node formats row in
      let (d, added, more) = and_then-returned (add b node) _ c rest in
      let placed : one_of b.locations row.location ≡ true = ground (arith, held.0) in
      let there = i.knows row.location (ground (arith, placed)) in
      let (j, g, has, _) =
        add-Inv b d node i tt (i.based.4, (i.based.2, (i.based.1, (there, tt)))) added in
      then_Kept b d c (j, g) (add_interfaces-Kept row.key d c row.interfaces j has more)

  pub add_devices-Kept :
      (b c : Built) (rows : List Device)
      → Inv b
      → add_devices formats b rows ≡ returned c
      → Kept b c
  unfolding add_devices
  add_devices-Kept b c [] i h = stay b c i h
  add_devices-Kept b c (row ∷ rest) i h =
      let (d, first, more) = and_then-returned (add_device formats b row) _ c h in
      let kept = add_device-Kept b d row i first in
      then_Kept b d c kept (add_devices-Kept d c rest kept.0 more)

  -- The prefix is there afterwards, whether it is new or not, and the sets of names have grown.
  add_prefix-Kept :
      (b c : Built) (a : Address)
      → Inv b
      → add_prefix formats b a ≡ returned c
      → Kept b c × Has (keys c.nodes) a.network
  unfolding add_prefix
  add_prefix-Kept b c a i h = by_prefix (one_of b.prefixes a.network) refl h
    where
      by_prefix :
          (present : Bool)
          → one_of b.prefixes a.network ≡ present
          → (if present
              then returned b
              else and_then
                  (add b (prefix_node formats a))
                  (λ d. returned (record d { prefixes = a.network ∷ d.prefixes })))
            ≡ returned c
          → Kept b c × Has (keys c.nodes) a.network
      by_prefix true e h =
          let kept = stay b c i h in
          (kept, kept.1 a.network (i.knows a.network (ground (arith, e))))
      by_prefix false e h =
          let node = prefix_node formats a in
          let (d, added, last) = and_then-returned (add b node) _ c h in
          let (j, g, has, _) = add-Inv b d node i (i.based.0, tt) (i.based.1, tt) added in
          let f = record d { prefixes = a.network ∷ d.prefixes } in
          let kept = Kept-as b f c (with_prefix d a.network j has, g) last in
          let same : f ≡ c = cc in (kept, subst (λ x. Has (keys x.nodes) a.network) same has)

  add_assignment-Kept :
      (long : Bool) (b c : Built) (row : Assignment)
      → Inv b
      → add_assignment formats long b row ≡ returned c
      → Kept b c
  unfolding add_assignment
  add_assignment-Kept long b c row i h =
      let (a, _, checking) = and_then-returned (formats.ip_interface row.address) _ c h in
      let (held, rest) = checked (assignment_checks formats b row a) _ c checking in
      let (p, prefixed, more) = and_then-returned (add_prefix formats b a) _ c rest in
      let (kept, prefix) = add_prefix-Kept b p a i prefixed in
      let node = address_node formats row.address a in
      let (d, added, last) = and_then-returned (add p node) _ c more in
      let (j, g, has, _) = add-Inv p d node kept.0 (prefix, tt) (kept.0.based.1, tt) added in
      let e = record d { assigned = row.address ∷ d.assigned } in
      let interface = joined formats row.device row.interface in
      let named : one_of b.interfaces interface ≡ true = ground (arith, held.0) in
      let there = g interface (kept.1 interface (i.knows interface (ground (arith, named)))) in
      let (k, g', _, _) =
        add-Inv e c (assignment_node formats long row) (with_assigned d row.address j has)
          (has, (there, tt)) tt last in
      then_Kept b p c kept (then_Kept p d c (j, g) (k, g'))

  pub add_assignments-Kept :
      (long : Bool) (b c : Built) (rows : List Assignment)
      → Inv b
      → add_assignments formats long b rows ≡ returned c
      → Kept b c
  unfolding add_assignments
  add_assignments-Kept long b c [] i h = stay b c i h
  add_assignments-Kept long b c (row ∷ rest) i h =
      let (d, first, more) = and_then-returned (add_assignment formats long b row) _ c h in
      let kept = add_assignment-Kept long b d row i first in
      then_Kept b d c kept (add_assignments-Kept long d c rest kept.0 more)
