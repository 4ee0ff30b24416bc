-- ===== src/Fixture/Records/Zones.antt =====
-- The records keep the invariant of the loops: their zones stand before them.
use homelab_server_configs.Prelude.{
  String, Bool, true, false, Option, none, some, List, [], ◌∷◌, ◌≡◌, refl, arith, any, one_of,
}
use homelab_server_configs.Prelude.Exec.{returned, and_then-returned, checked}
use homelab_server_configs.Fixture.Data.{
  Node, Record, Formats, Built, untyped, address_record, ptr, cname, txt, srv, malformed,
}
use homelab_server_configs.Fixture.Loops.{keys, add, add_all}
use homelab_server_configs.Fixture.Records.{
  is_ptr, view_node, zone_node, host_checks, family_checks, ptr_checks, pointer_checks,
  cname_checks, txt_checks, srv_checks, dns_node, add_record, add_records, reverse_zones, zones,
  count_checks, add_dns,
}
use homelab_server_configs.Fixture.Loops.Invariant.{
  Has, Refers, Inv, Grows, Kept, add-Inv, then_Kept, stay,
}

node-Kept :
    (b c : Built) (node : Node)
    → Inv b
    → Refers (keys b.nodes) node.lookup
    → Refers (keys b.nodes) node.fields
    → add b node ≡ returned c
    → Kept b c
node-Kept b c node i l f h = let (j, g, _, _) = add-Inv b c node i l f h in (j, g)

module _ (formats : Formats) where
  -- The zones that records of these rows stand in.
  abbrev Zoned : List Record → Built → Type 0
  Zoned rows b =
      Has (keys b.nodes) "dns-zone"
      × (any (is_ptr formats) rows ≡ true → Has (keys b.nodes) "dns-reverse-zone")

  Zoned-Grows : (rows : List Record) (b c : Built) → Grows b c → Zoned rows b → Zoned rows c
  Zoned-Grows rows b c g (zone, reverse) =
      (g "dns-zone" zone, λ h. g "dns-reverse-zone" (reverse h))

  add_record-Kept :
      (rows : List Record) (b c : Built) (row : Record)
      → Inv b
      → Zoned (row ∷ []) b
      → add_record formats rows b row ≡ returned c
      → Kept b c
  unfolding add_record
  add_record-Kept rows b c (untyped name address) i z h =
      let (held, rest) = checked (host_checks formats "dns_scope" b name address) _ c h in
      let given : one_of b.assigned address ≡ true = ground (arith, held.0) in
      let there = i.knows address (ground (arith, given)) in
      node-Kept b c (dns_node formats (untyped name address)) i (z.0, tt) (there, tt) rest
  add_record-Kept rows b c (address_record six name address) i z h =
      let (held, rest) = checked (host_checks formats "dns_address_family" b name address) _ c h in
      let (a, _, more) = and_then-returned (formats.ip_interface address) _ c rest in
      let (_, last) = checked (family_checks formats six a) _ c more in
      let given : one_of b.assigned address ≡ true = ground (arith, held.0) in
      let there = i.knows address (ground (arith, given)) in
      node-Kept b c (dns_node formats (address_record six name address)) i (z.0, tt) (there, tt)
        last
  add_record-Kept rows b c (ptr name address target) i z h =
      let (_, rest) = checked (ptr_checks formats rows b name address target) _ c h in
      let (a, _, more) = and_then-returned (formats.ip_interface address) _ c rest in
      let (_, last) = checked (pointer_checks formats rows name address target a) _ c more in
      node-Kept b c (dns_node formats (ptr name address target)) i (z.1 refl, tt) tt last
  add_record-Kept rows b c (cname name target) i z h =
      let (_, rest) = checked (cname_checks formats rows name target) _ c h in
      node-Kept b c (dns_node formats (cname name target)) i (z.0, tt) tt rest
  add_record-Kept rows b c (txt name content) i z h =
      let (_, rest) = checked (txt_checks formats name content) _ c h in
      node-Kept b c (dns_node formats (txt name content)) i (z.0, tt) tt rest
  add_record-Kept rows b c (srv name target priority weight port) i z h =
      let (_, rest) = checked (srv_checks formats rows name target priority weight port) _ c h in
      node-Kept b c (dns_node formats (srv name target priority weight port)) i (z.0, tt) tt rest
  add_record-Kept rows b c malformed i z h = absurd cc

  add_records-Kept :
      (rows : List Record) (b c : Built) (rest : List Record)
      → Inv b
      → Zoned rest b
      → add_records formats rows b rest ≡ returned c
      → Kept b c
  unfolding add_records
  add_records-Kept rows b c [] i z h = stay b c i h
  add_records-Kept rows b c (row ∷ rest) i z h =
      let (d, first, more) = and_then-returned (add_record formats rows b row) _ c h in
      let one : Zoned (row ∷ []) b = (z.0, λ e. z.1 (ground (arith, e))) in
      let others : Zoned rest b = (z.0, λ e. z.1 (ground (arith, e))) in
      let kept = add_record-Kept rows b d row i one first in
      then_Kept b d c kept
        (add_records-Kept rows d c rest kept.0 (Zoned-Grows rest b d kept.1 others) more)

  reverse-Kept :
      (present : Bool) (b c : Built)
      → Inv b
      → Has (keys b.nodes) "dns-view"
      → add_all b (reverse_zones formats present) ≡ returned c
      → Kept b c × (present ≡ true → Has (keys c.nodes) "dns-reverse-zone")
  unfolding add_all
  reverse-Kept false b c i view h = (stay b c i h, λ e. absurd cc)
  reverse-Kept true b c i view h =
      let zone = zone_node formats "dns-reverse-zone" "0.18.198.in-addr.arpa" in
      let (d, added, last) = and_then-returned (add b zone) _ c h in
      let (j, g, there, _) = add-Inv b d zone i (view, tt) tt added in
      let kept = stay d c j last in
      (then_Kept b d c (j, g) kept, λ e. kept.1 "dns-reverse-zone" there)

  zones-Kept :
      (name : String) (rows : List Record) (b c : Built)
      → Inv b
      → add_all b (zones formats name rows) ≡ returned c
      → Kept b c × Zoned rows c
  unfolding add_all
  zones-Kept name rows b c i h =
      let (d, viewed, rest) = and_then-returned (add b (view_node formats name)) _ c h in
      let (j, g, view, _) = add-Inv b d (view_node formats name) i tt tt viewed in
      let zone = zone_node formats "dns-zone" "pilot-synthetic.invalid" in
      let (e, zoned, last) = and_then-returned (add d zone) _ c rest in
      let (k, g', there, _) = add-Inv d e zone j (view, tt) tt zoned in
      let (kept, reverse) =
        reverse-Kept (any (is_ptr formats) rows) e c k (g' "dns-view" view) last in
      (then_Kept b d c (j, g) (then_Kept d e c (k, g') kept), (kept.1 "dns-zone" there, reverse))

  pub add_dns-Kept :
      (name : String) (b c : Built) (rows : Option (List Record))
      → Inv b
      → add_dns formats name b rows ≡ returned c
      → Kept b c
  unfolding add_dns
  add_dns-Kept name b c none i h = stay b c i h
  add_dns-Kept name b c (some []) i h = stay b c i h
  add_dns-Kept name b c (some (row ∷ rest)) i h =
      let (_, more) = checked (count_checks formats (row ∷ rest)) _ c h in
      let (d, zoned, last) =
        and_then-returned (add_all b (zones formats name (row ∷ rest))) _ c more in
      let (kept, z) = zones-Kept name (row ∷ rest) b d i zoned in
      then_Kept b d c kept (add_records-Kept (row ∷ rest) d c (row ∷ rest) kept.0 z last)
