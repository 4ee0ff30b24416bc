-- ===== src/Tests/Objects.antt =====
-- A small fixture that is planned, created, and compared with its receipt.
use homelab_server_configs.Prelude.{
  ℕ, ◌+◌, String, true, false, none, some, List, [], ◌∷◌, ◌++◌, ◌≡◌, refl, map,
}
use homelab_server_configs.Prelude.Exec
use homelab_server_configs.Prelude.Exec.{Outcome, returned}
use homelab_server_configs.Fixture.Data.{
  Node, Location, Interface, Device, Assignment, Record, Dataset, Address, Formats, address_record,
  ptr,
}
use homelab_server_configs.Fixture.Loops.{
  reversed, base, location_node, device_node, interface_node, prefix_node, address_node,
  assignment_node,
}
use homelab_server_configs.Fixture.Records.{view_node, zone_node, dns_node}
use homelab_server_configs.Fixture.Plan.{plan}
use homelab_server_configs.Fixture.Loops.Invariant.{Ordered}
use homelab_server_configs.Fixture.Plan.Ordered.{plan-Ordered}
use homelab_server_configs.Fixture.Apply.{Receipt, Store, Run, apply}
use homelab_server_configs.Fixture.Apply.Resolved.{Resolves, plan-Resolves}
use homelab_server_configs.Fixture.Apply.Owned.{Created, apply-creates, apply-creates_nothing}

abbrev address : Address
address = record {
  version = 4;
  prefixlen = 24;
  ip = "198.18.0.7";
  network = "198.18.0.0/24";
  network_address = "198.18.0.0";
  in_reserved = true;
  reverse_pointer = "7.0.18.198.in-addr.arpa";
  normal = "198.18.0.7/24";
}

abbrev formats : Formats
formats = record {
  is_location_key = λ s. true;
  is_device_key = λ s. true;
  is_interface_name = λ s. true;
  is_host = λ s. true;
  is_octet = λ s. true;
  is_alias = λ s. true;
  is_text_name = λ s. true;
  is_text = λ s. true;
  is_service = λ s. true;
  ip_interface = λ s. returned address;
}

abbrev location : Location
location = record { key = "pilot-location-01"; description = "Synthetic acceptance fixture" }

abbrev interface : Interface
interface = record { name = "eth0"; enabled = true }

abbrev device : Device
device = record {
  key = "pilot-device-0001";
  location = "pilot-location-01";
  interfaces = interface ∷ [];
}

abbrev assignment : Assignment
assignment = record { device = "pilot-device-0001"; interface = "eth0"; address = "198.18.0.7/24" }

abbrev host_record : Record
host_record = address_record false "host-0001" "198.18.0.7/24"

abbrev back_record : Record
back_record = ptr "7" "198.18.0.7/24" "host-0001.pilot-synthetic.invalid"

abbrev dataset : Dataset
dataset = record {
  schema_version = 1;
  namespace = "pilot-synthetic";
  locations = location ∷ [];
  devices = device ∷ [];
  ip_assignments = assignment ∷ [];
  dns_records = some (host_record ∷ back_record ∷ []);
}

abbrev nodes : List Node
nodes =
    base "pilot-synthetic"
    ++ (location_node location
        ∷ device_node formats device
        ∷ interface_node formats "pilot-device-0001" interface
        ∷ prefix_node formats address
        ∷ address_node formats "198.18.0.7/24" address
        ∷ assignment_node formats true assignment
        ∷ view_node formats "pilot-synthetic"
        ∷ zone_node formats "dns-zone" "pilot-synthetic.invalid"
        ∷ zone_node formats "dns-reverse-zone" "0.18.198.in-addr.arpa"
        ∷ dns_node formats host_record
        ∷ dns_node formats back_record
        ∷ [])

is_planned : plan formats dataset ≡ returned nodes
unfolding plan
is_planned = refl

plan-Ordered_example : Ordered [] nodes
plan-Ordered_example = plan-Ordered formats dataset nodes is_planned

plan-Resolves_example : Resolves {O = ℕ} [] nodes
plan-Resolves_example = plan-Resolves ℕ formats dataset nodes is_planned

-- A store that finds nothing, and counts the objects that it creates.
abbrev store : Store
store = record {
  State = ℕ;
  Object = ℕ;
  enter = λ write w. (returned tt, w);
  commit = λ w. (returned tt, w);
  roll_back = λ w. 0;
  find = λ model lookup w. (returned [], w);
  create = λ model arguments types w. (returned w, w + 1);
  matches = λ o arguments types w. (returned true, w);
  check_membership = λ objects nodes w. (returned tt, w);
  identity = λ o. "id";
  canonical_size = λ dataset. 900;
  digest = λ dataset. "d1";
}

abbrev entry : Node → String × String
entry node = (node.key, "id")

abbrev receipt : Receipt
receipt = record {
  schema_version = 1;
  fixture_sha256 = "d1";
  objects = reversed [] (map entry nodes);
}

abbrev fresh : Run ℕ
fresh = record { world = 0; created = [] }

is_applied : (apply store formats dataset none true fresh).0 ≡ returned receipt
unfolding apply plan Exec.◌>>=◌ Exec.catch
is_applied = refl

apply-creates_example :
    Created store none [] formats dataset (apply store formats dataset none true fresh).1.created
apply-creates_example = apply-creates store formats dataset none true fresh receipt is_applied

apply-creates_nothing_example :
    (apply store formats dataset (some receipt) true fresh).1.created ≡ []
apply-creates_nothing_example = apply-creates_nothing store formats dataset receipt true fresh
