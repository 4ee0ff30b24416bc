-- ===== src/Fixture/Loops.antt =====
-- The loops of `plan` over locations, devices and addresses, with `add` and the nodes they add.
pub mod Invariant
pub mod Order
use homelab_server_configs.Prelude.{
  ℕ, ◌+◌, ◌≤◌, ◌<◌, String, Bool, true, false, not, ◌&&◌, ◌||◌, Option, none, some, List, [], ◌∷◌,
  ◌++◌, map, leb, ltb, ◌==◌, str_eq, one_of, text_append, length, all, any, if◌then◌else◌,
}
use homelab_server_configs.Prelude.Exec.{
  Error, value_error, Outcome, returned, raised, and_then, checks,
}
use homelab_server_configs.Fixture.Data.{
  Fields, Node, Location, Interface, Device, Assignment, Address, Formats, Built, ref, text, number,
  flag, null,
}

abbrev pub key_of : Node → String
key_of node = node.key

abbrev pub keys : List Node → List String
keys nodes = map key_of nodes

-- A list the other way round, before another.
abbrev pub reversed : {A : Type 0} → List A → List A → List A
reversed after [] = after
reversed after (x ∷ xs) = reversed (x ∷ after) xs

-- `add(…)`
abbrev pub add : Built → Node → Outcome Built
add b node =
    if one_of (keys b.nodes) node.key
    then raised (value_error "duplicate_key")
    else returned (record b { nodes = node ∷ b.nodes })

-- The nodes of a data set of any content.
unfoldable pub add_all : Built → List Node → Outcome Built
add_all b [] = returned b
add_all b (node ∷ rest) = and_then (add b node) (λ c. add_all c rest)

abbrev pub empty : Built
empty = record { nodes = []; locations = []; interfaces = []; prefixes = []; assigned = [] }

abbrev pub simple : String → String → String → Fields → Option (List String) → Node
simple key model name fields types = record {
  key = key;
  model = model;
  lookup = ("name", text name) ∷ [];
  fields = fields;
  content_types = types;
}

abbrev pub base : String → List Node
base name =
    simple "namespace" "ipam.namespace" name (("tenant", null) ∷ ("location", null) ∷ []) none
    ∷ simple "status" "extras.status" name (("color", text "9e9e9e") ∷ []) (
        some (
          "dcim.location" ∷ "dcim.device" ∷ "dcim.interface" ∷ "ipam.prefix" ∷ "ipam.ipaddress"
          ∷ []))
    ∷ simple "role" "extras.role" name (("color", text "9e9e9e") ∷ []) (some ("dcim.device" ∷ []))
    ∷ simple "location_type" "dcim.locationtype" name
        (("parent", null) ∷ ("nestable", flag false) ∷ []) (some ("dcim.device" ∷ []))
    ∷ simple "manufacturer" "dcim.manufacturer" name [] none
    ∷ record {
      key = "device_type";
      model = "dcim.devicetype";
      lookup = ("manufacturer", ref "manufacturer") ∷ ("model", text name) ∷ [];
      fields = ("u_height", number 0) ∷ ("is_full_depth", flag false) ∷ [];
      content_types = none;
    }
    ∷ []

abbrev pub location_node : Location → Node
location_node row = record {
  key = row.key;
  model = "dcim.location";
  lookup = ("name", text row.key) ∷ [];
  fields =
      ("location_type", ref "location_type")
      ∷ ("status", ref "status")
      ∷ ("description", text row.description)
      ∷ ("parent", null)
      ∷ [];
  content_types = none;
}

module _ (formats : Formats) where
  abbrev pub location_checks : Location → List (Bool × String)
  location_checks row =
      (
        formats.is_location_key row.key && str_eq row.description "Synthetic acceptance fixture",
        "location_shape",
      )
      ∷ []

  abbrev pub interface_checks : Interface → List (Bool × String)
  interface_checks row = (formats.is_interface_name row.name && row.enabled, "interface_shape") ∷ []

  -- One round of each loop. A set is extended together with its node.
  pub add_location : Built → Location → Outcome Built
  add_location b row = and_then (checks (location_checks row)) (λ _.
      and_then (add b (location_node row))
        (λ c. returned (record c { locations = row.key ∷ c.locations })))

  unfoldable pub add_locations : Built → List Location → Outcome Built
  unfolding add_location
  add_locations b [] = returned b
  add_locations b (row ∷ rest) = and_then (add_location b row) (λ c. add_locations c rest)

  abbrev pub device_node : Device → Node
  device_node row = record {
    key = row.key;
    model = "dcim.device";
    lookup = ("name", text row.key) ∷ [];
    fields =
        ("device_type", ref "device_type")
        ∷ ("role", ref "role")
        ∷ ("status", ref "status")
        ∷ ("location", ref row.location)
        ∷ [];
    content_types = none;
  }

  abbrev pub joined : String → String → String
  joined device interface = text_append device (text_append "/" interface)

  abbrev pub interface_node : String → Interface → Node
  interface_node device row = record {
    key = joined device row.name;
    model = "dcim.interface";
    lookup = ("device", ref device) ∷ ("name", text row.name) ∷ [];
    fields = ("type", text "virtual") ∷ ("enabled", flag true) ∷ ("status", ref "status") ∷ [];
    content_types = none;
  }

  pub add_interface : String → Built → Interface → Outcome Built
  add_interface device b row = and_then (checks (interface_checks row)) (λ _.
      and_then (add b (interface_node device row))
        (λ c. returned (record c { interfaces = joined device row.name ∷ c.interfaces })))

  pub add_interfaces : String → Built → List Interface → Outcome Built
  unfolding add_interface
  add_interfaces device b [] = returned b
  add_interfaces device b (row ∷ rest) =
      and_then (add_interface device b row) (λ c. add_interfaces device c rest)

  abbrev pub device_checks : Built → Device → List (Bool × String)
  device_checks b row =
      (
        formats.is_device_key row.key
            && one_of b.locations row.location
            && ltb 0 (length row.interfaces)
            && leb (length row.interfaces) 65000,
        "device_shape",
      )
      ∷ []

  pub add_device : Built → Device → Outcome Built
  unfolding add_interfaces
  add_device b row =
      and_then (checks (device_checks b row))
        (λ _. and_then (add b (device_node row)) (λ c. add_interfaces row.key c row.interfaces))

  unfoldable pub add_devices : Built → List Device → Outcome Built
  unfolding add_device
  add_devices b [] = returned b
  add_devices b (row ∷ rest) = and_then (add_device b row) (λ c. add_devices c rest)

  abbrev pub is_allowed : Address → Bool
  is_allowed a =
      ((a.version == 4) && (a.prefixlen == 24) && a.in_reserved)
      || ((a.version == 6) && (a.prefixlen == 64) && a.in_reserved)

  abbrev pub prefix_node : Address → Node
  prefix_node a = record {
    key = a.network;
    model = "ipam.prefix";
    lookup =
        ("namespace", ref "namespace")
        ∷ ("network", text a.network_address)
        ∷ ("prefix_length", number a.prefixlen)
        ∷ [];
    fields = ("status", ref "status") ∷ ("type", text "network") ∷ [];
    content_types = none;
  }

  pub add_prefix : Built → Address → Outcome Built
  add_prefix b a =
      if one_of b.prefixes a.network
      then returned b
      else and_then (add b (prefix_node a))
          (λ c. returned (record c { prefixes = a.network ∷ c.prefixes }))

  abbrev pub address_node : String → Address → Node
  address_node address a = record {
    key = address;
    model = "ipam.ipaddress";
    lookup = ("parent", ref a.network) ∷ ("host", text a.ip) ∷ [];
    fields =
        ("mask_length", number a.prefixlen) ∷ ("status", ref "status") ∷ ("type", text "host") ∷ [];
    content_types = none;
  }

  abbrev pub assignment_node : Bool → Assignment → Node
  assignment_node long row = record {
    key = text_append "assignment/" (
        text_append (joined row.device row.interface)
          (if long then text_append "/" row.address else ""));
    model = "ipam.ipaddresstointerface";
    lookup =
        ("ip_address", ref row.address) ∷ ("interface", ref (joined row.device row.interface)) ∷ [];
    fields = [];
    content_types = none;
  }

  abbrev pub assignment_checks : Built → Assignment → Address → List (Bool × String)
  assignment_checks b row a =
      (
        one_of b.interfaces (joined row.device row.interface)
            && not (one_of b.assigned row.address)
            && is_allowed a
            && str_eq a.normal row.address,
        "assignment_scope",
      )
      ∷ []

  pub add_assignment : Bool → Built → Assignment → Outcome Built
  unfolding add_prefix
  add_assignment long b row = and_then (formats.ip_interface row.address) (λ a.
      and_then (checks (assignment_checks b row a)) (λ _. and_then (add_prefix b a) (λ c.
        and_then (add c (address_node row.address a)) (λ d.
          add (record d { assigned = row.address ∷ d.assigned }) (assignment_node long row)))))

  unfoldable pub add_assignments : Bool → Built → List Assignment → Outcome Built
  unfolding add_assignment
  add_assignments long b [] = returned b
  add_assignments long b (row ∷ rest) =
      and_then (add_assignment long b row) (λ c. add_assignments long c rest)
