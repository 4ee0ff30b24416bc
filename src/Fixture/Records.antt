-- ===== src/Fixture/Records.antt =====
-- The block of `plan` for the records of the domain name system.
pub mod Zones
use homelab_server_configs.Prelude.{
  ℕ, ◌+◌, ◌≤◌, ◌<◌, String, Bool, true, false, not, ◌&&◌, ◌||◌, Option, none, some, List, [], ◌∷◌,
  ◌++◌, map, leb, ltb, ◌==◌, str_eq, one_of, text_append, length, all, any, if◌then◌else◌,
}
use homelab_server_configs.Prelude.Exec.{
  Error, value_error, Outcome, returned, raised, and_then, checks,
}
use homelab_server_configs.Fixture.Data.{
  Fields, Node, Record, Address, Formats, Built, ref, text, number, flag, untyped, address_record,
  ptr, cname, txt, srv, malformed,
}
use homelab_server_configs.Fixture.Loops.{add, add_all, empty, simple}

module _ (formats : Formats) where
  abbrev pub domain : String → String
  domain name = text_append name ".pilot-synthetic.invalid"

  -- The names in the forward zone.
  abbrev pub forward : List Record → List String
  forward [] = []
  forward (untyped name address ∷ rest) = domain name ∷ forward rest
  forward (address_record six name address ∷ rest) = domain name ∷ forward rest
  forward (_ ∷ rest) = forward rest

  abbrev pub is_ptr : Record → Bool
  is_ptr (ptr name address target) = true
  is_ptr _ = false

  -- An `A` record of an address, with a name.
  abbrev pub points_back : String → String → Record → Bool
  points_back address target (address_record false name other) =
      str_eq other address && str_eq (domain name) target
  points_back address target _ = false

  abbrev pub view_node : String → Node
  view_node name = simple "dns-view" "nautobot_dns_models.dnsview" name [] none

  abbrev pub zone_node : String → String → Node
  zone_node key name = record {
    key = key;
    model = "nautobot_dns_models.dnszone";
    lookup = ("name", text name) ∷ ("dns_view", ref "dns-view") ∷ [];
    fields =
        ("filename", text name)
        ∷ ("soa_mname", text "ns.pilot-synthetic.invalid")
        ∷ ("soa_rname", text "hostmaster@pilot-synthetic.invalid")
        ∷ ("auto_create_ptr", flag false)
        ∷ ("enabled", flag false)
        ∷ [];
    content_types = none;
  }

  abbrev pub record_node : String → String → String → String → Fields → Node
  record_node key model zone name fields = record {
    key = key;
    model = model;
    lookup = ("zone", ref zone) ∷ ("name", text name) ∷ [];
    fields = fields;
    content_types = none;
  }

  -- The record of one type in a zone, with its own field.
  abbrev pub typed_node : String → String → String → String → Fields → Node
  typed_node kind model zone name own =
      record_node (text_append "dns/" (text_append kind (text_append "/" name)))
        (text_append "nautobot_dns_models." model) zone name
        (("enabled", flag false) ∷ ("ttl", number 3600) ∷ own)

  abbrev pub is_number16 : ℕ → Bool
  is_number16 n = leb n 65535

  abbrev pub host_checks : String → Built → String → String → List (Bool × String)
  host_checks error b name address = (formats.is_host name && one_of b.assigned address, error) ∷ []

  abbrev pub family_checks : Bool → Address → List (Bool × String)
  family_checks six a = (a.version == (if six then 6 else 4), "dns_address_family") ∷ []

  abbrev pub ptr_checks : List Record → Built → String → String → String → List (Bool × String)
  ptr_checks rows b name address target =
      (
        one_of b.assigned address && one_of (forward rows) target && formats.is_octet name,
        "dns_ptr_scope",
      )
      ∷ []

  abbrev pub pointer_checks :
      List Record → String → String → String → Address → List (Bool × String)
  pointer_checks rows name address target a =
      (
        str_eq a.reverse_pointer (text_append name ".0.18.198.in-addr.arpa")
            && any (points_back address target) rows,
        "dns_ptr_scope",
      )
      ∷ []

  abbrev pub cname_checks : List Record → String → String → List (Bool × String)
  cname_checks rows name target =
      (formats.is_alias name && one_of (forward rows) target, "dns_target") ∷ []

  abbrev pub txt_checks : String → String → List (Bool × String)
  txt_checks name content = (formats.is_text_name name && formats.is_text content, "dns_text") ∷ []

  abbrev pub srv_checks : List Record → String → String → ℕ → ℕ → ℕ → List (Bool × String)
  srv_checks rows name target priority weight port =
      (
        formats.is_service name
            && one_of (forward rows) target
            && is_number16 priority
            && is_number16 weight
            && is_number16 port,
        "dns_srv_scope",
      )
      ∷ []

  -- The node of each record; a malformed one is never added.
  abbrev pub dns_node : Record → Node
  dns_node (untyped name address) =
      record_node (text_append "dns/" name) "nautobot_dns_models.arecord" "dns-zone" name
        (("ip_address", ref address) ∷ ("enabled", flag false) ∷ ("ttl", number 3600) ∷ [])
  dns_node (address_record six name address) =
      typed_node (if six then "AAAA" else "A") (if six then "aaaarecord" else "arecord") "dns-zone"
        name (("ip_address", ref address) ∷ [])
  dns_node (ptr name address target) =
      typed_node "PTR" "ptrrecord" "dns-reverse-zone" name (("ptrdname", text target) ∷ [])
  dns_node (cname name target) =
      typed_node "CNAME" "cnamerecord" "dns-zone" name (("alias", text target) ∷ [])
  dns_node (txt name content) =
      typed_node "TXT" "txtrecord" "dns-zone" name (("text", text content) ∷ [])
  dns_node (srv name target priority weight port) = typed_node "SRV" "srvrecord" "dns-zone" name (
      ("target", text target)
      ∷ ("priority", number priority)
      ∷ ("weight", number weight)
      ∷ ("port", number port)
      ∷ [])
  dns_node malformed = simple "" "" "" [] none

  -- One round of the loop over the records of the domain name system.
  pub add_record : List Record → Built → Record → Outcome Built
  add_record rows b (untyped name address) =
      and_then (checks (host_checks "dns_scope" b name address))
        (λ _. add b (dns_node (untyped name address)))
  add_record rows b (address_record six name address) =
      and_then (checks (host_checks "dns_address_family" b name address)) (λ _.
        and_then (formats.ip_interface address) (λ a.
          and_then (checks (family_checks six a))
            (λ _. add b (dns_node (address_record six name address)))))
  add_record rows b (ptr name address target) =
      and_then (checks (ptr_checks rows b name address target)) (λ _.
        and_then (formats.ip_interface address) (λ a.
          and_then (checks (pointer_checks rows name address target a))
            (λ _. add b (dns_node (ptr name address target)))))
  add_record rows b (cname name target) =
      and_then (checks (cname_checks rows name target)) (λ _. add b (dns_node (cname name target)))
  add_record rows b (txt name content) =
      and_then (checks (txt_checks name content)) (λ _. add b (dns_node (txt name content)))
  add_record rows b (srv name target priority weight port) =
      and_then (checks (srv_checks rows name target priority weight port))
        (λ _. add b (dns_node (srv name target priority weight port)))
  add_record rows b malformed = raised (value_error "dns_shape")

  pub add_records : List Record → Built → List Record → Outcome Built
  unfolding add_record
  add_records rows b [] = returned b
  add_records rows b (row ∷ rest) = and_then (add_record rows b row) (λ c. add_records rows c rest)

  abbrev pub reverse_zones : Bool → List Node
  reverse_zones true = zone_node "dns-reverse-zone" "0.18.198.in-addr.arpa" ∷ []
  reverse_zones false = []

  abbrev pub zones : String → List Record → List Node
  zones name rows =
      view_node name
      ∷ zone_node "dns-zone" "pilot-synthetic.invalid"
      ∷ reverse_zones (any is_ptr rows)

  abbrev pub count_checks : List Record → List (Bool × String)
  count_checks rows = (leb (length rows) 64000, "dns_count") ∷ []

  -- The block for `dns_records`, which a key that is left out and an empty list both skip.
  unfoldable pub add_dns : String → Built → Option (List Record) → Outcome Built
  unfolding add_all add_records
  add_dns name b none = returned b
  add_dns name b (some []) = returned b
  add_dns name b (some (row ∷ rest)) = and_then (checks (count_checks (row ∷ rest))) (λ _.
      and_then (add_all b (zones name (row ∷ rest))) (λ c. add_records (row ∷ rest) c (row ∷ rest)))
