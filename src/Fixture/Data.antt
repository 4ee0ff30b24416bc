-- ===== src/Fixture/Data.antt =====
-- The data set of the fixture, the nodes of a plan, and what is a parameter of it. The regular
-- expressions and the `ipaddress` module are parameters. The shapes of the rows
-- (`set(row) == {…}`) are the constructors and fields of the data, so that their checks are gone;
-- a row of another shape is `malformed`.
use homelab_server_configs.Prelude.{ℕ, String, Bool, Option, List}
use homelab_server_configs.Prelude.Exec.{Outcome}

pub data Value : Type 0 where
  ref text : String → Value
  number : ℕ → Value
  flag : Bool → Value
  null : Value

abbrev pub Fields : Type 0
Fields = List (String × Value)

pub record Node : Type 0 where
  pub key : String
  pub model : String
  pub lookup : Fields
  pub fields : Fields
  pub content_types : Option (List String)

pub record Location : Type 0 where
  pub key : String
  pub description : String

pub record Interface : Type 0 where
  pub name : String
  pub enabled : Bool

pub record Device : Type 0 where
  pub key : String
  pub location : String
  pub interfaces : List Interface

pub record Assignment : Type 0 where
  pub device : String
  pub interface : String
  pub address : String

-- A row of `dns_records`; the first constructor has no `type`.
pub data Record : Type 0 where
  untyped : String → String → Record
  address_record : Bool → String → String → Record
  ptr : String → String → String → Record
  cname : String → String → Record
  txt : String → String → Record
  srv : String → String → ℕ → ℕ → ℕ → Record
  malformed : Record

pub record Dataset : Type 0 where
  pub schema_version : ℕ
  pub namespace : String
  pub locations : List Location
  pub devices : List Device
  pub ip_assignments : List Assignment
  pub dns_records : Option (List Record)

-- `ipaddress.ip_interface(address)`, and which of the two reserved networks holds its address.
pub record Address : Type 0 where
  pub version : ℕ
  pub prefixlen : ℕ
  pub ip : String
  pub network : String
  pub network_address : String
  pub in_reserved : Bool
  pub reverse_pointer : String
  pub normal : String

-- The regular expressions, and the parser of addresses, which may raise.
pub record Formats : Type 0 where
  pub is_location_key : String → Bool
  pub is_device_key : String → Bool
  pub is_interface_name : String → Bool
  pub is_host : String → Bool
  pub is_octet : String → Bool
  pub is_alias : String → Bool
  pub is_text_name : String → Bool
  pub is_text : String → Bool
  pub is_service : String → Bool
  pub ip_interface : String → Outcome Address

-- The variables of `plan`: the nodes, the newest first, and the sets.
pub record Built : Type 0 where
  pub nodes : List Node
  pub locations : List String
  pub interfaces : List String
  pub prefixes : List String
  pub assigned : List String
