-- ===== src/Prelude/Json.antt =====
-- JSON values as Python's `json.loads` returns them; an object is a dictionary with distinct keys.
use Prim.Native.Nat.{ℕ}
use Prim.Native.String.{String}
use mathlib.Core.Bool.{Bool, true, false}
use mathlib.Core.Option.{Option, none, some}
use mathlib.Core.List.{List, [], ◌∷◌}
use text.Mathlib.Text.{◌==◌ as str_eq}
use homelab_server_configs.Prelude.Tests.{if◌then◌else◌}

mutual
  pub data Json : Type 0 where
    null : Json
    boolean : Bool → Json
    natural : ℕ → Json
    -- A negative number, a fraction or an exponent, as it is spelled.
    real : String → Json
    string : String → Json
    array : Items → Json
    object : Fields → Json

  pub data Items : Type 0 where
    nil : Items
    cons : Json → Items → Items

  pub data Fields : Type 0 where
    end : Fields
    field : String → Json → Fields → Fields

abbrev pub items : Items → List Json
items nil = []
items (cons j js) = j ∷ items js

-- `mapping.get(key)`, where `none` is a key that is not there.
abbrev pub find : String → Fields → Option Json
find key end = none
find key (field k j rest) = if str_eq k key then some j else find key rest

-- `isinstance(value, dict)`
abbrev pub as_object : Option Json → Option Fields
as_object (some (object fs)) = some fs
as_object _ = none

-- `isinstance(value, list)`
abbrev pub as_array : Option Json → Option (List Json)
as_array (some (array js)) = some (items js)
as_array _ = none

-- `isinstance(value, str)`
abbrev pub as_text : Option Json → Option String
as_text (some (string s)) = some s
as_text _ = none

-- `value is None`, of a `get`.
abbrev pub is_null : Option Json → Bool
is_null none = true
is_null (some null) = true
is_null (some _) = false

-- `value == s` for a text `s`.
abbrev pub equals_text : String → Option Json → Bool
equals_text s (some (string t)) = str_eq t s
equals_text s _ = false

-- `all(isinstance(value, str) for value in values)`, with the texts.
abbrev pub all_texts : List Json → Option (List String)
all_texts [] = some []
all_texts (j ∷ js) = both (as_text (some j)) (all_texts js)
  where
    both : Option String → Option (List String) → Option (List String)
    both (some s) (some ss) = some (s ∷ ss)
    both _ _ = none
