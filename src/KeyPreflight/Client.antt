-- ===== src/KeyPreflight/Client.antt =====
-- `request_json`, the readers of a reply's fields, and the checks of the two URLs.
use homelab_server_configs.Prelude.{
  ℕ, ◌*◌, String, Bool, true, false, not, ◌&&◌, ◌||◌, Option, none, some, List, [], ◌∷◌, ◌≡◌, arith,
  ◌==◌, leb, ltb, all, length, codes, decimal, str_eq, is_name, starts_with_codes, text_append,
  if◌then◌else◌,
}
use homelab_server_configs.Prelude.Exec.{
  Error, blocked, other_error, Outcome, returned, raised, Exec, Post-const, Ensures,
}
use homelab_server_configs.Prelude.Json.{Json, object, array, Fields, find, as_array, as_text}

-- `PreflightBlocked(code)`; the observations that one of them carries are kept in the run.
unfoldable pub preflight_blocked : String → Error
preflight_blocked code = blocked (if is_name code then code else "invalid_error_class")

abbrev pub expected_s3_url : String
expected_s3_url = "https://s3.us-west-002.backblazeb2.com"

abbrev max_response_bytes : ℕ
max_response_bytes = 1024 * 1024

-- A request of the native API; every one is a POST.
pub record ApiRequest : Type 0 where
  pub url : String
  pub authorization : String
  pub body : Fields

-- What the opener gives: a reply with its final URL and the bytes that were read, an HTTP status
-- that is an error, no connection, or another exception.
pub data ApiReply : Type 0 where
  replied : String → List ℕ → ApiReply
  http_error : ℕ → ApiReply
  unreachable : ApiReply
  failed : Error → ApiReply

-- The opener, and `json.loads`.
pub record Provider : Type 1 where
  pub State : Type 0
  pub post : ApiRequest → State → ApiReply × State
  pub parse_json : List ℕ → Option Json

-- What a run has sent, the newest first, the checks that it has noted, and the capabilities that
-- were present and missing where the management authority was insufficient.
pub record Run (W : Type 0) : Type 0 where
  pub world : W
  pub requests : List ApiRequest
  pub checks : List String
  pub authority : Option (List String × List String)

abbrev the_object : Option Json → Outcome Fields
the_object (some (object fs)) = returned fs
the_object _ = raised (preflight_blocked "invalid_provider_response")

module _ (env : Provider) where
  -- The reply to a request for `url`.
  pub read_reply : String → ApiReply → Outcome Fields
  read_reply url (http_error code) =
      raised (preflight_blocked (text_append "provider_http_" (decimal code)))
  read_reply url unreachable = raised (preflight_blocked "provider_transport_error")
  read_reply url (failed e) = raised e
  read_reply url (replied final payload) =
      if not (str_eq final url)
      then raised (preflight_blocked "redirect_rejected")
      else if ltb max_response_bytes (length payload)
      then raised (preflight_blocked "provider_response_too_large")
      else the_object (env.parse_json payload)

  pub request_json : ApiRequest → Exec (Run env.State) Fields
  unfolding read_reply
  request_json r s =
      let (reply, w) = env.post r s.world in
      (read_reply r.url reply, record s { world = w; requests = r ∷ s.requests })

-- `require_string(mapping, key)`
pub require_string : Fields → String → Outcome String
require_string mapping key = non_empty (as_text (find key mapping))
  where
    non_empty : Option String → Outcome String
    non_empty none = raised (preflight_blocked "invalid_provider_response")
    non_empty (some s) =
        if str_eq s "" then raised (preflight_blocked "invalid_provider_response") else returned s

pub require_dict : Fields → String → Outcome Fields
require_dict mapping key = the_object (find key mapping)

pub require_list : Fields → String → Outcome (List Json)
require_list mapping key = elim (as_array (find key mapping)) [
  | none ↦ raised (preflight_blocked "invalid_provider_response")
  | some js ↦ returned js
]

-- `set(values)`, which raises `TypeError` at a list or a dictionary.
abbrev pub is_hashable : Json → Bool
is_hashable (object _) = false
is_hashable (array _) = false
is_hashable _ = true

pub as_set : List Json → Outcome (List Json)
as_set js = if all is_hashable js then returned js else raised other_error

-- What `urllib.parse.urlsplit` gives for a URL; an empty query, fragment or host is "".
pub record SplitUrl : Type 0 where
  pub scheme : String
  pub has_username : Bool
  pub has_password : Bool
  pub port : Option ℕ
  pub query : String
  pub fragment : String
  pub path : String
  pub hostname : String

abbrev is_digit : ℕ → Bool
is_digit c = leb b'0' c && leb c b'9'

abbrev drop_digits : List ℕ → List ℕ
drop_digits [] = []
drop_digits (c ∷ rest) = elim (is_digit c) [ true ↦ drop_digits rest | false ↦ c ∷ rest ]

abbrev codes_eq : List ℕ → List ℕ → Bool
codes_eq [] [] = true
codes_eq (a ∷ s) (b ∷ t) = (a == b) && codes_eq s t
codes_eq _ _ = false

-- `API_HOST_RE.fullmatch(hostname)`: "api", digits or none, and the domain.
unfoldable pub is_api_host : String → Bool
is_api_host hostname = elim (starts_with_codes (codes "api") (codes hostname)) [
  | none ↦ false
  | some rest ↦ codes_eq (drop_digits rest) (codes ".backblazeb2.com")
]

abbrev pub is_standard_port : Option ℕ → Bool
is_standard_port none = true
is_standard_port (some p) = p == 443

pub is_safe_api_url : SplitUrl → Bool
is_safe_api_url parsed =
    str_eq parsed.scheme "https"
    && not parsed.has_username
    && not parsed.has_password
    && is_standard_port parsed.port
    && str_eq parsed.query ""
    && str_eq parsed.fragment ""
    && (str_eq parsed.path "" || str_eq parsed.path "/")
    && is_api_host parsed.hostname

-- `validate_api_base(url)`, over the parts of the URL.
unfoldable pub validate_api_base : SplitUrl → Outcome String
unfolding is_safe_api_url
validate_api_base parsed =
    if is_safe_api_url parsed
    then returned (text_append "https://" parsed.hostname)
    else raised (preflight_blocked "unsafe_api_url")

pub validate_s3_url : String → Outcome Unit
validate_s3_url url =
    if str_eq url expected_s3_url
    then returned tt
    else raised (preflight_blocked "unexpected_s3_url")

-- The base that is returned is "https://" before a host of the provider's API, for a URL without
-- credentials on the standard port.
pub validate_api_base-returned :
    (parsed : SplitUrl) (base : String)
    → validate_api_base parsed ≡ returned base
    → (base ≡ text_append "https://" parsed.hostname)
      × (is_api_host parsed.hostname ≡ true)
      × (str_eq parsed.scheme "https" ≡ true)
      × (parsed.has_username ≡ false)
      × (parsed.has_password ≡ false)
      × (is_standard_port parsed.port ≡ true)
unfolding validate_api_base
validate_api_base-returned parsed base h =
    (ground arith, ground arith, ground arith, ground arith, ground arith, ground arith)

module _ (env : Provider) where
  -- A request is added to those sent, whatever comes back.
  pub request_json-at :
      (P Q : Run env.State → Type 0) (r : ApiRequest)
      → ((s : Run env.State) (w : env.State)
          → P s
          → Q (record s { world = w; requests = r ∷ s.requests }))
      → Ensures P (λ _. Q) (λ _. Q) (request_json env r)
  unfolding request_json
  request_json-at P Q r h = record {
    at = λ s p.
        let (reply, w) = env.post r s.world in
        Post-const Q (read_reply env r.url reply) _ (h s w p);
  }
