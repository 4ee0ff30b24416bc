-- ===== src/S3Probe/Listing.antt =====
-- `_list_keys`, `_require_empty_list` and `_list_query`, and the constants of the probe.
use homelab_server_configs.Prelude.{
  ℕ, String, Option, none, some, List, [], ◌∷◌, ◌==◌, one_of, is_empty, ◌≡◌, refl, decimal, codes,
  text_append, map, if◌then◌else◌,
}
use homelab_server_configs.Prelude.Exec.{Outcome, returned, raised}
use homelab_server_configs.S3Probe.Recorder.{Response, probe_blocked}

abbrev pub bucket : String
bucket = "theama-homelab-nautobot-restic-prd"

abbrev pub key_parent : String
key_parent = "__capability_probe__/homelab-nautobot-restic-prd-v2"

abbrev pub content_sha256 : String
content_sha256 = "d351ee40d27759daeca28938056b90208e9c5b791d1f9267b2aec8ec1ae13089"

-- `CONTENT`, which ends with a line feed.
abbrev pub content : List ℕ
content = codes (text_append "nautobot B2 S3 compatibility probe v1" "\n")

abbrev pub content_type : String
content_type = "text/plain"

-- What `xml.etree` reads from a listing: the text of `IsTruncated`, and that of each key.
pub record ListXml : Type 0 where
  pub is_truncated : Option String
  pub keys : List (Option String)

-- `node.text or ""`
abbrev pub text_or_empty : Option String → String
text_or_empty none = ""
text_or_empty (some s) = s

module _ (parse_xml : List ℕ → Option ListXml) where
  parsed_keys : Option ListXml → Outcome (List String)
  parsed_keys none = raised (probe_blocked "invalid_list_response")
  parsed_keys (some root) =
      if one_of ("false" ∷ "False" ∷ []) (text_or_empty root.is_truncated)
      then returned (map text_or_empty root.keys)
      else raised (probe_blocked "list_response_truncated")

  -- `_list_keys`
  unfoldable pub list_keys : Response → Outcome (List String)
  unfolding parsed_keys
  list_keys response =
      if response.status == 200
      then parsed_keys (parse_xml response.body)
      else raised (probe_blocked (text_append "list_http_" (decimal response.status)))

  abbrev refuse_keys : Outcome (List String) → Outcome Unit
  refuse_keys (returned keys) =
      if is_empty keys then returned tt else raised (probe_blocked "owned_prefix_not_empty")
  refuse_keys (raised e) = raised e

  -- `_require_empty_list`
  unfoldable pub require_empty_list : Response → Outcome Unit
  require_empty_list response = refuse_keys (list_keys response)

  refuse_keys-returned : (o : Outcome (List String)) → refuse_keys o ≡ returned tt → o ≡ returned []
  refuse_keys-returned (returned []) h = refl
  refuse_keys-returned (returned (k ∷ ks)) h = cc
  refuse_keys-returned (raised e) h = cc

  pub require_empty_list-returned :
      (response : Response)
      → require_empty_list response ≡ returned tt
      → list_keys response ≡ returned []
  unfolding require_empty_list
  require_empty_list-returned response h = refuse_keys-returned (list_keys response) h

-- `_list_query`
unfoldable pub list_query : String → List (String × String)
list_query prefix = ("list-type", "2") ∷ ("max-keys", "2") ∷ ("prefix", prefix) ∷ []
