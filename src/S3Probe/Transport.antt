-- ===== src/S3Probe/Transport.antt =====
-- `_encoded_path`, `_encoded_query`, `signed_request` and `S3Transport.request`. Texts are code
-- points here, since they are signed as bytes.
pub mod Encoding
use homelab_server_configs.Prelude.{
  ℕ, zero, suc, ◌+◌, ◌*◌, ◌≤◌, String, Bool, true, false, not, ◌&&◌, ◌||◌, Option, none, some, List,
  [], ◌∷◌, ◌++◌, ◌≡◌, refl, ap, arith, ◌==◌, leb, ltb, codes, length, is_empty, list_eq, map,
  text_append, if◌then◌else◌,
}
use homelab_server_configs.Prelude.Exec.{Error, value_error, Outcome, returned, raised}
use homelab_server_configs.S3Probe.Recorder.{
  Method, get, put, head, delete, Request, Response, probe_blocked,
}
use homelab_server_configs.S3Probe.Listing.{bucket}
use homelab_server_configs.S3Probe.Preflight.{endpoint, max_response_bytes}
use homelab_server_configs.S3Probe.Transport.Encoding.{utf8, quote, quote_path}

abbrev host : String
host = "s3.us-west-002.backblazeb2.com"

abbrev region : String
region = "us-west-002"

abbrev service : String
service = "s3"

-- SHA-256 in hexadecimal, HMAC-SHA-256 as bytes and in hexadecimal, and `str.lower`.
pub record Crypto : Type 0 where
  pub sha256 : List ℕ → List ℕ
  pub hmac : List ℕ → List ℕ → List ℕ
  pub hmac_hex : List ℕ → List ℕ → List ℕ
  pub lower : String → String

-- `urllib.request.Request`
pub record SignedRequest : Type 0 where
  pub url : List ℕ
  -- `data`
  pub body : Option (List ℕ)
  pub headers : List (String × List ℕ)
  pub method : Method

pub encoded_path : Option String → List ℕ
encoded_path none = quote_path (codes "/" ++ codes bucket)
encoded_path (some key) = quote_path (codes "/" ++ codes bucket ++ codes "/" ++ codes key)

-- `a <= b` on texts
abbrev codes_le : List ℕ → List ℕ → Bool
codes_le [] t = true
codes_le (a ∷ s) [] = false
codes_le (a ∷ s) (b ∷ t) = ltb a b || ((a == b) && codes_le s t)

abbrev insert : String × String → List (String × String) → List (String × String)
insert p [] = p ∷ []
insert p (q ∷ rest) = if codes_le (codes p.0) (codes q.0) then p ∷ q ∷ rest else q ∷ insert p rest

-- `sorted(params.items())`, whose keys are distinct.
abbrev sorted_items : List (String × String) → List (String × String)
sorted_items [] = []
sorted_items (p ∷ rest) = insert p (sorted_items rest)

abbrev join : List ℕ → List (List ℕ) → List ℕ
join separator [] = []
join separator (x ∷ []) = x
join separator (x ∷ y ∷ rest) = x ++ separator ++ join separator (y ∷ rest)

pub encoded_query : List (String × String) → List ℕ
encoded_query params =
    join (codes "&")
      (map (λ p. quote (codes p.0) ++ codes "=" ++ quote (codes p.1)) (sorted_items params))

abbrev take : ℕ → List ℕ → List ℕ
take zero xs = []
take (suc n) [] = []
take (suc n) (x ∷ xs) = x ∷ take n xs

abbrev method_name : Method → String
method_name get = "GET"
method_name put = "PUT"
method_name head = "HEAD"
method_name delete = "DELETE"

-- `headers`, in the order of their names.
abbrev signed_header_list : List ℕ → List ℕ → Option String → List (String × List ℕ)
signed_header_list payload_hash timestamp none =
    ("host", codes host) ∷ ("x-amz-content-sha256", payload_hash) ∷ ("x-amz-date", timestamp) ∷ []
signed_header_list payload_hash timestamp (some content_type) =
    ("content-type", codes content_type)
    ∷ ("host", codes host)
    ∷ ("x-amz-content-sha256", payload_hash)
    ∷ ("x-amz-date", timestamp)
    ∷ []

abbrev without_host : List (String × List ℕ) → List (String × List ℕ)
without_host [] = []
without_host ((name, value) ∷ rest) =
    if list_eq ◌==◌ (codes name) (codes "host")
    then without_host rest
    else (name, value) ∷ without_host rest

abbrev is_ascii : List ℕ → Bool
is_ascii [] = true
is_ascii (c ∷ rest) = ltb c 128 && is_ascii rest

module _ (crypto : Crypto) (key_id application_key : List ℕ) where
  abbrev scope_of_day : List ℕ → List ℕ
  scope_of_day date =
      date ++ codes "/" ++ codes region ++ codes "/" ++ codes service ++ codes "/aws4_request"

  -- The signature of a canonical request.
  pub signature : List ℕ → List ℕ → List ℕ
  signature timestamp canonical_request =
      let date = take 8 timestamp in
      let string_to_sign = join (10 ∷ []) (
        codes "AWS4-HMAC-SHA256"
        ∷ timestamp
        ∷ scope_of_day date
        ∷ crypto.sha256 (utf8 canonical_request)
        ∷ []) in
      let date_key = crypto.hmac (codes "AWS4" ++ application_key) (utf8 date) in
      let region_key = crypto.hmac date_key (codes region) in
      let service_key = crypto.hmac region_key (codes service) in
      let signing_key = crypto.hmac service_key (codes "aws4_request") in
      crypto.hmac_hex signing_key (utf8 string_to_sign)

  pub canonical_request_of : Request → List (String × List ℕ) → List ℕ
  unfolding encoded_path encoded_query
  canonical_request_of r headers = join (10 ∷ []) (
      codes (method_name r.method)
      ∷ encoded_path r.object_key
      ∷ encoded_query r.query
      ∷ join [] (map (λ h. codes h.0 ++ codes ":" ++ h.1 ++ (10 ∷ [])) headers)
      ∷ join (codes ";") (map (λ h. codes h.0) headers)
      ∷ crypto.sha256 r.body
      ∷ [])

  pub authorization : List ℕ → Request → List (String × List ℕ) → List ℕ
  unfolding signature canonical_request_of
  authorization timestamp r headers =
      codes "AWS4-HMAC-SHA256 Credential="
      ++ key_id
      ++ codes "/"
      ++ scope_of_day (take 8 timestamp)
      ++ codes ", SignedHeaders="
      ++ join (codes ";") (map (λ h. codes h.0) headers)
      ++ codes ", Signature="
      ++ signature timestamp (canonical_request_of r headers)

  pub url_of : Request → List ℕ
  unfolding encoded_path encoded_query
  url_of r =
      let url = codes endpoint ++ encoded_path r.object_key in
      let query_string = encoded_query r.query in
      if is_empty query_string then url else url ++ codes "?" ++ query_string

  -- `signed_request`; the time is its UTC text, or `none` where it has no zone. The methods are the
  -- four that are allowed.
  unfoldable pub signed_request : Request → Option (List ℕ) → Outcome SignedRequest
  unfolding authorization url_of
  signed_request r none = raised (probe_blocked "invalid_signing_time")
  signed_request r (some timestamp) =
      let headers = signed_header_list (crypto.sha256 r.body) timestamp r.content_type in
      if not (is_ascii key_id)
      then raised (value_error "ascii")
      else returned (record {
        url = url_of r;
        body = elim r.method [ put ↦ some r.body | get ↦ none | head ↦ none | delete ↦ none ];
        headers = ("Authorization", authorization timestamp r headers) ∷ without_host headers;
        method = r.method;
      })

  -- What the opener gives: a reply, also of an HTTP error, with its final URL, its status, its
  -- headers and the bytes that `read` returns; no connection; or another exception.
  pub data Opening : Type 0 where
    answered : List ℕ → ℕ → List (String × String) → List ℕ → Opening
    not_connected : Opening
    broken : Error → Opening

  -- A dictionary keeps the last of two headers with one name.
  abbrev lowered : List (String × String) → List (String × String) → List (String × String)
  lowered [] found = found
  lowered ((name, value) ∷ rest) found = lowered rest ((crypto.lower name, value) ∷ found)

  receive : SignedRequest → Opening → Outcome Response
  receive request not_connected = raised (probe_blocked "provider_transport_error")
  receive request (broken e) = raised e
  receive request (answered final status headers payload) =
      if not (list_eq ◌==◌ final request.url)
      then raised (probe_blocked "redirect_rejected")
      else if ltb max_response_bytes (length payload)
      then raised (probe_blocked "provider_response_too_large")
      else returned (record { status = status; headers = lowered headers []; body = payload })

  send_signed : (SignedRequest → Opening) → Outcome SignedRequest → Outcome Response
  unfolding receive
  send_signed open_url (returned request) = receive request (open_url request)
  send_signed open_url (raised e) = raised e

  -- `S3Transport.request`
  unfoldable pub transport_request :
      (SignedRequest → Opening) → Request → Option (List ℕ) → Outcome Response
  unfolding send_signed
  transport_request open_url r now = send_signed open_url (signed_request r now)
