-- ===== src/S3Probe/Preflight.antt =====
-- `_native_authorization` and `perform_read_only_preflight`.
pub mod ReadOnly
use homelab_server_configs.Prelude.{
  ℕ, ◌*◌, String, Bool, true, false, not, ◌&&◌, ◌||◌, Option, none, some, List, [], ◌∷◌, ◌==◌, leb,
  ltb, is_hex, decimal, codes, str_eq, length, subset, text_append, if◌then◌else◌,
}
use homelab_server_configs.Prelude.Exec.{
  Error, Outcome, returned, raised, Exec, pure, lift, require, catch, ◌>>=◌, ◌>>◌,
}
use homelab_server_configs.Prelude.Json.{
  Json, object, Fields, end, find, as_object, as_array, as_text, is_null, equals_text, all_texts,
}
use homelab_server_configs.S3Probe.Recorder.{
  World, Run, Scope, probe_blocked, http_class, observe, record_scope, finish,
}
use homelab_server_configs.S3Probe.Listing.{bucket, content, content_sha256, require_empty_list}
use homelab_server_configs.S3Probe.Transaction.{
  Library, error_code, exchange, list_request, list_prefix, finish_run,
}

abbrev pub bucket_id : String
bucket_id = "4d1bda761665474eaf030b18"

abbrev pub endpoint : String
endpoint = "https://s3.us-west-002.backblazeb2.com"

abbrev auth_url : String
auth_url = "https://api.backblazeb2.com/b2api/v4/b2_authorize_account"

abbrev pub max_response_bytes : ℕ
max_response_bytes = 1024 * 1024

abbrev pub expected_capabilities : List String
expected_capabilities =
    "listAllBucketNames" ∷ "listBuckets" ∷ "readBuckets" ∷ "listFiles" ∷ "readFiles" ∷ "writeFiles"
    ∷ "deleteFiles" ∷ []

-- What opening the authorization request gives: a reply, also of an HTTP error, with its final
-- URL, its status and the bytes that were read; no connection; or another exception.
pub data Opened : Type 0 where
  replied : String → ℕ → List ℕ → Opened
  unreachable : Opened
  failed : Error → Opened

abbrev pub the_object : Option Json → Outcome Fields
the_object (some (object fs)) = returned fs
the_object _ = raised (probe_blocked "invalid_authorization_response")

module _ (parse_json : List ℕ → Option Json) where
  -- `_native_authorization`, behind the opening of its request.
  pub native_authorization : Opened → Outcome Fields
  native_authorization unreachable = raised (probe_blocked "provider_transport_error")
  native_authorization (failed e) = raised e
  native_authorization (replied url status payload) =
      if not (str_eq url auth_url)
      then raised (probe_blocked "redirect_rejected")
      else if ltb max_response_bytes (length payload)
      then raised (probe_blocked "provider_response_too_large")
      else if not (status == 200)
      then raised (probe_blocked (text_append "authorize_http_" (decimal status)))
      else the_object (parse_json payload)

-- `len(buckets) == 1 and isinstance(buckets[0], dict) and …`
pub exact_bucket : List Json → Bool
exact_bucket (object b ∷ []) =
    equals_text bucket_id (find "id" b) && equals_text bucket (find "name" b)
exact_bucket _ = false

abbrev has_key : String → Fields → Bool
has_key key fs = elim (find key fs) [ none ↦ false | some _ ↦ true ]

abbrev at_most_101 : ℕ → ℕ
at_most_101 n = if leb n 101 then n else 101

-- The three values that describe `allowed`: the shape, the count and the match.
allowed_shape : Option Fields → String × ℕ × Bool
unfolding exact_bucket
allowed_shape none = ("allowed_invalid", 0, false)
allowed_shape (some allowed) = elim (find "buckets" allowed) [
  | none ↦
      if has_key "bucketId" allowed || has_key "bucketName" allowed
      then ("legacy_scalar", 1, false)
      else ("allowed_missing", 0, false)
  | some value ↦ elim (as_array (some value)) [
    | none ↦ ("allowed_buckets_invalid", 0, false)
    | some buckets ↦ ("allowed_buckets_array", at_most_101 (length buckets), exact_bucket buckets)
  ]
]

pub exact_capability_list : Option (List String) → Bool
exact_capability_list none = false
exact_capability_list (some capabilities) =
    (length capabilities == length expected_capabilities)
    && subset capabilities expected_capabilities
    && subset expected_capabilities capabilities

abbrev or_empty : Option Fields → Fields
or_empty none = end
or_empty (some fs) = fs

abbrev texts_of : Option (List Json) → Option (List String)
texts_of none = none
texts_of (some js) = all_texts js

-- The scope that the authorization `document` with its `storageApi` describes.
unfoldable pub scope_of : Fields → Fields → Scope
unfolding allowed_shape exact_capability_list
scope_of document storage =
    let allowed = as_object (find "allowed" storage) in
    let (shape, count, match) = allowed_shape allowed in
    record {
      response_shape = shape;
      bucket_count = count;
      exact_bucket_match = match;
      exact_capabilities =
          exact_capability_list (texts_of (as_array (find "capabilities" (or_empty allowed))));
      null_name_prefix = is_null (find "namePrefix" (or_empty allowed));
      no_provider_expiration = is_null (find "applicationKeyExpirationTimestamp" document);
      exact_s3_endpoint = equals_text endpoint (find "s3ApiUrl" storage);
    }

-- `document.get("apiInfo")` and its `storageApi`.
storage_of : Fields → Outcome Fields
storage_of document =
    the_object (find "storageApi" (or_empty (as_object (find "apiInfo" document))))

module _ (env : World) (lib : Library) (parse_json : List ℕ → Option Json)
    (open_native : env.State → Opened × env.State) (run_id : String) where
  -- The authorization is no request of the S3 transport, and leaves no event.
  pub authorize : Exec (Run env.State) Fields
  unfolding native_authorization
  authorize s =
      let (opened, w) = open_native s.world in
      (native_authorization parse_json opened, record s { world = w })

  pub check_scope : Scope → Exec (Run env.State) Unit
  check_scope scope = do
    require (str_eq scope.response_shape "allowed_buckets_array" && scope.exact_bucket_match)
        (probe_blocked "bucket_scope_mismatch")
    require scope.exact_capabilities (probe_blocked "capability_scope_mismatch")
    require scope.null_name_prefix (probe_blocked "prefix_scope_mismatch")
    require scope.exact_s3_endpoint (probe_blocked "s3_endpoint_mismatch")
    require scope.no_provider_expiration (probe_blocked "credential_expiration_present")

  -- The `try` block.
  pub preflight_steps : Exec (Run env.State) String
  unfolding authorize check_scope storage_of
  preflight_steps = do
    document ← authorize
    observe env "preflight" "authorize_canonical_credential" "http_2xx"
    storage ← lift (storage_of document)
    record_scope env (scope_of document storage)
    check_scope (scope_of document storage)
    response ← list_prefix env lib run_id "preflight"
    lift (require_empty_list lib.parse_xml response)
    finish_run env lib run_id "preflight_passed" none true false
    pure "preflight_passed"

  pub refuse_preflight : Error → Exec (Run env.State) String
  refuse_preflight e = do
    finish_run env lib run_id "preflight_blocked" (some (error_code e)) true false
    pure "preflight_blocked"

  unfoldable pub perform_read_only_preflight : Exec (Run env.State) String
  unfolding preflight_steps refuse_preflight
  perform_read_only_preflight = do
    require (is_hex 32 run_id) (probe_blocked "invalid_run_id")
    catch preflight_steps refuse_preflight
