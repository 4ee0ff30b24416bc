-- ===== src/KeyPreflight/Run.antt =====
-- `perform_preflight`: authority, the pages of keys, the bucket, its files and the secrets' names.
pub mod Requests
use homelab_server_configs.Prelude.{
  ℕ, zero, suc, String, Bool, true, false, not, ◌&&◌, ◌||◌, Option, none, some, List, [], ◌∷◌, ◌++◌,
  ◌==◌, all, any, is_empty, length, select, str_eq, one_of, subset, text_append, if◌then◌else◌,
}
use homelab_server_configs.Prelude.Exec.{
  Error, Outcome, returned, raised, Exec, pure, lift, raise, modify, require, ◌>>=◌, ◌>>◌,
}
use homelab_server_configs.Prelude.Json.{
  Json, null, natural, string, array, object, nil, cons, Fields, end, field, find, is_null,
  equals_text,
}
use homelab_server_configs.KeyPreflight.Client.{
  preflight_blocked, ApiRequest, Provider, Run, SplitUrl, request_json, require_string,
  require_dict, require_list, as_set, validate_api_base, validate_s3_url,
}

abbrev pub auth_url : String
auth_url = "https://api.backblazeb2.com/b2api/v4/b2_authorize_account"

abbrev expected_bucket_name : String
expected_bucket_name = "theama-homelab-nautobot-restic-prd"

abbrev pub expected_bucket_id : String
expected_bucket_id = "4d1bda761665474eaf030b18"

abbrev rejected_key_name : String
rejected_key_name = "homelab-nautobot-restic-prd"

abbrev pub replacement_key_name : String
replacement_key_name = "homelab-nautobot-restic-prd-v2"

-- `REQUIRED_AUTH_CAPABILITIES`, in the order of `sorted`.
abbrev pub required_auth_capabilities : List String
required_auth_capabilities =
    "listBuckets" ∷ "listFiles" ∷ "listKeys" ∷ "readBuckets" ∷ "writeKeys" ∷ []

abbrev required_file_capabilities : List String
required_file_capabilities =
    "listAllBucketNames" ∷ "listBuckets" ∷ "readBuckets" ∷ "listFiles" ∷ "readFiles" ∷ "writeFiles"
    ∷ "deleteFiles" ∷ []

abbrev prohibited_residue_capabilities : List String
prohibited_residue_capabilities =
    "writeBuckets" ∷ "writeBucketLifecycleRules" ∷ "writeBucketEncryption" ∷ "writeBucketLogging"
    ∷ "writeBucketNotifications" ∷ "writeBucketReplications" ∷ []

abbrev canonical_secret_names : List String
canonical_secret_names =
    "NAUTOBOT_RESTIC_B2_APPLICATION_KEY_ID" ∷ "NAUTOBOT_RESTIC_B2_APPLICATION_KEY" ∷ []

abbrev candidate_secret_names : List String
candidate_secret_names =
    "NAUTOBOT_RESTIC_B2_CANDIDATE_APPLICATION_KEY_ID"
    ∷ "NAUTOBOT_RESTIC_B2_CANDIDATE_APPLICATION_KEY" ∷ []

-- `name in values`, for a text and a set of JSON values.
abbrev pub has_name : List Json → String → Bool
has_name values name = any (λ j. equals_text name (some j)) values

-- The keys of the two names that the pages have shown, the newest first.
pub record Keys : Type 0 where
  pub rejected : List Fields
  pub replacement : List Fields

-- The body of the loop over a page's items.
pub sort_keys : List Json → Keys → Outcome Keys
sort_keys [] keys = returned keys
sort_keys (object item ∷ rest) keys = sort_keys rest (
    if equals_text rejected_key_name (find "keyName" item)
    then record keys { rejected = item ∷ keys.rejected }
    else if equals_text replacement_key_name (find "keyName" item)
    then record keys { replacement = item ∷ keys.replacement }
    else keys)
sort_keys (_ ∷ rest) keys = raised (preflight_blocked "invalid_provider_response")

-- `nextApplicationKeyId`: none ends the listing; a text that is new goes on.
pub data NextPage : Type 0 where
  last bad : NextPage
  more : String → NextPage

pub next_page : Option Json → List String → NextPage
next_page none seen = last
next_page (some null) seen = last
next_page (some (string s)) seen = if str_eq s "" || one_of seen s then bad else more s
next_page (some _) seen = bad

abbrev pub key_request : String → Option String → Fields
key_request account none = field "accountId" (string account) end
key_request account (some start) =
    field "accountId" (string account) (field "startApplicationKeyId" (string start) end)

-- `item.get("bucketName") == EXPECTED_BUCKET_NAME` of a dictionary.
abbrev is_expected_bucket : Json → Bool
is_expected_bucket (object b) = equals_text expected_bucket_name (find "bucketName" b)
is_expected_bucket _ = false

abbrev has_expected_policy : Json → Bool
has_expected_policy (object b) =
    equals_text expected_bucket_id (find "bucketId" b)
    && equals_text "allPrivate" (find "bucketType" b)
has_expected_policy _ = false

abbrev pub head_of : List Fields → Fields
head_of [] = end
head_of (x ∷ xs) = x

module _ (env : Provider) (split_url : String → SplitUrl) where
  pub note : String → Exec (Run env.State) Unit
  note check = modify (λ s. record s { checks = check ∷ s.checks })

  -- `for _ in range(100)` with its `else`: `rounds` more pages may be asked for.
  pub list_keys :
      ℕ → String → String → String → Option String → List String → Keys → Exec (Run env.State) Keys
  list_keys zero base token account start seen keys =
      raise (preflight_blocked "key_listing_page_limit")
  list_keys (suc rounds) base token account start seen keys = do
    page ← request_json env (record {
      url = text_append base "/b2api/v4/b2_list_keys";
      authorization = token;
      body = key_request account start;
    })
    found ← lift (require_list page "keys")
    sorted ← lift (sort_keys found keys)
    elim (next_page (find "nextApplicationKeyId" page) seen) [
      | last ↦ pure sorted
      | bad ↦ raise (preflight_blocked "invalid_key_pagination")
      | more next ↦ list_keys rounds base token account (some next) (next ∷ seen) sorted
    ]

  -- The first reply: the account, the token and the base of the API, with the authority checked.
  pub authorize : String → Exec (Run env.State) (String × String × String)
  unfolding note
  authorize basic = do
    authorization ← request_json env (record { url = auth_url; authorization = basic; body = end })
    account ← lift (require_string authorization "accountId")
    token ← lift (require_string authorization "authorizationToken")
    note "authentication_succeeds"
    api_info ← lift (require_dict authorization "apiInfo")
    storage_api ← lift (require_dict api_info "storageApi")
    allowed ← lift (require_dict storage_api "allowed")
    listed ← lift (require_list allowed "capabilities")
    capabilities ← lift (as_set listed)
    let present = select (has_name capabilities) required_auth_capabilities
    let missing = select (λ c. not (has_name capabilities c)) required_auth_capabilities
    if is_empty missing then pure tt else do
      modify (λ s. record s { authority = some (present, missing) })
      raise (preflight_blocked "insufficient_management_authority")
    note "required_key_management_capabilities_present"
    api_url ← lift (require_string storage_api "apiUrl")
    base ← lift (validate_api_base (split_url api_url))
    s3_url ← lift (require_string storage_api "s3ApiUrl")
    lift (validate_s3_url s3_url)
    note "returned_api_and_s3_urls_pass_allowlist"
    pure (account, token, base)

  pub check_keys : Keys → Exec (Run env.State) Unit
  unfolding note
  check_keys keys = do
    require (length keys.rejected == 1) (preflight_blocked "rejected_key_identity_mismatch")
    note "rejected_key_present"
    require (is_empty keys.replacement) (preflight_blocked "replacement_key_already_exists")
    note "replacement_key_absent"
    listed ← lift (require_list (head_of keys.rejected) "capabilities")
    capabilities ← lift (as_set listed)
    require (all (has_name capabilities) required_file_capabilities)
        (preflight_blocked "rejected_key_file_capabilities_changed")
    require (all (has_name capabilities) prohibited_residue_capabilities)
        (preflight_blocked "rejected_key_residue_changed")
    note "rejected_key_prohibited_capabilities_still_present"

  pub check_bucket : String → String → String → Exec (Run env.State) Unit
  unfolding note
  check_bucket base token account = do
    buckets ← request_json env (record {
      url = text_append base "/b2api/v4/b2_list_buckets";
      authorization = token;
      body =
          field "accountId" (string account)
            (field "bucketTypes" (array (cons (string "allPrivate") nil)) end);
    })
    records ← lift (require_list buckets "buckets")
    let exact = select is_expected_bucket records
    require (length exact == 1) (preflight_blocked "bucket_identity_mismatch")
    require (all has_expected_policy exact) (preflight_blocked "bucket_policy_mismatch")
    note "exact_bucket_identity_private_region_and_endpoint"
    files ← request_json env (record {
      url = text_append base "/b2api/v4/b2_list_file_names";
      authorization = token;
      body = field "bucketId" (string expected_bucket_id) (field "maxFileCount" (natural 1) end);
    })
    found ← lift (require_list files "files")
    require (is_empty found) (preflight_blocked "bucket_not_empty")
    note "exact_bucket_current_file_count_zero"

  pub check_names : Outcome (List String) → Exec (Run env.State) Unit
  unfolding note
  check_names doppler_names = do
    names ← lift doppler_names
    note "exact_doppler_config_present"
    require (subset canonical_secret_names names)
        (preflight_blocked "canonical_doppler_names_missing")
    note "canonical_secret_names_present_without_values"
    require (not (any (one_of names) candidate_secret_names))
        (preflight_blocked "candidate_doppler_name_collision")
    note "candidate_secret_names_absent"

  -- What follows the authorization.
  pub check_account : String → String → String → Outcome (List String) → Exec (Run env.State) Unit
  check_account account token base doppler_names = do
    keys ← list_keys 100 base token account none [] (record { rejected = []; replacement = [] })
    check_keys keys
    check_bucket base token account
    check_names doppler_names

  -- `basic` is the header that is made of the two secrets; `doppler_names` is what
  -- `read_doppler_names()` gives.
  pub perform_preflight : String → Outcome (List String) → Exec (Run env.State) Unit
  unfolding note
  perform_preflight basic doppler_names = do
    note "no_mutation_endpoint_attempted"
    found ← authorize basic
    check_account found.0 found.1 found.2 doppler_names
