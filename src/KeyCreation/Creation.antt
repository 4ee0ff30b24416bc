-- ===== src/KeyCreation/Creation.antt =====
-- `authorize_account`, `list_exact_keys`, the metadata checks and `perform_creation`.
pub mod Once
use homelab_server_configs.Prelude.{
  ℕ, zero, suc, String, Bool, true, false, not, ◌&&◌, ◌||◌, Option, none, some, List, [], ◌∷◌, ◌==◌,
  all, any, is_empty, length, select, str_eq, one_of, subset, text_append, if◌then◌else◌,
}
use homelab_server_configs.Prelude.Exec.{
  Error, blocked, value_error, os_error, other_error, refused, Outcome, returned, raised, Exec,
  pure, lift, raise, gets, modify, require, catch, ◌>>=◌, ◌>>◌,
}
use homelab_server_configs.Prelude.Json.{
  Json, null, string, array, object, nil, cons, Items, items, Fields, end, field, find, is_null,
  equals_text, as_array, as_text,
}
use homelab_server_configs.KeyPreflight.Client.{
  preflight_blocked, ApiRequest, Provider, Run, SplitUrl, request_json, require_string,
  require_dict, require_list, is_hashable, validate_api_base, validate_s3_url,
}
use homelab_server_configs.KeyPreflight.Run.{
  auth_url, expected_bucket_id, replacement_key_name, required_auth_capabilities, has_name, Keys,
  sort_keys, NextPage, last, bad, more, next_page, key_request, head_of, perform_preflight,
}

-- Python on JSON values: `==`, and `sorted`, where `none` is a `TypeError`.
pub record Python : Type 0 where
  pub equal : Json → Json → Bool
  pub sorted : List Json → Option (List Json)

-- `EXPECTED_CAPABILITIES`, in the order of `sorted`.
abbrev expected_capabilities : List String
expected_capabilities =
    "deleteFiles" ∷ "listAllBucketNames" ∷ "listBuckets" ∷ "listFiles" ∷ "readBuckets" ∷ "readFiles"
    ∷ "writeFiles" ∷ []

abbrev text_items : List String → Items
text_items [] = nil
text_items (s ∷ ss) = cons (string s) (text_items ss)

pub exact_create_body : String → Fields
exact_create_body account = field "accountId" (string account) (
    field "capabilities" (array (text_items expected_capabilities)) (
      field "keyName" (string replacement_key_name)
        (field "bucketIds" (array (cons (string expected_bucket_id) nil)) end)))

-- `value == [text]`
abbrev is_singleton : String → Option Json → Bool
is_singleton text (some (array (cons (string s) nil))) = str_eq s text
is_singleton text _ = false

abbrev is_capability : Json → Bool
is_capability (string s) = one_of expected_capabilities s
is_capability _ = false

abbrev is_present : Option Json → Bool
is_present none = false
is_present (some _) = true

-- `mapping.pop(key, None)`, less the value.
abbrev remove : String → Fields → Fields
remove key end = end
remove key (field k j rest) = if str_eq k key then remove key rest else field k j (remove key rest)

-- A key's metadata that is compared before and after the creation; a list that is `None` is `none`.
pub record Fingerprint : Type 0 where
  pub key_id : Option Json
  pub key_name : Option Json
  pub capabilities : List Json
  pub bucket_ids : Option (List Json)
  pub name_prefix : Option Json
  pub expiration : Option Json
  pub options : Option (List Json)

-- `mapping.get(key)`, where `None` stands for a key that is not there as well.
abbrev got : Option Json → Option Json
got (some null) = none
got value = value

abbrev list_or_none : Option Json → Bool
list_or_none value = is_null value || (elim (as_array value) [ none ↦ false | some js ↦ true ])

module _ (python : Python) where
  same : Option Json → Option Json → Bool
  same none none = true
  same (some a) (some b) = python.equal a b
  same _ _ = false

  same_list : List Json → List Json → Bool
  same_list [] [] = true
  same_list (x ∷ xs) (y ∷ ys) = python.equal x y && same_list xs ys
  same_list _ _ = false

  same_lists : Option (List Json) → Option (List Json) → Bool
  unfolding same_list
  same_lists none none = true
  same_lists (some xs) (some ys) = same_list xs ys
  same_lists _ _ = false

  -- `==` of two tuples
  pub same_fingerprint : Fingerprint → Fingerprint → Bool
  unfolding same same_lists
  same_fingerprint a b =
      same a.key_id b.key_id
      && same a.key_name b.key_name
      && same_list a.capabilities b.capabilities
      && same_lists a.bucket_ids b.bucket_ids
      && same a.name_prefix b.name_prefix
      && same a.expiration b.expiration
      && same_lists a.options b.options

-- `CreationBlocked` in the place of a `PreflightBlocked`.
pub as_refused : {S A : Type 0} → Bool → Error → Exec S A
as_refused m (blocked code) = raise (refused code m)
as_refused m (refused code n) = raise (refused code n)
as_refused m (value_error s) = raise (value_error s)
as_refused m os_error = raise os_error
as_refused m other_error = raise other_error

-- What the delivery of the secrets makes of an exception.
pub on_delivery : {S A : Type 0} → Error → Exec S A
on_delivery (refused code n) = raise (refused code n)
on_delivery _ = raise (refused "secret_delivery_failed" true)

pub from_option : {S A : Type 0} → Error → Option A → Exec S A
from_option e none = raise e
from_option e (some a) = pure a

abbrev refuse_keys : Bool → Outcome Keys → Outcome Keys
refuse_keys m (returned keys) = returned keys
refuse_keys m (raised (blocked code)) = raised (refused code m)
refuse_keys m (raised e) = raised e

module _ (env : Provider) (split_url : String → SplitUrl) (python : Python)
    (sink : String → String → env.State → Outcome Unit × env.State) where
  pub note : String → Exec (Run env.State) Unit
  note check = modify (λ s. record s { checks = check ∷ s.checks })

  -- `validate_replacement_metadata(item)`
  pub validate_metadata : Fields → Exec (Run env.State) Unit
  validate_metadata item = do
    require (not (is_present (find "applicationKey" item)))
        (refused "secret_present_in_metadata_readback" true)
    require (equals_text replacement_key_name (find "keyName" item))
        (refused "replacement_name_mismatch" true)
    require (is_singleton expected_bucket_id (find "bucketIds" item))
        (refused "replacement_bucket_scope_mismatch" true)
    require (is_null (find "namePrefix" item)) (refused "replacement_prefix_scope_mismatch" true)
    capabilities ←
        from_option (refused "replacement_capability_mismatch" true)
          (as_array (find "capabilities" item))
    require (all is_hashable capabilities) other_error
    require (all is_capability capabilities && all (has_name capabilities) expected_capabilities)
        (refused "replacement_capability_mismatch" true)
    require (is_null (find "expirationTimestamp" item))
        (refused "replacement_expiration_present" true)
    require (is_singleton "s3" (find "options" item))
        (refused "replacement_s3_option_mismatch" true)

  -- `key_metadata_fingerprint(item)`
  pub fingerprint : Fields → Exec (Run env.State) Fingerprint
  fingerprint item = do
    capabilities ←
        from_option (refused "invalid_provider_response" false)
          (as_array (find "capabilities" item))
    require (list_or_none (find "bucketIds" item)) (refused "invalid_provider_response" false)
    require (list_or_none (find "options" item)) (refused "invalid_provider_response" false)
    sorted ← from_option other_error (python.sorted capabilities)
    pure (record {
      key_id = got (find "applicationKeyId" item);
      key_name = got (find "keyName" item);
      capabilities = sorted;
      bucket_ids = as_array (find "bucketIds" item);
      name_prefix = got (find "namePrefix" item);
      expiration = got (find "expirationTimestamp" item);
      options = as_array (find "options" item);
    })

  -- `authorize_account`, for the header that is made of the two secrets.
  pub authorize_account : String → Exec (Run env.State) (String × String × String)
  authorize_account basic = do
    response ←
        catch (request_json env (record { url = auth_url; authorization = basic; body = end }))
          (as_refused false)
    account ← lift (require_string response "accountId")
    token ← lift (require_string response "authorizationToken")
    api_info ← lift (require_dict response "apiInfo")
    storage_api ← lift (require_dict api_info "storageApi")
    allowed ← lift (require_dict storage_api "allowed")
    capabilities ← lift (require_list allowed "capabilities")
    require (all is_hashable capabilities) other_error
    require (all (has_name capabilities) required_auth_capabilities)
        (refused "insufficient_management_authority" false)
    api_url ← lift (require_string storage_api "apiUrl")
    base ← lift (validate_api_base (split_url api_url))
    s3_url ← lift (require_string storage_api "s3ApiUrl")
    lift (validate_s3_url s3_url)
    pure (account, token, base)

  -- `list_exact_keys`: `rounds` more pages may be asked for.
  pub list_exact_keys :
      Bool
      → ℕ
      → String
      → String
      → String
      → Option String
      → List String
      → Keys
      → Exec (Run env.State) Keys
  list_exact_keys attempted zero base token account start seen keys =
      raise (refused "key_listing_page_limit" attempted)
  list_exact_keys attempted (suc rounds) base token account start seen keys = do
    response ← request_json env (record {
      url = text_append base "/b2api/v4/b2_list_keys";
      authorization = token;
      body = key_request account start;
    })
    found ← lift (require_list response "keys")
    sorted ← lift (refuse_keys attempted (sort_keys found keys))
    elim (next_page (find "nextApplicationKeyId" response) seen) [
      | last ↦ pure sorted
      | bad ↦ raise (refused "invalid_key_pagination" attempted)
      | more next ↦
          list_exact_keys attempted rounds base token account (some next) (next ∷ seen) sorted
    ]

  pub all_keys : Bool → String → String → String → Exec (Run env.State) Keys
  all_keys attempted account token base =
      list_exact_keys attempted 100 base token account none []
        (record { rejected = []; replacement = [] })

  -- The secrets leave the reply, and go to the writer.
  pub deliver : Fields → Exec (Run env.State) Unit
  deliver created = do
    key_id ←
        from_option (refused "provider_secret_fields_missing" true)
          (as_text (find "applicationKeyId" created))
    key_value ←
        from_option (refused "provider_secret_fields_missing" true)
          (as_text (find "applicationKey" created))
    catch
        (do
          validate_metadata (remove "applicationKey" (remove "applicationKeyId" created))
          note "create_response_metadata_exact"
          (λ s. let (o, w) = sink key_id key_value s.world in (o, record s { world = w }))
          note "provider_values_delivered_to_protected_writer")
        on_delivery

  -- The keys that are listed after the creation.
  pub read_back : String → String → String → Fingerprint → Exec (Run env.State) Unit
  read_back account token base before = do
    keys ← catch (all_keys true account token base) (as_refused true)
    note "post_create_key_listing_received"
    require (length keys.rejected == 1) (refused "rejected_key_identity_mismatch" true)
    require (length keys.replacement == 1) (refused "replacement_key_identity_mismatch" true)
    validate_metadata (head_of keys.replacement)
    after ← fingerprint (head_of keys.rejected)
    require (same_fingerprint python after before) (refused "rejected_key_metadata_changed" true)
    note "exact_provider_key_metadata_readback"
    note "rejected_key_unchanged"
    note "no_object_mutation_or_consumer_contact"

  -- From the request that creates the key.
  pub create : String → String → String → Fingerprint → Exec (Run env.State) Unit
  create account token base before = do
    created ←
        catch
          (request_json env (record {
            url = text_append base "/b2api/v4/b2_create_key";
            authorization = token;
            body = exact_create_body account;
          }))
          (as_refused true)
    note "provider_create_response_received"
    deliver created
    read_back account token base before

  -- The state of the account, directly before the creation.
  pub check_before : String → String → String → Exec (Run env.State) Fingerprint
  check_before account token base = do
    keys ← catch (all_keys false account token base) (as_refused false)
    require (length keys.rejected == 1) (refused "rejected_key_identity_mismatch" false)
    require (is_empty keys.replacement) (refused "replacement_key_already_exists" false)
    before ← fingerprint (head_of keys.rejected)
    note "immediate_pre_create_key_residue_matches"
    note "exact_create_request_prepared"
    pure before

  pub perform_creation : String → Outcome (List String) → Exec (Run env.State) Unit
  perform_creation basic doppler_names = do
    catch (perform_preflight env split_url basic doppler_names) (as_refused false)
    modify (λ s. record s {
      checks = select (λ c. not (str_eq c "no_mutation_endpoint_attempted")) s.checks;
    })
    note "predecessor_preflight_still_matches"
    found ← catch (authorize_account basic) (as_refused false)
    note "creation_authorization_refreshed"
    before ← check_before found.0 found.1 found.2
    note "provider_create_attempted"
    create found.0 found.1 found.2 before
