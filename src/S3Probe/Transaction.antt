-- ===== src/S3Probe/Transaction.antt =====
-- `perform_probe`: the forward steps in their order, and the handler that deletes what was put.
pub mod Trace
pub mod WriteAhead
pub mod Absence
use homelab_server_configs.Prelude.{
  ℕ, String, Bool, true, false, not, ◌&&◌, Option, none, some, List, [], ◌∷◌, ◌==◌, is_hex,
  is_empty, decimal, codes, str_eq, list_eq, length, text_append, if◌then◌else◌,
}
use homelab_server_configs.Prelude.Exec.{
  Error, blocked, value_error, os_error, other_error, refused, Outcome, Exec, pure, raise, lift,
  gets, modify, require, catch, ◌>>=◌, ◌>>◌,
}
use homelab_server_configs.S3Probe.Recorder.{
  Method, get, put, head, delete, Request, Response, World, Run, probe_blocked, http_class, observe,
  mutation, finish, request,
}
use homelab_server_configs.S3Probe.Listing
use homelab_server_configs.S3Probe.Listing.{
  key_parent, content, content_sha256, ListXml, list_keys, require_empty_list, list_query,
}

-- What the standard library computes: SHA-256 in hexadecimal, and the reading of a listing.
pub record Library : Type 0 where
  pub sha256 : List ℕ → String
  pub parse_xml : List ℕ → Option ListXml

-- `headers.get(name)`
abbrev pub lookup : String → List (String × String) → Option String
lookup name [] = none
lookup name ((k, v) ∷ rest) = if str_eq k name then some v else lookup name rest

abbrev pub has_text : String → Option String → Bool
has_text s none = false
has_text s (some t) = str_eq t s

abbrev pub prefix_of : String → String
prefix_of run_id = text_append key_parent (text_append "/" (text_append run_id "/"))

abbrev pub object_key_of : String → String
object_key_of run_id = text_append (prefix_of run_id) "probe.txt"

-- A request about the object, or a listing of the prefix.
abbrev pub object_request : Method → String → Request
object_request m run_id = record {
  method = m;
  object_key = some (object_key_of run_id);
  query = [];
  body = [];
  content_type = none;
}

abbrev pub put_request : String → Request
put_request run_id = record {
  method = put;
  object_key = some (object_key_of run_id);
  query = [];
  body = content;
  content_type = some Listing.content_type;
}

abbrev pub list_request : String → Request
list_request run_id = record {
  method = get;
  object_key = none;
  query = list_query (prefix_of run_id);
  body = [];
  content_type = none;
}

-- The error class that the handler records.
abbrev pub error_code : Error → String
error_code (blocked code) = code
error_code (value_error _) = "internal_error"
error_code os_error = "internal_error"
error_code other_error = "internal_error"
error_code (refused _ _) = "internal_error"

-- `except ProbeBlocked:` catches no other exception.
abbrev pub on_blocked : {S A : Type 0} → Exec S A → Error → Exec S A
on_blocked h (blocked code) = h
on_blocked h (value_error m) = raise (value_error m)
on_blocked h os_error = raise os_error
on_blocked h other_error = raise other_error
on_blocked h (refused code m) = raise (refused code m)

module _ (env : World) (lib : Library) (run_id : String) where
  pub run_hash : String
  run_hash = lib.sha256 (codes run_id)

  unfoldable pub finish_run : String → Option String → Bool → Bool → Exec (Run env.State) Unit
  unfolding run_hash
  finish_run result code absence residue =
      finish env (content_sha256, length content) result code run_hash absence residue

  -- A request, and the observation of its reply.
  unfoldable pub exchange : String → String → Request → Exec (Run env.State) Response
  exchange phase request_class r = do
    response ← request env r
    observe env phase request_class (http_class response.status)
    pure response

  unfoldable pub list_prefix : String → Exec (Run env.State) Response
  unfolding exchange
  list_prefix phase = exchange phase "list_owned_prefix" (list_request run_id)

  pub head_object : String → Exec (Run env.State) Response
  unfolding exchange
  head_object phase = exchange phase "head_exact_object" (object_request head run_id)

  pub begin_delete : Exec (Run env.State) Unit
  begin_delete = do
    modify (λ s. record s { delete_attempted = true })
    mutation env none (some true)

  pub put_object : Exec (Run env.State) Unit
  unfolding exchange
  put_object = do
    modify (λ s. record s { put_attempted = true })
    mutation env (some true) none
    response ← exchange "forward" "put_exact_object" (put_request run_id)
    require (response.status == 200)
        (probe_blocked (text_append "put_http_" (decimal response.status)))

  pub read_back : Exec (Run env.State) Unit
  unfolding list_prefix head_object exchange
  read_back = do
    response ← head_object "forward"
    require
        (response.status == 200
          && has_text (decimal (length content)) (lookup "content-length" response.headers))
        (probe_blocked "head_mismatch")
    listing ← list_prefix "forward"
    keys ← lift (list_keys lib.parse_xml listing)
    require (list_eq str_eq keys (object_key_of run_id ∷ []))
        (probe_blocked "list_exact_object_mismatch")
    reply ← exchange "forward" "get_exact_object" (object_request get run_id)
    require
        (reply.status == 200
          && list_eq ◌==◌ reply.body content
          && str_eq (lib.sha256 reply.body) content_sha256)
        (probe_blocked "content_mismatch")

  pub delete_object : Exec (Run env.State) Unit
  unfolding exchange begin_delete
  delete_object = do
    begin_delete
    response ← exchange "forward" "delete_exact_object" (object_request delete run_id)
    require (response.status == 204)
        (probe_blocked (text_append "delete_http_" (decimal response.status)))

  pub accept : Exec (Run env.State) String
  unfolding list_prefix head_object finish_run
  accept = do
    response ← head_object "acceptance"
    require (response.status == 404) (probe_blocked "object_still_present")
    listing ← list_prefix "acceptance"
    lift (require_empty_list lib.parse_xml listing)
    finish_run "passed" none true false
    pure "passed"

  -- The `try` block.
  pub forward : Exec (Run env.State) String
  unfolding list_prefix put_object read_back delete_object accept
  forward = do
    listing ← list_prefix "initial"
    lift (require_empty_list lib.parse_xml listing)
    put_object
    read_back
    delete_object
    accept

  pub cleanup_delete : Exec (Run env.State) Unit
  unfolding exchange begin_delete
  cleanup_delete =
      catch
        (do
          begin_delete
          exchange "cleanup" "delete_exact_object" (object_request delete run_id)
          pure tt)
        (on_blocked (observe env "cleanup" "delete_exact_object" "transport_error"))

  pub cleanup_head : Exec (Run env.State) Bool
  unfolding head_object
  cleanup_head =
      catch (do response ← head_object "cleanup"; pure (response.status == 404))
        (on_blocked (do observe env "cleanup" "head_exact_object" "transport_error"; pure false))

  pub cleanup_list : Exec (Run env.State) Bool
  unfolding list_prefix
  cleanup_list =
      catch
        (do
          listing ← list_prefix "cleanup"
          keys ← lift (list_keys lib.parse_xml listing)
          pure (is_empty keys))
        (on_blocked (do observe env "cleanup" "list_owned_prefix" "transport_error"; pure false))

  -- What the handler does after a PUT was attempted.
  pub cleanup : String → Exec (Run env.State) String
  unfolding cleanup_delete cleanup_head cleanup_list finish_run
  cleanup code = do
    deleted ← gets (λ s. s.delete_attempted)
    if deleted then pure tt else cleanup_delete
    head_absent ← cleanup_head
    list_empty ← cleanup_list
    attempted ← gets (λ s. s.delete_attempted)
    let absence = attempted && head_absent && list_empty
    let result = if absence then "blocked" else "manual_intervention"
    finish_run result (some code) absence (not absence)
    pure result

  -- The `except` clause.
  pub recover : Error → Exec (Run env.State) String
  unfolding cleanup finish_run
  recover e = do
    attempted ← gets (λ s. s.put_attempted)
    if attempted
        then cleanup (error_code e)
        else do finish_run "blocked" (some (error_code e)) true false; pure "blocked"

  unfoldable pub perform_probe : Exec (Run env.State) String
  unfolding forward recover
  perform_probe = do
    require (is_hex 32 run_id) (probe_blocked "invalid_run_id")
    modify (λ s. record s { put_attempted = false; delete_attempted = false })
    catch forward recover
