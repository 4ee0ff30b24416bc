-- ===== src/Tests/Probe.antt =====
-- Runs of the S3 probe against scripted replies.
use homelab_server_configs.Prelude.{
  ℕ, ◌≤◌, String, Bool, true, false, Option, none, some, List, [], ◌∷◌, ◌++◌, ◌≡◌, refl, all, any,
  is_empty, length, codes, list_eq, str_eq, ◌==◌, if◌then◌else◌,
}
use homelab_server_configs.Prelude
use homelab_server_configs.Prelude.Exec
use homelab_server_configs.Prelude.Exec.{Outcome, returned, raised, other_error}
use homelab_server_configs.Prelude.Json.{Json, string, array, object, Items, cons, nil, field, end}
use homelab_server_configs.S3Probe.Recorder
use homelab_server_configs.S3Probe.Recorder.{
  Request, Response, Document, World, Run, initial_document,
}
use homelab_server_configs.S3Probe.Listing
use homelab_server_configs.S3Probe.Listing.{content, content_sha256, ListXml, bucket}
use homelab_server_configs.S3Probe.Credentials.{
  Completed, completed, read_secret, doppler_secret_argv, strip_line_ends, is_forbidden,
  is_line_end, max_credential_bytes, read_secret-clean, key_id_name,
}
use homelab_server_configs.S3Probe.Transaction
use homelab_server_configs.S3Probe.Transaction.{Library, object_key_of, perform_probe}
use homelab_server_configs.S3Probe.Transaction.Trace.{is_put, is_delete, count_sent, Announced}
use homelab_server_configs.S3Probe.Transaction.WriteAhead.{perform_probe-Announced}
use homelab_server_configs.S3Probe.Preflight
use homelab_server_configs.S3Probe.Preflight.{
  Opened, replied, perform_read_only_preflight, bucket_id, endpoint, max_response_bytes,
  expected_capabilities,
}
use homelab_server_configs.S3Probe.Preflight.ReadOnly.{preflight-count_sent}
use homelab_server_configs.S3Probe.Session.{EvidencePath, validate_evidence_root, is_evidence_name}
use homelab_server_configs.S3Probe.Transport.{
  Crypto, SignedRequest, Opening, answered, signed_request, transport_request,
}
use homelab_server_configs.S3Probe.Transport.Encoding.{quote, quote_path}

abbrev run_id : String
run_id = "0123456789abcdef0123456789abcdef"

-- The provider answers with what is left of a script, and every write of the evidence succeeds.
abbrev next_reply : List Response → Outcome Response × List Response
next_reply [] = (raised other_error, [])
next_reply (r ∷ rs) = (returned r, rs)

abbrev scripted : World
scripted = record {
  State = List Response;
  request = λ r. next_reply;
  write_result = λ d w. (returned tt, w);
}

-- The listing of one key is the body 1, and the empty listing is the empty body.
abbrev listing_of : List ℕ → Option ListXml
listing_of [] = some (record { is_truncated = some "false"; keys = [] })
listing_of (c ∷ rest) =
    some (record { is_truncated = some "false"; keys = some (object_key_of run_id) ∷ [] })

abbrev library : Library
library = record { sha256 = λ b. content_sha256; parse_xml = listing_of }

abbrev reply : ℕ → List ℕ → Response
reply status body = record { status = status; headers = ("content-length", "38") ∷ []; body = body }

abbrev started : List Response → Run (List Response)
started replies = record {
  world = replies;
  document = initial_document "";
  put_attempted = false;
  delete_attempted = false;
  events = [];
}

-- A probe that passes.
abbrev passing : List Response
passing =
    reply 200 []
    ∷ reply 200 []
    ∷ reply 200 []
    ∷ reply 200 (1 ∷ [])
    ∷ reply 200 content
    ∷ reply 204 []
    ∷ reply 404 []
    ∷ reply 200 []
    ∷ []

-- A PUT that fails, and is cleaned up.
abbrev failing : List Response
failing = reply 200 [] ∷ reply 503 [] ∷ reply 204 [] ∷ reply 404 [] ∷ reply 200 [] ∷ []

passing_passes : (perform_probe scripted library run_id (started passing)).0 ≡ returned "passed"
unfolding perform_probe Exec.◌>>=◌ Prelude.is_hex Exec.catch Recorder.request Recorder.observe
    Prelude.is_name Recorder.http_class Prelude.decimal Recorder.write Listing.require_empty_list
    Listing.list_keys Recorder.mutation Recorder.finish
passing_passes = refl

perform_probe-Announced_example :
    let s' = (perform_probe scripted library run_id (started failing)).1 in
    (count_sent is_put s'.events ≤ 1)
    × (count_sent is_delete s'.events ≤ 1)
    × Announced (object_key_of run_id) s'.events
perform_probe-Announced_example =
    perform_probe-Announced scripted library run_id (started failing) refl

-- A process that prints a secret with a line feed.
abbrev printing : List String → Completed
printing argv = completed true (codes "K0001" ++ (10 ∷ []))

read_secret_reads : read_secret printing key_id_name ≡ returned (codes "K0001")
unfolding read_secret doppler_secret_argv strip_line_ends
read_secret_reads = refl

read_secret-clean_example :
    let value = codes "K0001" in
    (is_empty value ≡ false)
    × (length value ≤ max_credential_bytes)
    × (any is_forbidden value ≡ false)
    × ((argv : List String) × (output tail : List ℕ) × (doppler_secret_argv key_id_name
          ≡ returned argv)
        × (printing argv ≡ completed true output)
        × (value ++ tail ≡ output)
        × (all is_line_end tail ≡ true))
read_secret-clean_example = read_secret-clean printing key_id_name (codes "K0001") read_secret_reads

abbrev authorized : Json
authorized = object (
    field "apiInfo"
      (object (
        field "storageApi"
          (object (
            field "s3ApiUrl" (string endpoint) (
              field "allowed"
                (object (
                  field "buckets"
                    (array (
                      cons
                        (object (field "id" (string bucket_id) (field "name" (string bucket) end)))
                        nil))
                    (field "capabilities" (array (capability_items expected_capabilities)) end)))
                end)))
          end))
      end)
  where
    capability_items : List String → Items
    capability_items [] = nil
    capability_items (c ∷ cs) = cons (string c) (capability_items cs)

abbrev open_native : List Response → Opened × List Response
open_native w = (replied "https://api.backblazeb2.com/b2api/v4/b2_authorize_account" 200 [], w)

abbrev parse_json : List ℕ → Option Json
parse_json payload = some authorized

abbrev preflight_started : Run (List Response)
preflight_started = started (reply 200 [] ∷ [])

preflight-count_sent_example :
    let s' =
      (perform_read_only_preflight scripted library parse_json open_native run_id
        preflight_started).1 in
    (count_sent is_put s'.events ≡ 0) × (count_sent is_delete s'.events ≡ 0)
unfolding count_sent
preflight-count_sent_example =
    preflight-count_sent scripted library parse_json open_native run_id preflight_started

abbrev evidence_path : EvidencePath
evidence_path = record {
  is_absolute = true;
  parent = "/tmp";
  name = "backblaze-b2-s3-compatibility.Ab3_";
  lstat = some (record { is_directory = true; is_link = false; uid = 1000; mode = 0o700 });
  open_directory = some 5;
}

evidence_path_is_opened : validate_evidence_root 1000 evidence_path ≡ returned 5
unfolding validate_evidence_root is_evidence_name
evidence_path_is_opened = refl

abbrev crypto : Crypto
crypto = record {
  sha256 = λ b. codes "0a";
  hmac = λ k b. b;
  hmac_hex = λ k b. codes "0b";
  lower = λ s. s;
}

abbrev listing_request : Request
listing_request = Transaction.list_request run_id

-- Every request is answered from its own URL.
abbrev answering : SignedRequest → Opening crypto [] []
answering request = answered request.url 200 [] (codes "ok")

abbrev the_time : Option (List ℕ)
the_time = some (codes "20260102T030405Z")

abbrev the_response : Response
the_response = record { status = 200; headers = []; body = codes "ok" }

listing_is_answered :
    transport_request crypto [] [] answering listing_request the_time ≡ returned the_response
unfolding transport_request signed_request Listing.list_query quote quote_path
listing_is_answered = refl
