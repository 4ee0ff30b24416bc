-- ===== src/S3Probe/Recorder.antt =====
-- `EvidenceRecorder`, with the requests and the replies of the transport. The world (network,
-- provider and file system) is a parameter: what it answers is not restricted.
pub mod Steps
use homelab_server_configs.Prelude.{
  ℕ, ◌/◌, String, Bool, false, ◌&&◌, Option, none, some, List, [], ◌∷◌, ◌++◌, leb, is_name, is_hex,
  decimal, one_of, text_append, if◌then◌else◌,
}
use homelab_server_configs.Prelude.Exec.{Error, blocked, Outcome, Exec, modify, require, ◌>>◌}

pub data Method : Type 0 where
  get put head delete : Method

pub record Request : Type 0 where
  pub method : Method
  pub object_key : Option String
  pub query : List (String × String)
  pub body : List ℕ
  pub content_type : Option String

pub record Response : Type 0 where
  pub status : ℕ
  pub headers : List (String × String)
  pub body : List ℕ

pub record Observation : Type 0 where
  pub phase : String
  pub request_class : String
  pub status : String

pub record Scope : Type 0 where
  pub response_shape : String
  pub bucket_count : ℕ
  pub exact_bucket_match : Bool
  pub exact_capabilities : Bool
  pub null_name_prefix : Bool
  pub no_provider_expiration : Bool
  pub exact_s3_endpoint : Bool

-- `self.document`, without the entries that never change after `__init__` (the versions, the
-- operation, the credential source and the two "retained" flags).
pub record Document : Type 0 where
  pub bundle_sha256 : String
  pub result : String
  pub observations : List Observation
  pub put_attempted : Bool
  pub delete_attempted : Bool
  pub absence_proven : Bool
  pub residue_possible : Bool
  pub scope : Option Scope
  pub run_id_sha256 : Option String
  pub content : Option (String × ℕ)
  pub error_class : Option String

-- What a run has done, the newest first: requests with what came back, and writes of result.json.
pub data Event : Type 0 where
  sent : Request → Outcome Response → Event
  saved : Document → Outcome Unit → Event

-- `transport.request`, and the calls of `os` that replace result.json by a document.
pub record World : Type 1 where
  pub State : Type 0
  pub request : Request → State → Outcome Response × State
  pub write_result : Document → State → Outcome Unit × State

-- The recorder, and the two local variables of `perform_probe` that its handler reads.
pub record Run (W : Type 0) : Type 0 where
  pub world : W
  pub document : Document
  pub put_attempted : Bool
  pub delete_attempted : Bool
  pub events : List Event

-- `ProbeBlocked(code)`, which replaces a code that is no name.
unfoldable pub probe_blocked : String → Error
probe_blocked code = blocked (if is_name code then code else "invalid_error_class")

unfoldable pub initial_document : String → Document
initial_document bundle = record {
  bundle_sha256 = bundle;
  result = "running";
  observations = [];
  put_attempted = false;
  delete_attempted = false;
  absence_proven = false;
  residue_possible = false;
  scope = none;
  run_id_sha256 = none;
  content = none;
  error_class = none;
}

module _ (env : World) where
  -- `EvidenceRecorder._write`
  unfoldable pub write : Exec (Run env.State) Unit
  write s =
      let (r, w) = env.write_result s.document s.world in
      (r, record s { world = w; events = saved s.document r ∷ s.events })

  -- `EvidenceRecorder.__init__`
  pub init_recorder : String → Exec (Run env.State) Unit
  unfolding initial_document
  init_recorder bundle = do
    require (is_hex 64 bundle) (probe_blocked "invalid_bundle_hash")
    modify (λ s. record s { document = initial_document bundle })
    write

  unfoldable pub observe : String → String → String → Exec (Run env.State) Unit
  observe phase request_class status = do
    require (is_name phase && is_name request_class && is_name status)
        (probe_blocked "invalid_observation")
    modify (λ s. record s {
      document = record s.document {
        observations =
            s.document.observations
            ++ (record { phase = phase; request_class = request_class; status = status }) ∷ [];
      };
    })
    write

  -- `mutation(put_attempted=…, delete_attempted=…)`; `none` is an argument that is left out.
  unfoldable pub mutation : Option Bool → Option Bool → Exec (Run env.State) Unit
  mutation putting deleting = do
    modify (λ s. record s {
      document = record s.document {
        put_attempted = elim putting [ none ↦ s.document.put_attempted | some b ↦ b ];
        delete_attempted = elim deleting [ none ↦ s.document.delete_attempted | some b ↦ b ];
      };
    })
    write

  unfoldable pub record_scope : Scope → Exec (Run env.State) Unit
  record_scope scope = do
    require
        (one_of
          ("allowed_buckets_array" ∷ "allowed_buckets_invalid" ∷ "allowed_invalid" ∷ "legacy_scalar"
            ∷ "allowed_missing" ∷ [])
          scope.response_shape)
        (probe_blocked "invalid_scope_observation")
    require (leb scope.bucket_count 101) (probe_blocked "invalid_scope_observation")
    modify (λ s. record s { document = record s.document { scope = some scope } })
    write

  -- `content` is the pair of `CONTENT_SHA256` and `len(CONTENT)`.
  unfoldable pub finish :
      String × ℕ → String → Option String → String → Bool → Bool → Exec (Run env.State) Unit
  finish content result error_class run_id_sha256 absence_proven residue_possible = do
    modify (λ s. record s {
      document = record s.document {
        result = result;
        run_id_sha256 = some run_id_sha256;
        content = some content;
        absence_proven = absence_proven;
        residue_possible = residue_possible;
        error_class = elim error_class [ none ↦ s.document.error_class | some c ↦ some c ];
      };
    })
    write

  -- `transport.request(…)`
  unfoldable pub request : Request → Exec (Run env.State) Response
  request r s =
      let (o, w) = env.request r s.world in
      (o, record s { world = w; events = sent r o ∷ s.events })

-- `f"http_{status // 100}xx"`
unfoldable pub http_class : ℕ → String
http_class status = text_append "http_" (text_append (decimal (status / 100)) "xx")
