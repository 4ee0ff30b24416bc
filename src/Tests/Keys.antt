-- ===== src/Tests/Keys.antt =====
-- Runs of the key preflight and of the key creation at concrete replies.
use homelab_server_configs.Prelude.{
  ◌≤◌, String, true, false, none, some, List, [], ◌∷◌, ◌≡◌, refl, ◌⊎◌, length, str_eq,
}
use homelab_server_configs.Prelude.Exec.{returned}
use homelab_server_configs.Prelude.Json.{Json, string, array, object, Items, cons, nil, field, end}
use homelab_server_configs.KeyPreflight.Client.{
  Provider, Run, SplitUrl, replied, validate_api_base, is_api_host,
}
use homelab_server_configs.KeyPreflight.Run.{perform_preflight, required_auth_capabilities}
use homelab_server_configs.KeyCreation.Creation.{Python}
use homelab_server_configs.KeyCreation.Creation.Once.{OneCreate}
use homelab_server_configs.KeyCreation.Report.{Verdict, main_verdict}
use homelab_server_configs.KeyCreation.Report.Honest.{main_verdict-Fits}
use homelab_server_configs.S3Probe.Session.{EvidencePath}
use homelab_server_configs.KeyPreflight.Run.Requests.{AllRead, perform_preflight-reads}
use homelab_server_configs.KeyPreflight.Doppler.{
  admin_key_id_name, admin_secret_argv, strip_line_end, read_admin_secret, read_doppler_names,
}
use homelab_server_configs.Prelude.{ℕ, Option, codes, ◌++◌}
use homelab_server_configs.Prelude.Json.{Fields}
use homelab_server_configs.Prelude.Exec.{Outcome}

abbrev api_url : SplitUrl
api_url = record {
  scheme = "https";
  has_username = false;
  has_password = false;
  port = none;
  query = "";
  fragment = "";
  path = "";
  hostname = "api002.backblazeb2.com";
}

abbrev api_base : String
api_base = "https://api002.backblazeb2.com"

api_url_is_accepted : validate_api_base api_url ≡ returned api_base
unfolding validate_api_base is_api_host
api_url_is_accepted = refl

abbrev text_items : List String → Items
text_items [] = nil
text_items (c ∷ cs) = cons (string c) (text_items cs)

-- The reply to the authorization; every later reply is the same, and holds no keys.
abbrev authorized : Json
authorized = object (
    field "accountId" (string "a1") (
      field "authorizationToken" (string "t1") (
        field "apiInfo"
          (object (
            field "storageApi"
              (object (
                field "allowed"
                  (object
                    (field "capabilities" (array (text_items required_auth_capabilities)) end))
                  (field "apiUrl" (string api_base)
                    (field "s3ApiUrl" (string "https://s3.us-west-002.backblazeb2.com") end))))
              end))
          end)))

abbrev provider : Provider
provider = record {
  State = Unit {0};
  post = λ r w. (replied r.url [], w);
  parse_json = λ b. some authorized;
}

abbrev started : Run (Unit {0})
started = record { world = tt; requests = []; checks = []; authority = none }

perform_preflight-reads_example :
    let s' = (perform_preflight provider (λ u. api_url) "basic" (returned []) started).1 in
    AllRead s'.requests × (length s'.requests ≤ 103)
perform_preflight-reads_example =
    perform_preflight-reads provider (λ u. api_url) "basic" (returned []) started refl

abbrev python : Python
python = record { equal = λ a b. true; sorted = λ js. some js }

abbrev root_path : EvidencePath
root_path = record {
  is_absolute = true;
  parent = "/tmp";
  name = "backblaze-b2-replacement-key-creation.Ab3_";
  lstat = some (record { is_directory = true; is_link = false; uid = 1000; mode = 0o700 });
  open_directory = some 5;
}

main_verdict-Fits_example :
    let (o, s') =
      main_verdict provider
        (λ u. api_url)
        python
        (λ i v w. (returned tt, w))
        (λ w. (returned "basic", w))
        1000
        root_path
        (returned [])
        started in
    (v : Verdict) × (o ≡ returned v)
    × (AllRead s'.requests ⊎ ((v.mutation_attempted ≡ true) × OneCreate s'.requests))
    × ((str_eq v.result "created_and_delivered" ≡ false) ⊎ OneCreate s'.requests)
main_verdict-Fits_example =
    main_verdict-Fits provider (λ u. api_url) python (λ i v w. (returned tt, w))
      (λ w. (returned "basic", w)) 1000 root_path (returned []) started refl

abbrev printing : List String → String → Outcome (List ℕ)
printing argv code = returned (codes "K0001" ++ (13 ∷ 10 ∷ []))

admin_secret_is_read : read_admin_secret printing admin_key_id_name ≡ returned (codes "K0001")
unfolding read_admin_secret admin_secret_argv strip_line_end
admin_secret_is_read = refl

abbrev printed_names : Fields
printed_names = field "FIRST" (object end) (field "SECOND" (object end) end)

abbrev parse_names : List ℕ → Option Json
parse_names captured = some (object printed_names)

names_are_read : read_doppler_names printing parse_names ≡ returned ("FIRST" ∷ "SECOND" ∷ [])
unfolding read_doppler_names
names_are_read = refl
