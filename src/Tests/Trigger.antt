-- ===== src/Tests/Trigger.antt =====
-- A controller that sends its grant: the worker takes the source, says that it is ready, and ends.
use homelab_server_configs.Prelude.{
  ℕ, zero, suc, ◌+◌, ◌*◌, String, true, Option, none, some, List, [], ◌∷◌, ◌≡◌, refl, is_hex,
}
use homelab_server_configs.Prelude.Exec
use homelab_server_configs.Prelude.Exec.{returned}
use homelab_server_configs.Prelude.Json.{Json, boolean, natural, string, object, Fields, field, end}
use homelab_server_configs.Watchdog.Operator.{
  Number, millis, prerequisites, ready_nonce, health_offset, validate_operator,
}
use homelab_server_configs.Watchdog.Channel.{
  Stream, stdin, stdout, stderr, Peer, Channel, trigger_channel,
}

abbrev nonce : String
nonce = "00112233445566778899aabbccddeeff00112233445566778899aabbccddeeff"

abbrev ready : Json
ready = object (
    field "ready" (boolean true)
      (field "nonce" (string nonce) (field "health_started_offset" (natural 1) end)))

abbrev ticked : List String → Fields
ticked [] = field "bundle_sha256" (string "5ea1") (
    field "epoch" (natural 1000) (
      field "clock_uncertainty_seconds" (natural 1)
        (field "fallback_identity" (string "unknown-hold-powered-off") end)))
ticked (k ∷ ks) = field k (boolean true) (ticked ks)

abbrev seconds : Json → Option Number
seconds (natural n) = some (millis (n * 1000))
seconds _ = none

-- The world counts the rounds.
abbrev keys_at : ℕ → List Stream
keys_at zero = stdin ∷ []
keys_at (suc zero) = stdout ∷ []
keys_at (suc (suc zero)) = stdout ∷ []
keys_at _ = stderr ∷ []

abbrev bytes_at : ℕ → List ℕ
bytes_at (suc (suc zero)) = 123 ∷ 125 ∷ 10 ∷ []
bytes_at _ = []

abbrev peer : Peer
peer = record {
  State = ℕ;
  create_armed = λ w. (returned tt, w);
  create_submitted = λ healthy moment w. (returned tt, w);
  monotonic = λ w. (100000 + w, w);
  epoch = λ w. (1002000, w);
  popen = λ w. (returned tt, w);
  register = λ w. (returned tt, w);
  select = λ streams ms w. (returned (keys_at w), w + 1);
  write_payload = λ w. (returned 7000, w);
  read_stream = λ stream w. (returned (bytes_at w), w);
  write_grant = λ n w. (returned true, w);
  close_stdin = λ w. (returned tt, w);
  poll = λ w. (none, w);
  kill = λ w. (returned tt, w);
  wait = λ w. (returned tt, w);
  clients = λ w. (returned tt, w);
  read_operator = λ w. (returned (object (ticked prerequisites)), w);
  save = λ label w. (returned tt, w);
  parse_json = λ b. some ready;
  number = seconds;
  payload_size = 7000;
}

abbrev closed : Channel ℕ
closed = record {
  world = 0;
  events = [];
  output = [];
  errors = 0;
  pending = 0;
  registered = [];
  deadline = 0;
  healthy = 0;
  submission = none;
}

is_submitted : (trigger_channel peer 5 "5ea1" closed).0 ≡ returned (some (99000, 100002))
unfolding trigger_channel ready_nonce health_offset validate_operator is_hex Exec.◌>>=◌
is_submitted = refl
