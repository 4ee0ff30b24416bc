-- ===== src/Tests/Alerts.antt =====
-- Alerts of the protection, delivered to a sender that refuses, and to one that accepts.
use homelab_server_configs.Prelude.{
  ℕ, ◌+◌, none, some, List, [], ◌∷◌, ◌≡◌, refl, arith, Bool, true, false,
}
use homelab_server_configs.Prelude.Exec.{Outcome, returned}
use homelab_server_configs.Prelude.Exec
use homelab_server_configs.Protection.Delivery.{
  Event, failure, missed, whole, Contract, bounded, policy_of, replaced, Host, Node, settled,
  notify,
}
use homelab_server_configs.Protection.Delivery.Rationed.{Rationed, deliveries, notify-Rationed}
use homelab_server_configs.Protection.Delivery.Machine.{
  view, Reach, Earned, Settled, notify-Reach, notify-Settled,
}
use homelab_server_configs.Protection.Delivery.Delivered.{Works, notify-delivers}

abbrev contract : Contract
contract = record { maximum_attempts = some (whole 3); retry_interval_seconds = some (whole 60) }

-- The state counts the calls of the sender, which always gives the same answer.
abbrev host_that : Outcome Bool → Host
host_that answer = record {
  State = ℕ;
  directory_protected = λ w. (returned tt, w);
  lock = λ w. (returned tt, w);
  file_readable = λ w. (returned tt, w);
  save = λ r w. (replaced, w);
  sender = λ p w. (answer, w + 1);
  event_id = λ sequence event. "id";
  isoformat = λ now. "2026-01-02T02:30:00+00:00";
}

abbrev start : Node ℕ
start = record { world = 0; memory = record { file = none; previous = none; log = [] } }

abbrev retries : List (Event × ℕ)
retries =
    (failure, 0) ∷ (failure, 1000) ∷ (failure, 70000) ∷ (missed, 200000) ∷ (failure, 900000) ∷ []

-- Two calls of the five come too early or too late for a message.
three_are_sent : (deliveries (host_that (returned false)) contract retries start).world ≡ 3
unfolding notify policy_of Exec.◌>>=◌
three_are_sent = refl

policy_is_bounded :
    policy_of contract.maximum_attempts contract.retry_interval_seconds ≡ returned (bounded 3 60)
unfolding policy_of
policy_is_bounded = refl

notify-Rationed_example :
    Rationed 3 (deliveries (host_that (returned false)) contract retries start).memory.log
notify-Rationed_example =
    notify-Rationed (host_that (returned false)) contract 3 60 retries start policy_is_bounded refl

notify-Reach_example :
    let n' = (notify (host_that (returned true)) contract failure 5000 start).1 in
    Reach (view none) (view n'.memory.file) × Earned n'.memory.log
notify-Reach_example = notify-Reach (host_that (returned true)) contract failure 5000 start tt

is_delivered : (notify (host_that (returned true)) contract failure 5000 start).0 ≡ returned true
unfolding notify policy_of Exec.◌>>=◌
is_delivered = refl

notify-Settled_example :
    Settled failure (notify (host_that (returned true)) contract failure 5000 start).1.memory.file
notify-Settled_example =
    notify-Settled (host_that (returned true)) contract failure 5000 start tt is_delivered

accepting : Works (host_that (returned true))
accepting = record {
  protects = λ w. refl;
  locks = λ w. refl;
  reads = λ w. refl;
  saves = λ r w. refl;
  accepts = λ p w. refl;
}

abbrev after_recovery : Node ℕ
after_recovery = record {
  world = 0;
  memory = record { file = some (settled Event.recovery 4); previous = none; log = [] };
}

notify-delivers_example :
    (notify (host_that (returned true)) contract missed 5000 after_recovery).0 ≡ returned true
notify-delivers_example =
    notify-delivers (host_that (returned true)) accepting contract (bounded 3 60) missed 5000
      after_recovery policy_is_bounded (0, refl, omega arith, omega arith) tt
