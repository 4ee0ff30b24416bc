-- ===== src/Lib.antt =====
-- Operations scripts of a homelab, above all those that touch something which cannot be undone: a
-- probe that writes to a production bucket, a preflight that looks at the keys of an account, the
-- creation of a key, the protection of a recurring backup with its alerts, a workload test with its
-- fixture, the trials of a disk monitor, and an attended kernel panic.
--
-- The parts, and the files that model them:
-- - Prelude: the shared names, texts as code points, JSON values, and `Exec`, the monad of a script:
--   an outcome (a value, or an exception by its kind) with the state that is left, which an
--   exception does not roll back. `Ensures` is the triple of a condition before, one after a
--   return, and one after an exception.
-- - S3Probe: backblaze-b2/scripts/s3_compatibility_probe.py. `Recorder` is `EvidenceRecorder`,
--   `Listing` the helpers of listings, `Transaction` `perform_probe`, `Preflight`
--   `perform_read_only_preflight`, `Credentials` `read_secret`, `Transport` `signed_request` and
--   `S3Transport.request`, and `Session`
--   `validate_evidence_root` and `execute`, which calls all of them.
-- - KeyPreflight: backblaze-b2/scripts/capability_remediation_preflight.py. `Client` holds
--   `request_json`, the field readers and the checks of URLs, `Run` `perform_preflight`, and
--   `Doppler` the readers of secrets and of their names.
-- - KeyCreation: backblaze-b2/scripts/replacement_key_creation.py, a client of the preflight.
--   `Creation` holds `perform_creation`, `Report` the `try` statement of `main`.
-- - Protection: Nautobot/ansible/scripts/recurring_protection.py. `Window` holds the schedule,
--   `Supervisor` the class of that name, whose methods share state.json with other processes.
--   `Delivery` is `notify` of recurring_delivery.py beside it, which sends the alerts:
--   `Rationed` counts the messages, and `Machine` is the abstract specification of the file.
-- - Workload: `Sampler` is `validate`, `swap_review` and `review_samples` of
--   Nautobot/ansible/scripts/workload_sampler.py, `Drain` the probes and `drain` of
--   recovery_probe.py beside it.
-- - Fixture: `Plan` is `plan` of Nautobot/ansible/scripts/workload_adapter.py, cut into `Data`, its
--   `Loops` and the block of its `Records`; `Apply` is its `apply`, which goes through the plan with
--   a store that is a parameter.
-- - Smart: `Transactions` is the class of smartmontools/scripts/observe-smartd.py, `Comparison` the
--   plan and the exit status of compare-ci-smartctl.py beside it.
-- - Watchdog: `Grant` is `grant_valid` and `trigger` of watchdog/scripts/panic-worker.py;
--   the rest is watchdog/scripts/run-panic-recovery.py: `Operator` and `Channel` are
--   `validate_operator` and `trigger_channel`, which sends the grant, and `Checks`, `Timing`,
--   `Sample` and `Recovery` are `recovery_observation`, which follows it; `Sample.Good` says what its samples have to show.
-- - Tests: runs at concrete inputs.
--
-- How code corresponds to definitions. A function of the source is a definition of its name; a long
-- one is cut at its statements, and the pieces are composed in the source's order. What a script
-- asks of the world (the network, the disk, a process, a clock) is a field of a record of functions
-- on a state that nothing is assumed of, so that every answer, failure and interleaving with other
-- processes is among them. The model of a state keeps a trace of what was sent, run and stored,
-- the newest first, which the program itself never reads.
--
-- Numbers are natural numbers. Times are milliseconds, or seconds where a comment says so; the
-- source's fractions of a second are finer, and are compared the same way. A loop without a bound in
-- the source takes a number of rounds, and gives `none` when they are used up.
-- The hundred pages of the key listing are the source's own bound.
--
-- Not modelled: HTTPS and the opener's TLS context, the parsing of XML and JSON and the hashes,
-- which are parameters; the wiping of secrets in memory; and the checks of paths, types and command
-- lines in the configuration of the backup. The other scripts of the repository are mostly calls of
-- Ansible, containers and SSH.
pub mod Fixture
pub mod KeyCreation
pub mod KeyPreflight
pub mod Prelude
pub mod Protection
pub mod S3Probe
pub mod Smart
pub mod Tests
pub mod Watchdog
pub mod Workload
