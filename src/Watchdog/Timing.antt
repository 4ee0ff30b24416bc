-- ===== src/Watchdog/Timing.antt =====
-- `TIMING` of watchdog/scripts/run-panic-recovery.py, in milliseconds.
use homelab_server_configs.Prelude.{ℕ, ◌*◌}

abbrev pub boot : ℕ
boot = 60 * 1000

abbrev pub availability : ℕ
availability = 300 * 1000

abbrev pub convergence : ℕ
convergence = 1800 * 1000

abbrev pub escalation : ℕ
escalation = 120 * 1000

abbrev pub stability : ℕ
stability = 1800 * 1000

abbrev pub convergence_cadence : ℕ
convergence_cadence = 30 * 1000

abbrev pub cadence : ℕ
cadence = 60 * 1000

abbrev pub gap : ℕ
gap = 75 * 1000

abbrev pub total : ℕ
total = 4200 * 1000
