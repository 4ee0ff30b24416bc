-- ===== src/Watchdog.antt =====
-- The attended panic of watchdog/scripts: the worker's one grant, and the observation of recovery.
pub mod Channel
pub mod Grant
pub mod Checks
pub mod Operator
pub mod Recovery
pub mod Sample
pub mod Timing
