-- ===== src/Tests.antt =====
-- Runs of the modelled code at concrete inputs.
mod Probe
mod Trigger
mod Keys
mod Backup
mod Panic
mod Alerts
mod Load
mod Disk
mod Objects
