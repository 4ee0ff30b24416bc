-- ===== src/Fixture.antt =====
-- The operations on the fixture of the workload test, Nautobot/ansible/scripts/workload_adapter.py.
pub mod Data
pub mod Loops
pub mod Records
pub mod Plan
pub mod Apply
