-- ===== src/Protection.antt =====
-- The recurring backup: schedule and supervisor (Nautobot/ansible/scripts/recurring_protection.py),
-- and the delivery of its alerts (recurring_delivery.py beside it).
pub mod Window
pub mod Supervisor
pub mod Delivery
