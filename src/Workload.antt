-- ===== src/Workload.antt =====
-- The workload test and the drained stop of Nautobot/ansible/scripts: the sampler
-- (workload_sampler.py) and the probes of the broker and the worker (recovery_probe.py).
pub mod Sampler
pub mod Drain
