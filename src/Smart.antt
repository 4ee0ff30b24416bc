-- ===== src/Smart.antt =====
-- The scripts of smartmontools/scripts: how the supervised smartd is observed
-- (observe-smartd.py), and what the comparison of smartctl asks (compare-ci-smartctl.py).
pub mod Transactions
pub mod Comparison
