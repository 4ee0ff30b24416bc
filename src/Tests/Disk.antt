-- ===== src/Tests/Disk.antt =====
-- The output of a smartd that comes in two pieces, an exit status, and a plan of queries.
use homelab_server_configs.Prelude.{
  ℕ, ◌+◌, ◌*◌, ◌≤◌, String, Bool, true, false, Option, none, some, List, [], ◌∷◌, ◌++◌, ◌≡◌, refl,
  arith, codes, length, Every, if◌then◌else◌, text_append,
}
use homelab_server_configs.Prelude
use homelab_server_configs.Prelude.Exec.{Outcome, returned, and_then}
use homelab_server_configs.Smart.Transactions.{Text, Tracker, Patterns, initial, feed}
use homelab_server_configs.Smart.Comparison.{
  exited, flags, exit_bits, Trial, Query, query, query_plan,
}
use homelab_server_configs.Smart.Comparison.Bits.{weight, exit_bits-weight}
use homelab_server_configs.Smart.Comparison.Plan.{Reviewed, query_plan-Reviewed}

-- Each byte that is not ASCII is replaced.
abbrev patterns : Patterns
patterns = record {
  decode = Prelude.map (λ c. if Prelude.ltb c 128 then c else 0xfffd);
  warns = λ line. false;
  nvme_call = λ line. some ("0x02", "0x008c0006");
}

abbrev first_piece : Text
first_piece =
    codes "Monitoring 0 ATA/SATA, 0 SCSI/SAS and 1 NVMe devices" ++ (10 ∷ codes " [NVMe ca")

abbrev second_piece : Text
second_piece =
    codes "ll: opcode=0x02 cdw10=0x008c0006]"
    ++ (10 ∷ (codes "NVMe call succeeded: result=0x00000000" ++ (10 ∷ [])))

abbrev completed_of : Outcome Tracker → Option ℕ
completed_of (returned t) = some t.reads.completed
completed_of _ = none

one_is_completed :
    completed_of (and_then (feed patterns 7 first_piece initial) (feed patterns 7 second_piece))
    ≡ some 1
unfolding feed
one_is_completed = refl

exit_bits-weight_example : weight (exit_bits (exited 68)) 0 flags ≡ 68
exit_bits-weight_example = exit_bits-weight 68 (omega arith)

abbrev trial : Trial
trial = record {
  comparison_mode = some "candidate_local_database";
  queries = 2;
  observation_after_each_seconds = 75;
  maximum_trial_seconds = 900;
  production_changes = false;
  self_test_start = false;
  expected_bcd_device = some "0213";
  database_sha256 = some "0123456789abcdef0123456789abcdef0123456789abcdef0123456789abcdef";
}

abbrev two_queries : List Query
two_queries =
    query "candidate-explicit" "/b/smartctl" "sntjmicron"
    ∷ query "candidate-auto" "/b/smartctl" "auto"
    ∷ []

is_planned : query_plan trial "/b/smartctl" ≡ returned two_queries
unfolding query_plan Prelude.is_hex
is_planned = refl

query_plan-Reviewed_example :
    Every (Reviewed "/b/jms583-0213.drivedb.h" "/b/smartctl" "candidate_local_database") two_queries
    × (length two_queries ≡ 2)
    × (length two_queries * 75 ≤ 900)
query_plan-Reviewed_example =
    query_plan-Reviewed "/b/jms583-0213.drivedb.h" trial "/b/smartctl" two_queries is_planned
