-- ===== src/Smart/Transactions.antt =====
-- `Transactions`: the reads of the supervised smartd, followed through its diagnostic output. Texts
-- are lists of code points; the decoding of bytes and the two regular expressions are parameters. An exception ends the observation, so that no tracker is left after it.
pub mod Chunks
use homelab_server_configs.Prelude.{
  ℕ, suc, ◌+◌, ◌-◌, String, Bool, true, false, not, ◌&&◌, ◌||◌, Option, none, some, List, [], ◌∷◌,
  ◌++◌, leb, ltb, ◌==◌, str_eq, codes, length, starts_with_codes, if◌then◌else◌,
}
use homelab_server_configs.Prelude.Exec.{
  Error, value_error, os_error, Outcome, returned, raised, and_then,
}

abbrev pub Text : Type 0
Text = List ℕ

-- The attributes of the tracker: those that a line may change, and the text that has not ended.
pub record Reads : Type 0 where
  pub call_started : Option ℕ
  pub selftest : Bool
  pub monitoring : Bool
  pub completed : ℕ
  pub last_completed : Option ℕ

pub record Tracker : Type 0 where
  pub pending : Text
  pub reads : Reads

-- `__init__`
abbrev pub initial : Tracker
initial = record {
  pending = [];
  reads = record {
    call_started = none;
    selftest = false;
    monitoring = false;
    completed = 0;
    last_completed = none;
  };
}

abbrev pub is_some : {A : Type 0} → Option A → Bool
is_some none = false
is_some (some a) = true

-- Python's `part in text`.
abbrev pub contains : Text → Text → Bool
contains part [] = is_some (starts_with_codes part [])
contains part (c ∷ text) = is_some (starts_with_codes part (c ∷ text)) || contains part text

-- Put before the first line, or before the rest when there is no line.
abbrev pub push : ℕ → List Text × Text → List Text × Text
push c ([], rest) = ([], c ∷ rest)
push c (line ∷ lines, rest) = ((c ∷ line) ∷ lines, rest)

abbrev pub put : ℕ → List Text × Text → List Text × Text
put c (lines, rest) = if c == 10 then ([] ∷ lines, rest) else push c (lines, rest)

-- The lines of a text that have ended, and what follows the last line end.
abbrev pub split : Text → List Text × Text
split [] = ([], [])
split (c ∷ text) = put c (split text)

-- `decode('utf-8', errors='replace')` of the bytes of one call, and what the code asks of the two
-- regular expressions: whether the first is found, and the groups of the second.
pub record Patterns : Type 0 where
  pub decode : List ℕ → Text
  pub warns : Text → Bool
  pub nvme_call : Text → Option (String × String)

abbrev is_reviewed : String × String → Bool
is_reviewed (opcode, cdw10) =
    (str_eq opcode "0x06" && str_eq cdw10 "0x00000001")
    || (str_eq opcode "0x02" && str_eq cdw10 "0x007f0002")
    || (str_eq opcode "0x02" && str_eq cdw10 "0x008c0006")

-- The `if '[NVMe call:' in line` block.
abbrev pub started_call : Patterns → ℕ → Text → Reads → Outcome Reads
started_call patterns now line r =
    if is_some r.call_started
    then raised (value_error "missing_transaction_result")
    else elim (patterns.nvme_call line) [
      | none ↦ raised (value_error "unexpected_device_command")
      | some groups ↦
          if is_reviewed groups
          then returned
              (record r { call_started = some now; selftest = str_eq groups.1 "0x008c0006" })
          else raised (value_error "unexpected_device_command")
    ]

abbrev counted : ℕ → Reads → Reads
counted now r =
    if r.monitoring && r.selftest
    then record r { completed = suc r.completed; last_completed = some now }
    else r

-- The `if 'NVMe call succeeded:' in line` block.
abbrev pub finished_call : ℕ → Text → Reads → Outcome Reads
finished_call now line r =
    if not (is_some r.call_started) || not (contains (codes "result=0x00000000") line)
    then raised (value_error "unexpected_transaction_result")
    else returned (record (counted now r) { call_started = none; selftest = false })

abbrev seen : Text → Reads → Reads
seen line r =
    if contains (codes "Monitoring 0 ATA/SATA, 0 SCSI/SAS and 1 NVMe devices") line
    then record r { monitoring = true }
    else r

-- One line of the loop.
pub read_line : Patterns → ℕ → Text → Reads → Outcome Reads
read_line patterns now line r =
    if ltb 4096 (length line)
    then raised (value_error "diagnostic_line_limit")
    else if patterns.warns line
    then raised (value_error "candidate_warning_or_failure")
    else and_then
        (if contains (codes "[NVMe call:") line
          then started_call patterns now line (seen line r)
          else returned (seen line r))
        (λ u.
          if contains (codes "NVMe call succeeded:") line
          then finished_call now line u
          else returned u)

pub read_lines : Patterns → ℕ → List Text → Reads → Outcome Reads
unfolding read_line
read_lines patterns now [] r = returned r
read_lines patterns now (line ∷ rest) r =
    and_then (read_line patterns now line r) (read_lines patterns now rest)

-- The text that has not ended is kept, up to a limit.
abbrev pub kept : Text → Reads → Outcome Tracker
kept rest r =
    if ltb 4096 (length rest)
    then raised (value_error "diagnostic_line_limit")
    else returned (record { pending = rest; reads = r })

-- `feed` after the decoding of its bytes.
unfoldable pub feed_text : Patterns → ℕ → Text → Tracker → Outcome Tracker
unfolding read_lines
feed_text patterns now text t =
    let (lines, rest) = split (t.pending ++ text) in
    and_then (read_lines patterns now lines t.reads) (kept rest)

-- `feed(bytes, now)`: the bytes of each call are decoded on their own.
unfoldable pub feed : Patterns → ℕ → List ℕ → Tracker → Outcome Tracker
unfolding feed_text
feed patterns now bytes t = feed_text patterns now (patterns.decode bytes) t

-- `deadline(now, started, command_seconds, gap_seconds)`, at a time that is not before the others.
-- A `TimeoutError` is an `OSError`.
unfoldable pub deadline : ℕ → ℕ → ℕ → ℕ → Reads → Outcome Unit
deadline now started command_seconds gap_seconds r =
    if elim r.call_started [ none ↦ false | some call ↦ ltb (call + command_seconds) now ]
    then raised os_error
    else if elim r.last_completed [
      | none ↦ ltb (started + command_seconds) now
      | some last ↦ ltb (last + gap_seconds) now
    ]
    then raised os_error
    else returned tt
