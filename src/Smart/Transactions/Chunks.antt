-- ===== src/Smart/Transactions/Chunks.antt =====
-- The output may arrive in pieces of any size.
use homelab_server_configs.Prelude.{ℕ, ◌≤◌, false, List, [], ◌∷◌, ◌++◌, ◌≡◌, ◌==◌, length}
use homelab_server_configs.Smart.Transactions.{Text}

-- More lines before those of a split.
abbrev after : List Text → List Text × Text → List Text × Text
after lines s = (lines ++ s.0, s.1)

-- No line ends in a text.
abbrev Unbroken : Text → Type 0
Unbroken [] = Unit
Unbroken (c ∷ text) = ((c == 10) ≡ false) × Unbroken text

-- The first line, or what was left, is as long as the unbroken text that it begins with.
abbrev Long : ℕ → List Text × Text → Type 0
Long n ([], rest) = n ≤ length rest
Long n (line ∷ lines, rest) = n ≤ length line
