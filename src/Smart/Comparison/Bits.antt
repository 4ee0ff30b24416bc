-- ===== src/Smart/Comparison/Bits.antt =====
-- The names of an exit status say all of it.
use homelab_server_configs.Prelude.{
  ℕ, zero, suc, ◌+◌, ◌^◌, ◌≤◌, ◌<◌, String, Bool, true, ◌&&◌, List, [], ◌∷◌, ◌≡◌, refl, inl, inr,
  arith, ◌==◌, one_of, Bool-cases, &&-parts, if◌then◌else◌,
}
use homelab_server_configs.Smart.Comparison.{exited, flags, exit_bits}

-- The sum of the powers of two whose flags are among the names.
abbrev pub weight : List String → ℕ → List String → ℕ
weight names bit [] = 0
weight names bit (flag ∷ rest) =
    (if one_of names flag then 2 ^ bit else 0) + weight names (suc bit) rest

-- `p` on each number below `n`.
abbrev all_below : ℕ → (ℕ → Bool) → Bool
all_below zero p = true
all_below (suc n) p = p n && all_below n p

all_below_sound : (n : ℕ) (p : ℕ → Bool) → all_below n p ≡ true → (k : ℕ) → k < n → p k ≡ true
all_below_sound zero p h k few = absurd (omega (arith, few))
all_below_sound (suc n) p h k few =
    let (top, rest) = &&-parts (p n) (all_below n p) h in
    elim (Bool-cases (k == n)) [
      | inl e ↦ let same : k ≡ n = ground (arith, e) in rw same top
      | inr e ↦ all_below_sound n p rest k (ground (arith, e, few))
    ]

==-sound : (a b : ℕ) → (a == b) ≡ true → a ≡ b
==-sound a b h = ground arith

read_back : ℕ → Bool
unfolding exit_bits
read_back code = weight (exit_bits (exited code)) 0 flags == code

table : all_below 256 read_back ≡ true
unfolding read_back exit_bits
table = refl

-- The names of an exit status from 0 to 255 give it back, as the sum of the powers of two of
-- their places among the flags.
pub exit_bits-weight : (code : ℕ) → code ≤ 255 → weight (exit_bits (exited code)) 0 flags ≡ code
unfolding read_back
exit_bits-weight code h =
    ==-sound (weight (exit_bits (exited code)) 0 flags) code
      (all_below_sound 256 read_back table code (omega (arith, h)))
