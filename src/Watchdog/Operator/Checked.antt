-- ===== src/Watchdog/Operator/Checked.antt =====
-- What the checks of the operator's record and of the worker's line say when they return.
use homelab_server_configs.Prelude.{
  ℕ, Bool-cases, leb, ◌+◌, ◌≤◌, String, true, Option, none, some, ◌≡◌, refl, sym, ap, ◌∙◌, inl, inr,
  arith, is_hex, if◌then◌else◌,
}
use homelab_server_configs.Prelude.Exec.{Error, returned, raised, and_then-returned}
use homelab_server_configs.Prelude.Json.{Json, boolean, string, object, Fields, find, equals_text}
use homelab_server_configs.Watchdog.Operator.{
  is_true, nonce_of, number_of, Number, negative, millis, all_true, is_fresh, operator_steps,
  validate_operator, ready_nonce, health_offset,
}

-- The worker's line says that it is ready, with this nonce.
abbrev pub IsReady : Option Json → String → Type 0
IsReady ready nonce =
    (fs : Fields) × (ready ≡ some (object fs))
    × (find "ready" fs ≡ some (boolean true))
    × (find "nonce" fs ≡ some (string nonce))
    × (is_hex 64 nonce ≡ true)

-- The operator's record is for this bundle, not older than five minutes, and complete.
abbrev pub IsAttested : (Json → Option Number) → String → Json → ℕ → Type 0
IsAttested number digest operator clock =
    (fs : Fields) × (operator ≡ object fs)
    × (equals_text digest (find "bundle_sha256" fs) ≡ true)
    × ((j : Json) × (epoch : ℕ) × (find "epoch" fs ≡ some j)
        × (number j ≡ some (millis epoch))
        × (epoch ≤ clock)
        × (clock ≤ epoch + 300000))
    × (all_true fs ≡ true)

ready_parts :
    (r n : Option Json) (nonce : String)
    → (if is_true r then nonce_of n else raised (Error.value_error "worker readiness"))
      ≡ returned nonce
    → (r ≡ some (boolean true)) × (n ≡ some (string nonce)) × (is_hex 64 nonce ≡ true)
ready_parts (some (boolean true)) (some (string s)) nonce h = elim (Bool-cases (is_hex 64 s)) [
  | inl e ↦
      let same : s ≡ nonce = ground arith in
      (refl, ap (λ x. some (string x)) same, ap (is_hex 64) (sym same) ∙ e)
  | inr e ↦ absurd (ground arith)
]
ready_parts (some (boolean true)) _ nonce h = absurd cc
ready_parts _ n nonce h = absurd cc

-- The worker's line says when its health check began, after the launch.
abbrev pub HasOffset : (Json → Option Number) → Option Json → ℕ → Type 0
HasOffset number ready offset =
    (fs : Fields) × (ready ≡ some (object fs))
    × ((j : Json) × (find "health_started_offset" fs ≡ some j)
        × (number j ≡ some (millis offset))
        × (offset ≤ 90000))

number-offset :
    (n : Option Number) (offset : ℕ)
    → (elim n [
      | some (millis n) ↦
          if leb n 90000 then returned n else raised (Error.value_error "health offset")
      | some negative ↦ raised (Error.value_error "health offset")
      | none ↦ raised (Error.value_error "health offset")
    ])
      ≡ returned offset
    → (n ≡ some (millis offset)) × (offset ≤ 90000)
number-offset (some (millis n)) offset h = elim (Bool-cases (leb n 90000)) [
  | inl e ↦ let same : n ≡ offset = ground arith in (ap (λ n. some (millis n)) same, ground arith)
  | inr e ↦ absurd (ground arith)
]
number-offset (some negative) offset h = absurd cc
number-offset none offset h = absurd cc

pub health_offset-returned :
    (number : Json → Option Number) (o : Option Json) (offset : ℕ)
    → health_offset number o ≡ returned offset
    → HasOffset number o offset
unfolding health_offset
health_offset-returned number (some (object fs)) offset h =
    (fs, refl, found (find "health_started_offset" fs) h)
  where
    found :
        (o : Option Json)
        → (elim o [
          | none ↦ raised Error.other_error
          | some j ↦ elim (number j) [
            | some (millis n) ↦
                if leb n 90000 then returned n else raised (Error.value_error "health offset")
            | some negative ↦ raised (Error.value_error "health offset")
            | none ↦ raised (Error.value_error "health offset")
          ]
        ])
          ≡ returned offset
        → (j : Json) × (o ≡ some j) × (number j ≡ some (millis offset)) × (offset ≤ 90000)
    found none h = absurd cc
    found (some j) h = let (is, small) = number-offset (number j) offset h in (j, refl, is, small)
health_offset-returned number _ offset h = absurd cc

pub ready_nonce-returned :
    (o : Option Json) (nonce : String) → ready_nonce o ≡ returned nonce → IsReady o nonce
unfolding ready_nonce
ready_nonce-returned (some (object fs)) nonce h =
    let (r, n, hex) = ready_parts (find "ready" fs) (find "nonce" fs) nonce h in
    (fs, refl, r, n, hex)
ready_nonce-returned _ nonce h = absurd cc

number_of-returned :
    (number : Json → Option Number) (o : Option Json) (n : Number)
    → number_of number o ≡ returned n
    → (j : Json) × (o ≡ some j) × (number j ≡ some n)
number_of-returned number none n h = absurd cc
number_of-returned number (some j) n h = (j, refl, ground arith)

is_fresh-bounds :
    (clock : ℕ) (n : Number)
    → is_fresh clock n ≡ true
    → (epoch : ℕ) × (n ≡ millis epoch) × (epoch ≤ clock) × (clock ≤ epoch + 300000)
is_fresh-bounds clock negative h = absurd cc
is_fresh-bounds clock (millis epoch) h = (epoch, refl, ground arith, ground arith)

operator_steps-returned :
    (number : Json → Option Number) (fs : Fields) (clock : ℕ) (n : Number)
    → operator_steps number fs clock n ≡ returned tt
    → (is_fresh clock n ≡ true) × (all_true fs ≡ true)
unfolding operator_steps
operator_steps-returned number fs clock n h = elim (Bool-cases (is_fresh clock n)) [
  | inl fresh ↦ elim (Bool-cases (all_true fs)) [
    | inl complete ↦ (fresh, complete)
    | inr e ↦ absurd (let h' = rw (fresh, e) at h in cc)
  ]
  | inr e ↦ absurd (let h' = rw e at h in cc)
]

pub validate_operator-returned :
    (number : Json → Option Number) (operator : Json) (digest : String) (clock : ℕ)
    → validate_operator number operator digest clock ≡ returned tt
    → IsAttested number digest operator clock
unfolding validate_operator
validate_operator-returned number (object fs) digest clock h =
    elim (Bool-cases (equals_text digest (find "bundle_sha256" fs))) [
      | inl bound ↦
          let h' = rw bound at h in
          let (n, read, steps) = and_then-returned _ (operator_steps number fs clock) tt h' in
          let (j, found, read') = number_of-returned number (find "epoch" fs) n read in
          let (fresh, complete) = operator_steps-returned number fs clock n steps in
          let (epoch, e, low, high) = is_fresh-bounds clock n fresh in
          (fs, refl, bound, (j, epoch, found, read' ∙ ap some e, low, high), complete)
      | inr e ↦ absurd (let h' = rw e at h in cc)
    ]
validate_operator-returned number _ digest clock h = absurd cc
