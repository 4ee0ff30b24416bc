-- ===== src/Prelude/Texts.antt =====
-- Texts: their code points, decimal printing, and the patterns `[a-z0-9_]+` and `[0-9a-f]{n}`.
use Prim.Native.Nat.{ℕ, zero, suc, ◌/◌, ◌%◌}
use Prim.Native.Char.{code}
use Prim.Native.String.{String, ◌++◌}
use Prim.Native.String.append
use mathlib.Core.Path.{◌≡◌, refl, ap, ◌∙◌}
use mathlib.Core.Bool.{Bool, true, false, not, ◌&&◌, ◌||◌}
use mathlib.Core.List.{List, [], ◌∷◌, ◌++◌ as ◌++ₗ◌}
use mathlib.Core.Option.{Option, none, some}
use mathlib.Core.Logic.{inl, inr}
pub use text.Mathlib.Text.{◌==◌ as str_eq}
pub use text.Mathlib.TextEquality.{eq_iff}
use homelab_server_configs.Prelude.Tests.{Bool-cases, leb, ltb, ◌==◌, if◌then◌else◌}
use homelab_server_configs.Prelude.Lists.{all, any, all-append, length, is_empty}

abbrev pub codes : String → List ℕ
codes String.[] = []
codes (String.◌∷◌ c s) = code c ∷ codes s

abbrev pub text_append : String → String → String
text_append s t = s ++ t

-- What follows a prefix, if the text starts with it.
abbrev pub starts_with_codes : List ℕ → List ℕ → Option (List ℕ)
starts_with_codes [] s = some s
starts_with_codes (c ∷ p) [] = none
starts_with_codes (c ∷ p) (d ∷ s) = if c == d then starts_with_codes p s else none

-- Python's `x in (…)` on texts.
abbrev pub one_of : List String → String → Bool
one_of xs s = any (str_eq s) xs

-- Python's `a <= b` on sets of texts.
abbrev pub subset : List String → List String → Bool
subset xs ys = all (one_of ys) xs

digit_text : ℕ → String
digit_text d =
    if d == 0
    then "0"
    else if d == 1
    then "1"
    else if d == 2
    then "2"
    else if d == 3
    then "3"
    else if d == 4
    then "4"
    else if d == 5
    then "5"
    else if d == 6
    then "6"
    else if d == 7
    then "7"
    else if d == 8
    then "8"
    else "9"

-- The last `fuel` digits; every number has fewer digits than its value plus one.
decimal_digits : ℕ → ℕ → String
decimal_digits zero n = ""
decimal_digits (suc fuel) n =
    let rest = decimal_digits fuel (n / 10) in
    if ltb n 10 then digit_text n else rest ++ digit_text (n % 10)

-- Python's `str(n)` of a natural number.
unfoldable pub decimal : ℕ → String
unfolding decimal_digits digit_text
decimal n = decimal_digits (suc n) n

-- `[a-z0-9_]`
abbrev is_name_char : ℕ → Bool
is_name_char c = (leb b'a' c && leb c b'z') || (leb b'0' c && leb c b'9') || (c == b'_')

-- `[0-9a-f]`
abbrev is_hex_char : ℕ → Bool
is_hex_char c = (leb b'0' c && leb c b'9') || (leb b'a' c && leb c b'f')

-- `re.fullmatch(r"[a-z0-9_]+", s)`
unfoldable pub is_name : String → Bool
is_name s = not (is_empty (codes s)) && all is_name_char (codes s)

-- `re.fullmatch(r"[0-9a-f]{n}", s)`
unfoldable pub is_hex : ℕ → String → Bool
is_hex n s = (length (codes s) == n) && all is_hex_char (codes s)

codes-append : (s t : String) → codes (s ++ t) ≡ codes s ++ₗ codes t
codes-append String.[] t = ap codes (append.nil t)
codes-append (String.◌∷◌ c s) t =
    ap codes (append.cons c s t) ∙ ap (λ r. code c ∷ r) (codes-append s t)

abbrev all_name_chars : String → Bool
all_name_chars s = all is_name_char (codes s)

all_name_chars-append :
    (s t : String)
    → all_name_chars s ≡ true
    → all_name_chars t ≡ true
    → all_name_chars (s ++ t) ≡ true
all_name_chars-append s t h k =
    rw (codes-append s t) (rw (all-append is_name_char (codes s) (codes t)) (rw (h, k)))

all_name_chars-if :
    (b : Bool) (s t : String)
    → all_name_chars s ≡ true
    → all_name_chars t ≡ true
    → all_name_chars (if b then s else t) ≡ true
all_name_chars-if true s t h k = h
all_name_chars-if false s t h k = k

all_name_chars-digit_text : (d : ℕ) → all_name_chars (digit_text d) ≡ true
unfolding digit_text
all_name_chars-digit_text d = all_name_chars-if (d == 0) _ _ refl (
    all_name_chars-if (d == 1) _ _ refl (
      all_name_chars-if (d == 2) _ _ refl (
        all_name_chars-if (d == 3) _ _ refl (
          all_name_chars-if (d == 4) _ _ refl (
            all_name_chars-if (d == 5) _ _ refl (
              all_name_chars-if (d == 6) _ _ refl (
                all_name_chars-if (d == 7) _ _ refl
                  (all_name_chars-if (d == 8) _ _ refl refl))))))))

all_name_chars-decimal_digits : (f n : ℕ) → all_name_chars (decimal_digits f n) ≡ true
unfolding decimal_digits
all_name_chars-decimal_digits zero n = refl
all_name_chars-decimal_digits (suc f) n = elim (Bool-cases (ltb n 10)) [
  | inl small ↦ rw small (all_name_chars-digit_text n)
  | inr large ↦ rw large (
      all_name_chars-append (decimal_digits f (n / 10)) (digit_text (n % 10))
        (all_name_chars-decimal_digits f (n / 10)) (all_name_chars-digit_text (n % 10)))
]

all_name_chars-decimal : (n : ℕ) → all_name_chars (decimal n) ≡ true
unfolding decimal
all_name_chars-decimal n = all_name_chars-decimal_digits (suc n) n

-- A printed number between name characters is a name, if it begins with one.
pub is_name-decimal_between :
    (s : String) (n : ℕ) (t : String)
    → is_name s ≡ true
    → all is_name_char (codes t) ≡ true
    → is_name (s ++ (decimal n ++ t)) ≡ true
unfolding is_name
is_name-decimal_between String.[] n t h k = cc
is_name-decimal_between (String.◌∷◌ c s) n t h k = rw (append.cons c s (decimal n ++ t)) (
    rw (append.cons c s (decimal n ++ t)) at (
      all_name_chars-append (String.◌∷◌ c s) (decimal n ++ t) h
        (all_name_chars-append (decimal n) t (all_name_chars-decimal n) k)))
