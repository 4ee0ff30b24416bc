-- ===== src/S3Probe/Transport/Encoding.antt =====
-- `urllib.parse.quote` as the probe calls it, on code points.
use homelab_server_configs.Prelude.{
  ℕ, ◌+◌, ◌-◌, ◌/◌, ◌%◌, Bool, true, false, ◌&&◌, ◌||◌, List, [], ◌∷◌, ◌++◌, ◌==◌, leb, ltb,
  if◌then◌else◌,
}

-- `str.encode()`
abbrev encode_code : ℕ → List ℕ
encode_code c =
    if ltb c 0x80
    then c ∷ []
    else if ltb c 0x800
    then (0xc0 + c / 0x40) ∷ (0x80 + c % 0x40) ∷ []
    else if ltb c 0x10000
    then (0xe0 + c / 0x1000) ∷ (0x80 + c / 0x40 % 0x40) ∷ (0x80 + c % 0x40) ∷ []
    else (0xf0 + c / 0x40000)
      ∷ (0x80 + c / 0x1000 % 0x40)
      ∷ (0x80 + c / 0x40 % 0x40)
      ∷ (0x80 + c % 0x40)
      ∷ []

pub utf8 : List ℕ → List ℕ
utf8 [] = []
utf8 (c ∷ rest) = encode_code c ++ utf8 rest

-- Letters, digits and `-_.~`
abbrev pub is_unreserved : ℕ → Bool
is_unreserved c =
    (leb b'A' c && leb c b'Z')
    || (leb b'a' c && leb c b'z')
    || (leb b'0' c && leb c b'9')
    || (c == b'-')
    || (c == b'_')
    || (c == b'.')
    || (c == b'~')

abbrev hex_digit : ℕ → ℕ
hex_digit d = if ltb d 10 then b'0' + d else b'A' + (d - 10)

abbrev quote_byte : Bool → ℕ → List ℕ
quote_byte slash b =
    if is_unreserved b || (slash && (b == b'/'))
    then b ∷ []
    else b'%' ∷ hex_digit (b / 16) ∷ hex_digit (b % 16) ∷ []

pub quote_bytes : Bool → List ℕ → List ℕ
quote_bytes slash [] = []
quote_bytes slash (b ∷ rest) = quote_byte slash b ++ quote_bytes slash rest

-- `quote(text, safe='-_.~')`
unfoldable pub quote : List ℕ → List ℕ
unfolding quote_bytes utf8
quote text = quote_bytes false (utf8 text)

-- `quote(path, safe="/-_.~")`
unfoldable pub quote_path : List ℕ → List ℕ
unfolding quote_bytes utf8
quote_path text = quote_bytes true (utf8 text)
