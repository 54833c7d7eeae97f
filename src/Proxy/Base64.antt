-- ===== src/Proxy/Base64.antt =====
-- The Base64 encoding of the credentials: `base64_encode_triplet` and `base64_encode`, against
-- a decoder of RFC 4648.
use mathlib.Core.Path.{ap₂}
use avar.Base.{
  All, [], ap, arith, false, if◌then◌else◌, ltb, refl, ℕ, ◌%◌, ◌*◌, ◌++◌, ◌+◌, ◌-◌, ◌/◌, ◌<◌, ◌==◌,
  ◌∙◌, ◌∷◌, ◌≡◌,
}
use avar.CString.{Text}

-- `table[i]` for `i` below 64.
unfoldable pub table : ℕ → ℕ
table i =
    if ltb i 26
    then b'A' + i
    else if ltb i 52
    then b'a' + (i - 26)
    else if ltb i 62
    then b'0' + (i - 52)
    else if i == 62
    then b'+'
    else b'/'

-- The bits of three bytes in four characters; `len` of the bytes are there. Shifts and masks are
-- divisions and remainders.
unfoldable pub base64_encode_triplet : ℕ → ℕ → ℕ → ℕ → Text
unfolding table
base64_encode_triplet a b c len =
    table (a / 4 % 64)
    ∷ table (a % 4 * 16 + b / 16 % 16)
    ∷ (if ltb 1 len then table (b % 16 * 4 + c / 64 % 4) else b'=')
    ∷ (if ltb 2 len then table (c % 64) else b'=')
    ∷ []

unfoldable pub base64_encode : Text → Text
unfolding base64_encode_triplet
base64_encode [] = []
base64_encode (a ∷ []) = base64_encode_triplet a 0 0 1
base64_encode (a ∷ b ∷ []) = base64_encode_triplet a b 0 2
base64_encode (a ∷ b ∷ c ∷ rest) = base64_encode_triplet a b c 3 ++ base64_encode rest

-- The value of a character of the alphabet.
abbrev pub sextet : ℕ → ℕ
sextet c =
    if c == b'+'
    then 62
    else if c == b'/'
    then 63
    else if ltb c b'A'
    then c - b'0' + 52
    else if ltb c b'a'
    then c - b'A'
    else c - b'a' + 26

-- Four characters give three bytes, less those that padding stands for.
unfoldable pub decode : Text → Text
decode (w ∷ x ∷ y ∷ z ∷ rest) =
    let first = sextet w * 4 + sextet x / 16 in
    let second = sextet x % 16 * 16 + sextet y / 4 in
    let third = sextet y % 4 * 64 + sextet z in
    let more = decode rest in
    if y == b'='
    then first ∷ []
    else if z == b'='
    then first ∷ second ∷ []
    else first ∷ second ∷ third ∷ more
decode _ = []

sextet-table : (i : ℕ) → i < 64 → sextet (table i) ≡ i
unfolding table
sextet-table i l = ground arith

table-padding : (i : ℕ) → i < 64 → (table i == b'=') ≡ false
unfolding table
table-padding i l = ground arith

abbrev pub Bytes : Text → Type 0
Bytes text = All (λ c. c < 256) text

first_sextet : (a : ℕ) → a < 256 → a / 4 % 64 < 64
first_sextet a l = omega arith

second_sextet : (a b : ℕ) → a % 4 * 16 + b / 16 % 16 < 64
second_sextet a b = grind arith

third_sextet : (b c : ℕ) → b % 16 * 4 + c / 64 % 4 < 64
third_sextet b c = grind arith

first_byte : (a b : ℕ) → a < 256 → a / 4 % 64 * 4 + (a % 4 * 16 + b / 16 % 16) / 16 ≡ a
first_byte a b l = grind arith

second_byte :
    (a b c : ℕ) → b < 256 → (a % 4 * 16 + b / 16 % 16) % 16 * 16 + (b % 16 * 4 + c / 64 % 4) / 4 ≡ b
second_byte a b c l = grind arith

third_byte : (b c : ℕ) → c < 256 → (b % 16 * 4 + c / 64 % 4) % 4 * 64 + c % 64 ≡ c
third_byte b c l = grind arith

decode_three :
    (i j k l : ℕ) (rest : Text)
    → i < 64
    → j < 64
    → k < 64
    → l < 64
    → decode (table i ∷ table j ∷ table k ∷ table l ∷ rest)
      ≡ (i * 4 + j / 16) ∷ (j % 16 * 16 + k / 4) ∷ (k % 4 * 64 + l) ∷ decode rest
unfolding decode
decode_three i j k l rest hi hj hk hl = rw (
  table-padding k hk,
  table-padding l hl,
  sextet-table i hi,
  sextet-table j hj,
  sextet-table k hk,
  sextet-table l hl,
)

decode_two :
    (i j k : ℕ)
    → i < 64
    → j < 64
    → k < 64
    → decode (table i ∷ table j ∷ table k ∷ b'=' ∷ [])
      ≡ (i * 4 + j / 16) ∷ (j % 16 * 16 + k / 4) ∷ []
unfolding decode
decode_two i j k hi hj hk =
    rw (table-padding k hk, sextet-table i hi, sextet-table j hj, sextet-table k hk)

decode_one :
    (i j : ℕ)
    → i < 64
    → j < 64
    → decode (table i ∷ table j ∷ b'=' ∷ b'=' ∷ []) ≡ (i * 4 + j / 16) ∷ []
unfolding decode
decode_one i j hi hj = rw (sextet-table i hi, sextet-table j hj)

-- A decoder of Base64 (RFC 4648) reads back every list of bytes from what base64_encode writes
-- for it.
pub decode-base64_encode : (text : Text) → Bytes text → decode (base64_encode text) ≡ text
unfolding base64_encode decode
decode-base64_encode [] h = refl
decode-base64_encode (a ∷ []) h =
    decode_one (a / 4 % 64) (a % 4 * 16 + 0 / 16 % 16) (first_sextet a h.0) (second_sextet a 0)
    ∙ ap (λ x. x ∷ []) (first_byte a 0 h.0)
decode-base64_encode (a ∷ b ∷ []) h =
    decode_two (a / 4 % 64) (a % 4 * 16 + b / 16 % 16) (b % 16 * 4 + 0 / 64 % 4)
      (first_sextet a h.0) (second_sextet a b) (third_sextet b 0)
    ∙ ap₂ (λ x y. x ∷ y ∷ []) (first_byte a b h.0) (second_byte a b 0 h.1.0)
decode-base64_encode (a ∷ b ∷ c ∷ rest) h =
    decode_three (a / 4 % 64) (a % 4 * 16 + b / 16 % 16) (b % 16 * 4 + c / 64 % 4) (c % 64)
      (base64_encode rest) (first_sextet a h.0) (second_sextet a b) (third_sextet b c) (omega arith)
    ∙ ap₂ (λ x y. x ∷ y) (first_byte a b h.0)
        (ap₂ (λ x y. x ∷ y) (second_byte a b c h.1.0)
          (ap₂ (λ x y. x ∷ y) (third_byte b c h.1.1.0) (decode-base64_encode rest h.1.1.1)))
