-- ===== src/CString.antt =====
-- C strings and the functions of the C library that the sources call on them. A string is the list
-- of its bytes before the terminating 0; a byte is a number below 256.
pub mod Search
use Prim.Native.Char.{code}
use Prim.Native.String.{String}
use mathlib.Core.Option
use avar.Base.{
  Bool, List, Option, [], arith, false, if◌then◌else◌, leb, ltb, none, refl, some, sub64, suc, take,
  true, uint64_max, zero, ℕ, ◌%◌, ◌&&◌, ◌*◌, ◌+◌, ◌-◌, ◌/◌, ◌==◌, ◌^◌, ◌||◌, ◌∷◌, ◌≡◌,
}

abbrev pub Text : Type 0
Text = List ℕ

-- The bytes of a literal, which is ASCII.
abbrev pub lit : String → Text
lit String.[] = []
lit (String.◌∷◌ c s) = code c ∷ lit s

-- `strcmp(a, b) == 0`
abbrev pub str_eq : Text → Text → Bool
str_eq [] [] = true
str_eq (x ∷ xs) (y ∷ ys) = x == y && str_eq xs ys
str_eq _ _ = false

-- `strncmp(text, prefix, strlen(prefix)) == 0`
abbrev pub has_prefix : Text → Text → Bool
has_prefix text [] = true
has_prefix [] (y ∷ ys) = false
has_prefix (x ∷ xs) (y ∷ ys) = x == y && has_prefix xs ys

-- `strchr(text, c)` as an offset.
unfoldable pub str_chr : Text → ℕ → Option ℕ
str_chr [] c = none
str_chr (x ∷ xs) c = if x == c then some 0 else Option.map suc (str_chr xs c)

-- `strrchr(text, c)` as an offset.
unfoldable pub str_rchr : Text → ℕ → Option ℕ
str_rchr [] c = none
str_rchr (x ∷ xs) c = elim (str_rchr xs c) [
  | some i ↦ some (suc i)
  | none ↦ if x == c then some 0 else none
]

-- `strstr(text, part)` as an offset.
unfoldable pub str_str : Text → Text → Option ℕ
str_str [] part = if has_prefix [] part then some 0 else none
str_str (x ∷ xs) part =
    if has_prefix (x ∷ xs) part then some 0 else Option.map suc (str_str xs part)

abbrev pub is_some {ℓ} : {A : Type ℓ} → Option A → Bool
is_some none = false
is_some (some a) = true

-- `tolower`, `isspace`, `isdigit` and `isalnum` of the C locale.
unfoldable pub to_lower : ℕ → ℕ
to_lower c = if leb b'A' c && leb c b'Z' then c + 32 else c

unfoldable pub is_space : ℕ → Bool
is_space c = c == 32 || (leb 9 c && leb c 13)

abbrev pub is_digit : ℕ → Bool
is_digit c = leb b'0' c && leb c b'9'

unfoldable pub is_alnum : ℕ → Bool
is_alnum c = is_digit c || (leb b'a' c && leb c b'z') || (leb b'A' c && leb c b'Z')

-- `strcasecmp(a, b) == 0`
unfoldable pub str_case_eq : Text → Text → Bool
str_case_eq [] [] = true
str_case_eq (x ∷ xs) (y ∷ ys) = to_lower x == to_lower y && str_case_eq xs ys
str_case_eq _ _ = false

-- The characters in front for which the test holds are dropped.
unfoldable pub drop_while : (ℕ → Bool) → Text → Text
drop_while p [] = []
drop_while p (x ∷ xs) = if p x then drop_while p xs else x ∷ xs

-- ... and those at the end.
unfoldable pub drop_end : (ℕ → Bool) → Text → Text
drop_end p [] = []
drop_end p (x ∷ xs) = elim (drop_end p xs) [ [] ↦ if p x then [] else x ∷ [] | y ∷ ys ↦ x ∷ y ∷ ys ]

-- `strncpy(buffer, text, capacity - 1)` with the terminator written behind it.
abbrev pub copy_truncated : ℕ → Text → Text
copy_truncated capacity text = take (capacity - 1) text

-- `snprintf(buffer, size, "%u", n)`: decimal digits, on fuel for the number of digits.
unfoldable pub digits_onto : ℕ → ℕ → Text → Text
digits_onto zero n out = out
digits_onto (suc fuel) n out =
    let rest = digits_onto fuel (n / 10) ((b'0' + n % 10) ∷ out) in
    if ltb n 10 then (b'0' + n) ∷ out else rest

unfoldable pub decimal : ℕ → Text
unfolding digits_onto
decimal n = digits_onto 20 n []

-- The digits in front of a text, and what follows them.
unfoldable pub digits_value : ℕ → Text → ℕ × Text
digits_value value [] = (value, [])
digits_value value (c ∷ cs) =
    if is_digit c then digits_value (value * 10 + (c - b'0')) cs else (value, c ∷ cs)

-- The digits behind the white space and the sign that `strtoul` reads; `none` where it converts
-- nothing. The value is an `unsigned long` of 64 bits: too large a number is ULONG_MAX, and a minus
-- sign negates in that type.
unfoldable pub unsigned_digits : Bool → Text → Option (ℕ × Text)
unsigned_digits negative [] = none
unsigned_digits negative (c ∷ cs) =
    let (value, rest) = digits_value 0 (c ∷ cs) in
    if is_digit c
    then some
        (if leb (2 ^ 64) value then uint64_max else if negative then sub64 0 value else value, rest)
    else none

unfoldable pub signed_digits : Text → Option (ℕ × Text)
unfolding unsigned_digits
signed_digits [] = none
signed_digits (c ∷ cs) =
    if c == b'-'
    then unsigned_digits true cs
    else if c == b'+'
    then unsigned_digits false cs
    else unsigned_digits false (c ∷ cs)

-- `strtoul(text, &end, 10)`: the value and the text at `end`; `none` where `end == text`, with value 0.
unfoldable pub str_to_ul : Text → Option (ℕ × Text)
unfolding signed_digits drop_while is_space
str_to_ul text = signed_digits (drop_while is_space text)

pub str_eq_refl : (t : Text) → str_eq t t ≡ true
str_eq_refl [] = refl
str_eq_refl (x ∷ xs) = ground (arith, str_eq_refl xs)

pub str_eq→eq : (s t : Text) → str_eq s t ≡ true → s ≡ t
str_eq→eq [] [] h = refl
str_eq→eq (x ∷ xs) (y ∷ ys) h = ground (arith, h, str_eq→eq xs ys)
str_eq→eq [] (y ∷ ys) h = ground (arith, h)
str_eq→eq (x ∷ xs) [] h = ground (arith, h)
