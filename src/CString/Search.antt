-- ===== src/CString/Search.antt =====
-- What `strchr` and `strstr` find.
use avar.Base.{
  Bool, Bool-cases, [], arith, inl, inr, length, none, not, refl, some, suc, true, ℕ, ◌&&◌, ◌++◌,
  ◌==◌, ◌∷◌, ◌≡◌, ◌≤◌,
}
use avar.CString.{Text, str_chr, str_str, has_prefix, is_some, str_rchr}

-- No character of the text is `c`.
abbrev pub free_of : ℕ → Text → Bool
free_of c [] = true
free_of c (x ∷ xs) = not (x == c) && free_of c xs

pub str_chr-append :
    (xs ys : Text) (c : ℕ) → free_of c xs ≡ true → str_chr (xs ++ (c ∷ ys)) c ≡ some (length xs)
unfolding str_chr
str_chr-append [] ys c free = ground arith
str_chr-append (x ∷ xs) ys c free = ground (arith, str_chr-append xs ys c (ground arith))

pub str_chr-free_of : (xs : Text) (c : ℕ) → free_of c xs ≡ true → str_chr xs c ≡ none
unfolding str_chr
str_chr-free_of [] c free = refl
str_chr-free_of (x ∷ xs) c free = ground (arith, str_chr-free_of xs c (ground arith))

pub free_of-append : (xs ys : Text) (c : ℕ) → free_of c (xs ++ ys) ≡ (free_of c xs && free_of c ys)
free_of-append [] ys c = refl
free_of-append (x ∷ xs) ys c = ground (arith, free_of-append xs ys c)

pub has_prefix-append : (part rest : Text) → has_prefix (part ++ rest) part ≡ true
has_prefix-append [] [] = refl
has_prefix-append [] (y ∷ rest) = refl
has_prefix-append (x ∷ part) rest = ground (arith, has_prefix-append part rest)

-- The first place of a part whose first character does not occur before it.
pub str_str-append :
    (xs rest part : Text) (c : ℕ)
    → free_of c xs ≡ true
    → str_str (xs ++ ((c ∷ part) ++ rest)) (c ∷ part) ≡ some (length xs)
unfolding str_str
str_str-append [] rest part c free = ground (arith, has_prefix-append part rest)
str_str-append (x ∷ xs) rest part c free =
    ground (arith, str_str-append xs rest part c (ground arith))

pub str_str-is_some : (xs rest part : Text) → is_some (str_str (xs ++ (part ++ rest)) part) ≡ true
unfolding str_str
str_str-is_some [] [] [] = refl
str_str-is_some [] (y ∷ rest) [] = refl
str_str-is_some [] rest (p ∷ part) = ground (arith, has_prefix-append part rest)
str_str-is_some (x ∷ xs) rest part = ground (arith, str_str-is_some xs rest part)

pub str_rchr-free_of : (xs : Text) (c : ℕ) → free_of c xs ≡ true → str_rchr xs c ≡ none
unfolding str_rchr
str_rchr-free_of [] c free = refl
str_rchr-free_of (x ∷ xs) c free = ground (arith, str_rchr-free_of xs c (ground arith))

pub str_rchr-append :
    (xs ys : Text) (c : ℕ) → free_of c ys ≡ true → str_rchr (xs ++ (c ∷ ys)) c ≡ some (length xs)
unfolding str_rchr
str_rchr-append [] ys c free = ground (arith, str_rchr-free_of ys c free)
str_rchr-append (x ∷ xs) ys c free = ground (arith, str_rchr-append xs ys c free)

pub str_chr_within :
    (xs ys : Text) (c : ℕ) → (i : ℕ) × (str_chr (xs ++ (c ∷ ys)) c ≡ some i) × (i ≤ length xs)
unfolding str_chr
str_chr_within [] ys c = (0, ground arith, omega arith)
str_chr_within (x ∷ xs) ys c = elim (Bool-cases (x == c)) [
  | inl e ↦ (0, ground (arith, e), omega arith)
  | inr e ↦
      let (i, found, l) = str_chr_within xs ys c in
      (suc i, ground (arith, e, found), omega (arith, l))
]
