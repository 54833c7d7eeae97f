-- ===== src/Hls/Segments.antt =====
-- src/stream_hls.c: the decryption of segments and what is written of them.
use mathlib.Core.Option
use mathlib.Core.Option.{get_or}
use avar.Base.{
  List, Option, [], ap, arith, false, if◌then◌else◌, leb, length, length-append, ltb, none, not,
  refl, some, suc, take, take-length, zero, ℕ, ◌%◌, ◌&&◌, ◌++◌, ◌-◌, ◌<◌, ◌==◌, ◌||◌, ◌∙◌, ◌∷◌, ◌≡◌,
  ◌≤◌,
}
use avar.CString.{Text}
use avar.Hls.{HlsSegment}

abbrev pub last_of : ℕ → List ℕ → ℕ
last_of x [] = x
last_of x (y ∷ ys) = last_of y ys

-- The text without the padding that its last byte names, where it names one.
unfoldable pub strip_padding : List ℕ → List ℕ
strip_padding [] = []
strip_padding (x ∷ xs) =
    let out = x ∷ xs in
    let pad = last_of x xs in
    if ltb 0 pad && leb pad 16 && leb pad (length out) then take (length out - pad) out else out

-- `crypt key iv input` is AES-128 in CBC mode, decrypting; `none` where the library fails.
module _ (crypt : List ℕ → List ℕ → List ℕ → Option (List ℕ)) (fetch : Text → Option (List ℕ)) where
  unfoldable pub aes128_cbc_decrypt : List ℕ → List ℕ → List ℕ → Option (List ℕ)
  unfolding strip_padding
  aes128_cbc_decrypt input key iv =
      if length input == 0 || not (length input % 16 == 0)
      then none
      else Option.map strip_padding (crypt key iv input)

  unfoldable pub hls_load_key : Text → Option (List ℕ)
  hls_load_key key_uri = elim (fetch key_uri) [
    | none ↦ none
    | some body ↦ if ltb (length body) 16 then none else some (take 16 body)
  ]

  unfoldable pub decrypt_segment : HlsSegment → List ℕ → Option (List ℕ)
  unfolding aes128_cbc_decrypt hls_load_key
  decrypt_segment segment body = elim segment.key_uri [
    | none ↦ none
    | some uri ↦ elim (hls_load_key uri) [
      | none ↦ none
      | some key ↦ aes128_cbc_decrypt body key (get_or segment.iv [])
    ]
  ]

  -- What is written; `none` where the result is -1.
  unfoldable pub hls_write_segment : HlsSegment → Option (List ℕ)
  unfolding decrypt_segment
  hls_write_segment segment = elim (fetch segment.uri) [
    | none ↦ none
    | some [] ↦ none
    | some (b ∷ bs) ↦ if segment.encrypted then decrypt_segment segment (b ∷ bs) else some (b ∷ bs)
  ]

  -- The file after all segments are written; `none` where one fails.
  unfoldable pub write_segments : List HlsSegment → Option (List ℕ)
  unfolding hls_write_segment
  write_segments [] = some []
  write_segments (segment ∷ segments) =
      let rest = write_segments segments in
      elim (hls_write_segment segment) [
        | none ↦ none
        | some written ↦ Option.map (λ more. written ++ more) rest
      ]

-- The padding of PKCS #7.
abbrev pub copies : ℕ → ℕ → List ℕ
copies zero x = []
copies (suc n) x = x ∷ copies n x

abbrev pub pad : List ℕ → List ℕ
pad plain = plain ++ copies (16 - length plain % 16) (16 - length plain % 16)

length-copies : (n x : ℕ) → length (copies n x) ≡ n
length-copies zero x = refl
length-copies (suc n) x = omega (arith, length-copies n x)

last_of-copies : (y n x : ℕ) → last_of y (copies (suc n) x) ≡ x
last_of-copies y zero x = refl
last_of-copies y (suc n) x = last_of-copies x n x

last_of-append : (y : ℕ) (xs : List ℕ) (n x : ℕ) → last_of y (xs ++ copies (suc n) x) ≡ x
last_of-append y [] n x = last_of-copies y n x
last_of-append y (z ∷ xs) n x = last_of-append z xs n x

last_of_same : (n x : ℕ) → last_of x (copies n x) ≡ x
last_of_same zero x = refl
last_of_same (suc n) x = last_of_same n x

strip_named :
    (x : ℕ) (xs : List ℕ) (pad : ℕ)
    → last_of x xs ≡ pad
    → 0 < pad
    → pad ≤ 16
    → pad ≤ suc (length xs)
    → strip_padding (x ∷ xs) ≡ take (suc (length xs) - pad) (x ∷ xs)
unfolding strip_padding
strip_named x xs pad last pos small within = ground (arith, last, pos, small, within)

strip_padded :
    (plain : List ℕ) (k : ℕ) → k < 16 → strip_padding (plain ++ copies (suc k) (suc k)) ≡ plain
unfolding strip_padding
strip_padded [] k l =
    let none_left : suc (length (copies k (suc k))) - suc k ≡ 0 =
      omega (arith, length-copies k (suc k)) in
    strip_named (suc k) (copies k (suc k)) (suc k) (last_of_same k (suc k)) (omega arith)
      (omega arith) (omega (arith, length-copies k (suc k)))
    ∙ ap (λ n. take n (copies (suc k) (suc k))) none_left
strip_padded (x ∷ xs) k l =
    let padding = copies (suc k) (suc k) in
    let left : suc (length (xs ++ padding)) - suc k ≡ length (x ∷ xs) =
      omega (arith, length-append xs padding, length-copies (suc k) (suc k)) in
    strip_named x (xs ++ padding) (suc k) (last_of-append x xs k (suc k)) (omega arith)
      (omega arith) (omega (arith, length-append xs padding, length-copies (suc k) (suc k)))
    ∙ ap (λ n. take n (x ∷ (xs ++ padding))) left
    ∙ take-length (x ∷ xs) padding

strip-pad : (plain : List ℕ) → strip_padding (pad plain) ≡ plain
strip-pad plain =
    let k = 15 - length plain % 16 in
    let size : 16 - length plain % 16 ≡ suc k = omega arith in
    ap (λ n. strip_padding (plain ++ copies n n)) size ∙ strip_padded plain k (omega arith)

module _ (crypt : List ℕ → List ℕ → List ℕ → Option (List ℕ)) (fetch : Text → Option (List ℕ)) where
  -- Where the cipher gives a plain text padded by PKCS #7 for whole blocks of input, at least
  -- one, aes128_cbc_decrypt gives the plain text.
  pub aes128_cbc_decrypt-pad :
      (input key iv plain : List ℕ)
      → 0 < length input
      → length input % 16 ≡ 0
      → crypt key iv input ≡ some (pad plain)
      → aes128_cbc_decrypt crypt fetch input key iv ≡ some plain
  unfolding aes128_cbc_decrypt
  aes128_cbc_decrypt-pad input key iv plain pos whole decrypted =
      let blocks : (length input == 0 || not (length input % 16 == 0)) ≡ false =
        ground (arith, pos, whole) in
      ap (λ b. if b then none else Option.map strip_padding (crypt key iv input)) blocks
      ∙ ap (Option.map strip_padding) decrypted
      ∙ ap some (strip-pad plain)
