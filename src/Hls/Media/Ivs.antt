-- ===== src/Hls/Media/Ivs.antt =====
-- src/stream_hls.c: a given initialisation vector has 16 bytes.
use mathlib.Core.Option
use Prim.{tt}
use avar.Base.{
  Bool, List, Option, arith, drop, false, if◌then◌else◌, length, none, refl, some, suc, true, zero,
  ℕ, ◌%◌, ◌∷◌, ◌≡◌,
}
use avar.CString.{Text}
use avar.Hls.{hex_bytes, parse_hex_iv}

-- The list, where there is one, has `n` elements.
abbrev pub OfLength : ℕ → Option (List ℕ) → Type 0
OfLength n none = Unit
OfLength n (some xs) = length xs ≡ n

prepended-OfLength :
    (n byte : ℕ) (o : Option (List ℕ))
    → OfLength n o
    → OfLength (suc n) (Option.map (λ bytes. byte % 256 ∷ bytes) o)
prepended-OfLength n byte none h = tt
prepended-OfLength n byte (some bytes) h = omega (arith, h)

pub bound-OfLength :
    (o : Option Text) (f : Text → Option (List ℕ))
    → ((text : Text) → OfLength 16 (f text))
    → OfLength 16 (Option.bind o f)
unfolding Option.bind
bound-OfLength none f h = tt
bound-OfLength (some text) f h = h text

if-OfLength : (b : Bool) (o : Option (List ℕ)) → OfLength 16 o → OfLength 16 (if b then o else none)
if-OfLength true o h = h
if-OfLength false o h = tt

module _ (scan_hex : Text → Option ℕ) where
  scanned-OfLength :
      (n : ℕ) (o : Option ℕ) (rest : Option (List ℕ))
      → OfLength n rest
      → OfLength (suc n) (elim o as (λ x. Option (List ℕ)) [
        | none ↦ none
        | some byte ↦ Option.map (λ bytes. byte % 256 ∷ bytes) rest
      ])
  scanned-OfLength n none rest h = tt
  scanned-OfLength n (some byte) rest h = prepended-OfLength n byte rest h

  hex_bytes-OfLength : (n : ℕ) (text : Text) → OfLength n (hex_bytes scan_hex n text)
  unfolding hex_bytes
  hex_bytes-OfLength zero text = refl
  hex_bytes-OfLength (suc n) text =
      scanned-OfLength n (scan_hex text) _ (hex_bytes-OfLength n (drop 2 text))

  pub parse_hex_iv-OfLength : (value : Text) → OfLength 16 (parse_hex_iv scan_hex value)
  unfolding parse_hex_iv
  parse_hex_iv-OfLength value = if-OfLength _ _ (hex_bytes-OfLength 16 _)
