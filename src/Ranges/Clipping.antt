-- ===== src/Ranges/Clipping.antt =====
-- `clip_done_ranges` cuts the covered set at the end of the file, and `coalesce_done_ranges` brings
-- any array that is sorted by start into the normal form.
use mathlib.Core.Path.{ap₂}
use native.Mathlib.Decide.{dec_lt}
use mathlib.Core.Bool.{false≢true}
use avar.Base.{
  Bool, List, [], arith, false, if◌then◌else◌, leb, length, ltb, refl, suc, sym, true, zero, ℕ,
  ◌&&◌, ◌+◌, ◌<◌, ◌==◌, ◌^◌, ◌||◌, ◌∙◌, ◌∷◌, ◌≡◌, ◌≤◌,
}
use avar.Ranges.{ByteRange, clip_ranges, coalesce, coalesce_into, clip_end}
use avar.Ranges.Coverage.{covers, IsGapped, covers_head, holds}
use avar.Ranges.Extent.{EndsBelow}

-- Sorted by start, with overlaps and touching ranges allowed.
abbrev pub IsSorted : ℕ → List ByteRange → Type 0
IsSorted bound [] = Unit {0}
IsSorted bound (r ∷ rs) =
    (bound ≤ r.start) × (r.start ≤ r.end) × (r.end + 1 < 2 ^ 64) × IsSorted r.start rs

pub IsSorted-mono : (b c : ℕ) (rs : List ByteRange) → c ≤ b → IsSorted b rs → IsSorted c rs
IsSorted-mono b c [] h g = tt
IsSorted-mono b c (r ∷ rs) h g = (omega arith, g.1, g.2, g.3)

pub IsGapped-IsSorted : (b : ℕ) (rs : List ByteRange) → IsGapped b rs → IsSorted b rs
IsGapped-IsSorted b [] g = tt
IsGapped-IsSorted b (r ∷ rs) g = (
  g.0,
  g.1,
  g.2,
  IsSorted-mono (r.end + 2) r.start rs (omega arith) (IsGapped-IsSorted (r.end + 2) rs g.3),
)

abbrev extend : ByteRange → ByteRange → ByteRange
extend current next =
    if ltb current.end next.end then record current { end = next.end } else current

coalesce_into-IsGapped :
    (rest : List ByteRange) (c : ℕ) (current : ByteRange)
    → IsSorted c (current ∷ rest)
    → IsGapped c (coalesce_into current rest)
unfolding coalesce_into
coalesce_into-IsGapped [] c current s = (s.0, s.1, s.2, tt)
coalesce_into-IsGapped (next ∷ rest) c current s = ground (
  arith,
  IsSorted-mono next.start current.start rest,
  coalesce_into-IsGapped rest c (extend current next),
  IsSorted-mono next.start (current.end + 2) (next ∷ rest),
  coalesce_into-IsGapped rest (current.end + 2) next,
)

coalesce_into-covers :
    (rest : List ByteRange) (c : ℕ) (current : ByteRange) (x : ℕ)
    → IsSorted c (current ∷ rest)
    → covers (coalesce_into current rest) x ≡ covers (current ∷ rest) x
unfolding coalesce_into covers
coalesce_into-covers [] c current x s = refl
coalesce_into-covers (next ∷ rest) c current x s = ground (
  arith,
  IsSorted-mono next.start current.start rest,
  coalesce_into-covers rest c (extend current next) x,
  coalesce_into-covers rest current.start next x,
)

-- Coalescing an array that is sorted by start gives the normal form of the same set.
pub coalesce-normal :
    (rs : List ByteRange) (b : ℕ)
    → IsSorted b rs
    → IsGapped b (coalesce rs) × ((x : ℕ) → covers (coalesce rs) x ≡ covers rs x)
unfolding coalesce
coalesce-normal [] b s = (tt, λ x. refl)
coalesce-normal (r ∷ rs) b s =
    (coalesce_into-IsGapped rs b r s, λ x. coalesce_into-covers rs b r x s)

pub clip_ranges-IsSorted :
    (total_size b : ℕ) (rs : List ByteRange)
    → IsSorted b rs
    → IsSorted b (clip_ranges total_size rs)
unfolding clip_ranges
clip_ranges-IsSorted n b [] s = tt
clip_ranges-IsSorted n b (r ∷ rs) s =
    ground
      (arith, clip_ranges-IsSorted n r.start rs s.3, IsSorted-mono r.start b (clip_ranges n rs))

clip_ranges-unknown : (b : ℕ) (rs : List ByteRange) → IsSorted b rs → clip_ranges 0 rs ≡ rs
unfolding clip_ranges
clip_ranges-unknown b [] s = refl
clip_ranges-unknown b (r ∷ rs) s = ground (arith, clip_ranges-unknown r.start rs s.3)

-- The clipped range keeps the bytes below `n`.
holds_clip :
    (n : ℕ) (r : ByteRange) (x : ℕ)
    → 0 < n
    → holds (record r { end = clip_end n r.end }) x ≡ (holds r x && ltb x n)
holds_clip n r x pos = ground arith

holds_drop : (n : ℕ) (r : ByteRange) (x : ℕ) → n ≤ r.start → (holds r x && ltb x n) ≡ false
holds_drop n r x h = ground arith

and_or : (a b c : Bool) → ((a || b) && c) ≡ (a && c || b && c)
and_or true b true = refl
and_or true true false = refl
and_or true false false = refl
and_or false b c = refl

clip_ranges-known :
    (n b : ℕ) (rs : List ByteRange) (x : ℕ)
    → 0 < n
    → IsSorted b rs
    → covers (clip_ranges n rs) x ≡ (covers rs x && ltb x n)
unfolding covers clip_ranges
clip_ranges-known n b [] x pos s = refl
clip_ranges-known n b (r ∷ rs) x pos s = rw and_or (elim (dec_lt r.start n) [
  | yes inside ↦
      let a : (ltb 0 n && leb n r.start) ≡ false = ground arith in
      let c : ltb (clip_end n r.end) r.start ≡ false = ground arith in
      rw (a, c) (ap₂ ◌||◌ (holds_clip n r x pos) (clip_ranges-known n r.start rs x pos s.3))
  | no outside ↦
      let a : (ltb 0 n && leb n r.start) ≡ true = ground arith in
      rw (a, holds_drop n r x (omega arith)) (clip_ranges-known n r.start rs x pos s.3)
])

pub clip_ranges-covers :
    (total_size b : ℕ) (rs : List ByteRange) (x : ℕ)
    → IsSorted b rs
    → covers (clip_ranges total_size rs) x ≡ (covers rs x && (total_size == 0 || ltb x total_size))
clip_ranges-covers zero b rs x s = rw (clip_ranges-unknown b rs s) (ground arith)
clip_ranges-covers (suc n) b rs x s =
    clip_ranges-known (suc n) b rs x (omega arith) s ∙ ground arith

-- The bytes left after clipping and coalescing are those covered before that lie in the file; with
-- the size unknown (0) nothing is cut.
pub clipped-normal :
    (total_size : ℕ) (rs : List ByteRange)
    → IsSorted 0 rs
    → IsGapped 0 (coalesce (clip_ranges total_size rs))
      × ((x : ℕ)
          → covers (coalesce (clip_ranges total_size rs)) x
            ≡ (covers rs x && (total_size == 0 || ltb x total_size)))
clipped-normal n rs s =
    let (normal, same) = coalesce-normal (clip_ranges n rs) 0 (clip_ranges-IsSorted n 0 rs s) in
    (normal, λ x. same x ∙ clip_ranges-covers n 0 rs x s)

-- If no byte from `n` on is covered, every range ends below `n`.
pub EndsBelow-of_covers :
    (n b : ℕ) (rs : List ByteRange)
    → IsGapped b rs
    → ((x : ℕ) → n ≤ x → covers rs x ≡ false)
    → EndsBelow n rs
EndsBelow-of_covers n b [] g h = tt
EndsBelow-of_covers n b (r ∷ rs) g h = (last, EndsBelow-of_covers n (r.end + 2) rs g.3 tail)
  where
    last : r.end < n
    last = elim (dec_lt r.end n) [
      | yes lt ↦ lt
      | no ge ↦
          absurd (
            false≢true (sym (h r.end (omega arith)) ∙ covers_head b r rs r.end g g.1 (omega arith)))
    ]

    tail : (x : ℕ) → n ≤ x → covers rs x ≡ false
    tail x le = unfold covers in ground (arith, h x)

pub covers-EndsBelow :
    (n : ℕ) (rs : List ByteRange) (x : ℕ) → EndsBelow n rs → n ≤ x → covers rs x ≡ false
unfolding covers
covers-EndsBelow n [] x e h = refl
covers-EndsBelow n (r ∷ rs) x e h = ground (arith, covers-EndsBelow n rs x e.1 h)

pub length-coalesce_into :
    (rs : List ByteRange) (current : ByteRange) → length (coalesce_into current rs) ≤ length rs + 1
unfolding coalesce_into
length-coalesce_into [] current = omega arith
length-coalesce_into (next ∷ rs) current =
    ground (arith, length-coalesce_into rs (extend current next), length-coalesce_into rs next)

length-coalesce : (rs : List ByteRange) → length (coalesce rs) ≤ length rs
unfolding coalesce
length-coalesce [] = omega arith
length-coalesce (r ∷ rs) = omega (arith, length-coalesce_into rs r)

length-clip_ranges : (n : ℕ) (rs : List ByteRange) → length (clip_ranges n rs) ≤ length rs
unfolding clip_ranges
length-clip_ranges n [] = omega arith
length-clip_ranges n (r ∷ rs) = ground (arith, length-clip_ranges n rs)

-- Clipping needs no more room.
pub length_clipped :
    (n : ℕ) (rs : List ByteRange) → length (coalesce (clip_ranges n rs)) ≤ length rs
length_clipped n rs = omega (arith, length-coalesce (clip_ranges n rs), length-clip_ranges n rs)
