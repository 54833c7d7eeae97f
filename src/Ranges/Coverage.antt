-- ===== src/Ranges/Coverage.antt =====
-- The abstract view of `done_ranges`: the set of bytes that it covers, and the normal form in which
-- the array is kept.
use avar.Base.{
  Bool, List, [], arith, false, leb, refl, true, ℕ, ◌&&◌, ◌+◌, ◌<◌, ◌^◌, ◌||◌, ◌∷◌, ◌≡◌, ◌≤◌,
}
use avar.Ranges.{ByteRange}

abbrev pub holds : ByteRange → ℕ → Bool
holds r x = leb r.start x && leb x r.end

-- Byte `x` is in one of the ranges.
unfoldable pub covers : List ByteRange → ℕ → Bool
covers [] x = false
covers (r ∷ rs) x = holds r x || covers rs x

-- Sorted from `bound` on, no range empty, none touching the next, and no end at UINT64_MAX.
abbrev pub IsGapped : ℕ → List ByteRange → Type 0
IsGapped bound [] = Unit {0}
IsGapped bound (r ∷ rs) =
    (bound ≤ r.start) × (r.start ≤ r.end) × (r.end + 1 < 2 ^ 64) × IsGapped (r.end + 2) rs

pub IsGapped-mono : (b c : ℕ) (rs : List ByteRange) → c ≤ b → IsGapped b rs → IsGapped c rs
IsGapped-mono b c [] h g = tt
IsGapped-mono b c (r ∷ rs) h g = (omega arith, g.1, g.2, g.3)

-- Below the bound nothing is covered.
pub covers_below :
    (b : ℕ) (rs : List ByteRange) (x : ℕ) → IsGapped b rs → x < b → covers rs x ≡ false
unfolding covers
covers_below b [] x g h = refl
covers_below b (r ∷ rs) x g h = ground (arith, covers_below (r.end + 2) rs x g.3)

pub covers_head :
    (b : ℕ) (r : ByteRange) (rs : List ByteRange) (x : ℕ)
    → IsGapped b (r ∷ rs)
    → r.start ≤ x
    → x ≤ r.end
    → covers (r ∷ rs) x ≡ true
unfolding covers
covers_head b r rs x g h k = ground arith

-- The byte after the first range is a gap.
pub covers_gap :
    (b : ℕ) (r : ByteRange) (rs : List ByteRange)
    → IsGapped b (r ∷ rs)
    → covers (r ∷ rs) (r.end + 1) ≡ false
unfolding covers
covers_gap b r rs g = ground (arith, covers_below (r.end + 2) rs (r.end + 1) g.3)
