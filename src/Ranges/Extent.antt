-- ===== src/Ranges/Extent.antt =====
-- The normal form is determined by the set of covered bytes, so the order in which intervals are
-- marked does not matter; and the sum of `download_state_bytes_done` counts that set.
use native.Mathlib.Decide.{dec_lt}
use mathlib.Core.Bool.{false≢true}
use Prim.Native.Nat.{min}
use avar.Base.{
  All, Bool, List, [], add64, arith, false, if◌then◌else◌, leb, refl, sub64, suc, sym, true, zero,
  ℕ, ◌&&◌, ◌+◌, ◌-◌, ◌<◌, ◌^◌, ◌||◌, ◌∙◌, ◌∷◌, ◌≡◌, ◌≤◌,
}
use avar.Ranges.{ByteRange, mark_range, sum_ranges}
use avar.Ranges.Coverage.{covers, IsGapped, covers_below, covers_gap, covers_head, holds}
use avar.Ranges.Marking.{mark_range-covers, mark_range-IsGapped}

covers_start :
    (b : ℕ) (r : ByteRange) (rs : List ByteRange)
    → IsGapped b (r ∷ rs)
    → covers (r ∷ rs) r.start ≡ true
covers_start b r rs g = covers_head b r rs r.start g (omega arith) g.1

start-le :
    (b : ℕ) (r s : ByteRange) (rs ss : List ByteRange)
    → IsGapped b (r ∷ rs)
    → IsGapped b (s ∷ ss)
    → covers (r ∷ rs) s.start ≡ covers (s ∷ ss) s.start
    → r.start ≤ s.start
start-le b r s rs ss g h e = elim (dec_lt s.start r.start) [
  | yes lt ↦
      let miss = covers_below r.start (r ∷ rs) s.start (omega arith, g.1, g.2, g.3) lt in
      absurd (false≢true (sym miss ∙ e ∙ covers_start b s ss h))
  | no ge ↦ omega arith
]

end-le :
    (b : ℕ) (r s : ByteRange) (rs ss : List ByteRange)
    → IsGapped b (r ∷ rs)
    → IsGapped b (s ∷ ss)
    → r.start ≡ s.start
    → covers (r ∷ rs) (s.end + 1) ≡ covers (s ∷ ss) (s.end + 1)
    → r.end ≤ s.end
end-le b r s rs ss g h same e = elim (dec_lt s.end r.end) [
  | yes lt ↦
      let hit = covers_head b r rs (s.end + 1) g (omega arith) (omega arith) in
      absurd (false≢true (sym (covers_gap b s ss h) ∙ sym e ∙ hit))
  | no ge ↦ omega arith
]

covers_tail :
    (b : ℕ) (r : ByteRange) (rs : List ByteRange) (x : ℕ)
    → IsGapped b (r ∷ rs)
    → covers rs x ≡ (leb (r.end + 2) x && covers (r ∷ rs) x)
unfolding covers
covers_tail b r rs x g = ground (arith, covers_below (r.end + 2) rs x g.3)

-- Two arrays in normal form that cover the same bytes are the same array.
pub IsGapped-ext :
    (b : ℕ) (rs ss : List ByteRange)
    → IsGapped b rs
    → IsGapped b ss
    → ((x : ℕ) → covers rs x ≡ covers ss x)
    → rs ≡ ss
IsGapped-ext b [] [] g h e = refl
IsGapped-ext b [] (s ∷ ss) g h e =
    absurd (false≢true (unfold covers in (e s.start ∙ covers_start b s ss h)))
IsGapped-ext b (r ∷ rs) [] g h e =
    absurd (false≢true (unfold covers in (sym (e r.start) ∙ covers_start b r rs g)))
IsGapped-ext b (r ∷ rs) (s ∷ ss) g h e =
    ground
      (arith, same_start, same_end, IsGapped-ext (r.end + 2) rs ss g.3 (rw same_end h.3) same_tail)
  where
    same_start : r.start ≡ s.start
    same_start =
        omega
          (arith, start-le b r s rs ss g h (e s.start), start-le b s r ss rs h g (sym (e r.start)))

    same_end : r.end ≡ s.end
    same_end = omega (
      arith,
      end-le b r s rs ss g h same_start (e (s.end + 1)),
      end-le b s r ss rs h g (sym same_start) (sym (e (r.end + 1))),
    )

    same_tail : (x : ℕ) → covers rs x ≡ covers ss x
    same_tail x = covers_tail b r rs x g ∙ rw (e x, same_end) (sym (covers_tail b s ss x h))

-- On a sorted and merged array of completed ranges, marking two intervals in either order
-- leaves the same array; the intervals are not inverted and do not end at UINT64_MAX.
pub mark_range_comm :
    (rs : List ByteRange) (a b c d : ℕ)
    → IsGapped 0 rs
    → a ≤ b
    → b + 1 < 2 ^ 64
    → c ≤ d
    → d + 1 < 2 ^ 64
    → mark_range (mark_range rs a b) c d ≡ mark_range (mark_range rs c d) a b
mark_range_comm rs a b c d g ab b' cd d' =
    IsGapped-ext 0 _ _ (mark_range-IsGapped _ c d gab cd d') (mark_range-IsGapped _ a b gcd ab b')
      λ x. ground (
        arith,
        mark_range-covers (mark_range rs a b) c d x gab cd d',
        mark_range-covers rs a b x g ab b',
        mark_range-covers (mark_range rs c d) a b x gcd ab b',
        mark_range-covers rs c d x g cd d',
      )
  where
    gab : IsGapped 0 (mark_range rs a b)
    gab = mark_range-IsGapped rs a b g ab b'

    gcd : IsGapped 0 (mark_range rs c d)
    gcd = mark_range-IsGapped rs c d g cd d'

-- How many numbers below `n` pass the test.
unfoldable pub count_below : ℕ → (ℕ → Bool) → ℕ
count_below zero p = 0
count_below (suc n) p = (if p n then 1 else 0) + count_below n p

count_holds :
    (n : ℕ) (r : ByteRange)
    → r.start ≤ r.end
    → count_below n (holds r) + min n r.start ≡ min n (r.end + 1)
unfolding count_below
count_holds zero r h = omega arith
count_holds (suc n) r h = ground (arith, count_holds n r h)

count_or :
    (n : ℕ) (p q : ℕ → Bool)
    → ((x : ℕ) → p x ≡ true → q x ≡ false)
    → count_below n (λ x. p x || q x) ≡ count_below n p + count_below n q
unfolding count_below
count_or zero p q h = refl
count_or (suc n) p q h = ground (arith, count_or n p q h, h n)

count_none : (n : ℕ) → count_below n (λ x. false) ≡ 0
unfolding count_below
count_none zero = refl
count_none (suc n) = omega (arith, count_none n)

abbrev pub EndsBelow : ℕ → List ByteRange → Type 0
EndsBelow n rs = All (λ r. r.end < n) rs

count_cons :
    (n b : ℕ) (r : ByteRange) (rs : List ByteRange)
    → IsGapped b (r ∷ rs)
    → r.end < n
    → count_below n (covers (r ∷ rs)) ≡ r.end + 1 - r.start + count_below n (covers rs)
unfolding covers
count_cons n b r rs g h = omega (
  arith,
  count_or n (holds r) (covers rs) λ x hit. covers_below (r.end + 2) rs x g.3 (ground arith),
  count_holds n r g.1,
)

-- The sum counts the covered bytes: it neither misses one nor counts one twice, and does not wrap.
pub sum_ranges-count :
    (n b bytes : ℕ) (rs : List ByteRange)
    → IsGapped b rs
    → EndsBelow n rs
    → bytes + count_below n (covers rs) < 2 ^ 64
    → sum_ranges bytes rs ≡ bytes + count_below n (covers rs)
unfolding sum_ranges
sum_ranges-count n b bytes [] g e h = unfold covers in omega (arith, count_none n)
sum_ranges-count n b bytes (r ∷ rs) g e h =
    let counted = count_cons n b r rs g e.0 in
    let added : add64 bytes (add64 (sub64 r.end r.start) 1) ≡ bytes + (r.end + 1 - r.start) =
      omega (arith, counted) in
    sum_ranges-count n (r.end + 2) _ rs g.3 e.1 (omega (arith, counted, added))
    ∙ omega (arith, counted, added)
