-- ===== src/Ranges/Lookup.antt =====
-- `download_state_is_range_done` decides whether every byte of an interval is covered.
use native.Mathlib.Decide.{dec_lt}
use mathlib.Core.Bool.{false≢true}
use avar.Base.{
  Bool-cases, List, [], arith, false, inl, inr, refl, sym, true, ℕ, ◌+◌, ◌<◌, ◌↔◌, ◌∙◌, ◌∷◌, ◌≡◌,
  ◌≤◌,
}
use avar.Ranges.{ByteRange, is_range_done}
use avar.Ranges.Coverage.{covers, IsGapped, covers_below, covers_gap}

is_range_done-covers :
    (b : ℕ) (rs : List ByteRange) (start end x : ℕ)
    → is_range_done rs start end ≡ true
    → start ≤ x
    → x ≤ end
    → covers rs x ≡ true
unfolding is_range_done covers
is_range_done-covers b [] start end x h l u = cc
is_range_done-covers b (r ∷ rs) start end x h l u =
    ground (arith, is_range_done-covers b rs start end x)

abbrev Uncovered : List ByteRange → ℕ → ℕ → Type 0
Uncovered rs start end = (x : ℕ) × (start ≤ x) × (x ≤ end) × (covers rs x ≡ false)

Uncovered-cons :
    (r : ByteRange) (rs : List ByteRange) (start end : ℕ)
    → r.end < start
    → Uncovered rs start end
    → Uncovered (r ∷ rs) start end
unfolding covers
Uncovered-cons r rs start end lt (x, l, u, n) = (x, l, u, ground arith)

-- What the loop refuses has a byte that is not covered.
is_range_done-Uncovered :
    (b : ℕ) (rs : List ByteRange) (start end : ℕ)
    → IsGapped b rs
    → start ≤ end
    → is_range_done rs start end ≡ false
    → Uncovered rs start end
unfolding is_range_done
is_range_done-Uncovered b [] start end g le h = unfold covers in (start, omega arith, le, refl)
is_range_done-Uncovered b (r ∷ rs) start end g le h = elim (dec_lt r.end start) [
  | yes lt ↦
      Uncovered-cons r rs start end lt
        (is_range_done-Uncovered (r.end + 2) rs start end g.3 le (ground arith))
  | no ge ↦ elim (dec_lt start r.start) [
    | yes before ↦
        unfold covers in
        (start, omega arith, le, ground (arith, covers_below (r.end + 2) rs start g.3))
    | no from ↦ (r.end + 1, omega arith, ground arith, covers_gap b r rs g)
  ]
]

-- On a sorted and merged array, the scan of download_state_is_range_done answers true for an
-- interval that is not inverted exactly when every byte of it is covered by some range.
pub is_range_done_iff :
    (b : ℕ) (rs : List ByteRange) (start end : ℕ)
    → IsGapped b rs
    → start ≤ end
    → (is_range_done rs start end ≡ true) ↔ ((x : ℕ) → start ≤ x → x ≤ end → covers rs x ≡ true)
is_range_done_iff b rs start end g le = (λ h x. is_range_done-covers b rs start end x h, converse)
  where
    converse :
        ((x : ℕ) → start ≤ x → x ≤ end → covers rs x ≡ true) → is_range_done rs start end ≡ true
    converse all = elim (Bool-cases (is_range_done rs start end)) [
      | inl done ↦ done
      | inr open_ ↦
          let (x, l, u, n) = is_range_done-Uncovered b rs start end g le open_ in
          absurd (false≢true (sym n ∙ all x l u))
    ]
