-- ===== src/Ranges/Marking.antt =====
-- `download_state_mark_range_done` adds an interval to the set of covered bytes, and keeps the
-- normal form.
use native.Mathlib.Decide.{dec_lt}
use avar.Base.{
  Bool-cases, List, [], add64, ap, arith, drop, false, inl, inr, leb, length, length-append,
  length-drop, ltb, lt→ltb, refl, suc, sym, take, take-append-drop, true, ℕ, ◌&&◌, ◌++◌, ◌+◌, ◌<◌,
  ◌^◌, ◌||◌, ◌∙◌, ◌∷◌, ◌≡◌, ◌≤◌,
}
use avar.Ranges.{ByteRange, absorb, insert_sorted, lower_index, mark_range, Merge, splice}
use avar.Ranges.Coverage.{covers, IsGapped}
use avar.Ranges.Merging.{
  lower, upper, absorb_shift, absorb-merged, from_lo, from_lo-absorb, marked, marked-IsGapped,
  marked-covers,
}

absorb-suc :
    (rs : List ByteRange) (lo start end : ℕ)
    → (absorb rs (suc lo) start end).hi ≡ suc (absorb rs lo start end).hi
absorb-suc rs lo start end =
    omega (arith, absorb_shift rs (suc lo) start end, absorb_shift rs lo start end)

absorb-none :
    (rs : List ByteRange) (lo start end : ℕ)
    → (absorb rs lo start end).hi ≤ lo
    → (absorb rs lo start end).merged ≡ record { start = start; end = end }
unfolding absorb
absorb-none [] lo start end h = refl
absorb-none (r ∷ rs) lo start end h =
    ground (arith, absorb_shift rs (lo + 1) (lower r start) (upper r end))

splice-suc :
    (r : ByteRange) (rs : List ByteRange) (lo : ℕ) (m n : Merge)
    → m.hi ≡ suc n.hi
    → m.merged ≡ n.merged
    → (n.hi ≤ lo → r.start < n.merged.start)
    → splice (r ∷ rs) (suc lo) m ≡ r ∷ splice rs lo n
unfolding splice insert_sorted
splice-suc r rs lo m n eh em before = elim (dec_lt lo n.hi) [
  | yes some_ ↦
      let a : ltb (suc lo) m.hi ≡ true = ground arith in
      let b : ltb lo n.hi ≡ true = ground arith in rw (a, b, em, eh)
  | no none_ ↦
      let a : ltb (suc lo) m.hi ≡ false = ground arith in
      let b : ltb lo n.hi ≡ false = ground arith in
      let c : ltb r.start n.merged.start ≡ true = lt→ltb _ _ (before (omega arith)) in
      rw (a, b, em, c)
]

-- A range that ends before `start` is kept in front.
mark_range-below :
    (r : ByteRange) (rs : List ByteRange) (start end : ℕ)
    → ltb (add64 r.end 1) start ≡ true
    → r.start < start
    → mark_range (r ∷ rs) start end ≡ r ∷ mark_range rs start end
unfolding mark_range lower_index
mark_range-below r rs start end below before =
    let lo = lower_index rs start in
    rw below (
      splice-suc r rs lo _ _ (absorb-suc (drop lo rs) lo start end)
        (absorb-merged (drop lo rs) (suc lo) start end
          ∙ sym (absorb-merged (drop lo rs) lo start end))
        (λ h. rw (absorb-none (drop lo rs) lo start end h) before))

splice-zero : (rs : List ByteRange) (m : Merge) → 0 < m.hi → splice rs 0 m ≡ m.merged ∷ drop m.hi rs
unfolding splice
splice-zero rs m h = rw (lt→ltb 0 m.hi h)

absorb-touching :
    (r : ByteRange) (rs : List ByteRange) (start end : ℕ)
    → leb r.start (add64 end 1) ≡ true
    → 0 < (absorb (r ∷ rs) 0 start end).hi
unfolding absorb
absorb-touching r rs start end h =
    rw h (omega (arith, absorb_shift rs 1 (lower r start) (upper r end)))

mark_range-from_lo :
    (r : ByteRange) (rs : List ByteRange) (start end : ℕ)
    → ltb (add64 r.end 1) start ≡ false
    → start ≤ end
    → end + 1 < 2 ^ 64
    → mark_range (r ∷ rs) start end ≡ from_lo (r ∷ rs) start end
unfolding mark_range lower_index
mark_range-from_lo r rs start end reach le lt =
    rw reach (elim (Bool-cases (leb r.start (add64 end 1))) [
      | inl touching ↦
          splice-zero (r ∷ rs) (absorb (r ∷ rs) 0 start end)
            (absorb-touching r rs start end touching)
          ∙ from_lo-absorb (r ∷ rs) start end
      | inr apart ↦
          let late : ltb r.start start ≡ false = ground arith in
          unfold absorb from_lo splice insert_sorted in rw apart (rw late)
    ])

-- On an array in normal form the indexed code is the recursion `marked`.
mark_range-marked :
    (b : ℕ) (rs : List ByteRange) (start end : ℕ)
    → IsGapped b rs
    → start ≤ end
    → end + 1 < 2 ^ 64
    → mark_range rs start end ≡ marked rs start end
unfolding marked
mark_range-marked b [] start end g le lt =
    unfold mark_range lower_index absorb splice insert_sorted in refl
mark_range-marked b (r ∷ rs) start end g le lt = elim (Bool-cases (ltb (add64 r.end 1) start)) [
  | inl below ↦
      rw (mark_range-below r rs start end below (ground arith))
        (rw below (ap (◌∷◌ r) (mark_range-marked (r.end + 2) rs start end g.3 le lt)))
  | inr reach ↦ rw reach (mark_range-from_lo r rs start end reach le lt)
]

-- Marking an interval done keeps the array sorted and merged.
pub mark_range-IsGapped :
    (rs : List ByteRange) (start end : ℕ)
    → IsGapped 0 rs
    → start ≤ end
    → end + 1 < 2 ^ 64
    → IsGapped 0 (mark_range rs start end)
mark_range-IsGapped rs start end g le lt =
    rw (mark_range-marked 0 rs start end g le lt)
      (marked-IsGapped 0 0 rs start end g (omega arith) (omega arith) le lt)

-- Marking [start, end] done adds exactly its bytes to the covered ones.
pub mark_range-covers :
    (rs : List ByteRange) (start end x : ℕ)
    → IsGapped 0 rs
    → start ≤ end
    → end + 1 < 2 ^ 64
    → covers (mark_range rs start end) x ≡ (leb start x && leb x end || covers rs x)
mark_range-covers rs start end x g le lt =
    rw (mark_range-marked 0 rs start end g le lt) (marked-covers 0 rs start end x g le lt)

absorb-le : (rs : List ByteRange) (lo start end : ℕ) → (absorb rs lo start end).hi ≤ lo + length rs
unfolding absorb
absorb-le [] lo start end = omega arith
absorb-le (r ∷ rs) lo start end =
    ground (arith, absorb-le rs (lo + 1) (lower r start) (upper r end))

lower_index-le : (rs : List ByteRange) (start : ℕ) → lower_index rs start ≤ length rs
unfolding lower_index
lower_index-le [] start = omega arith
lower_index-le (r ∷ rs) start = ground (arith, lower_index-le rs start)

length-take_le : (n : ℕ) (rs : List ByteRange) → n ≤ length rs → length (take n rs) ≡ n
length-take_le n rs h = omega (
  arith,
  ap length (take-append-drop n rs),
  length-append (take n rs) (drop n rs),
  length-drop n rs,
)

-- Where ranges are merged the array does not grow.
pub splice_shrinks :
    (rs : List ByteRange) (start end : ℕ) (m : Merge)
    → m ≡ absorb (drop (lower_index rs start) rs) (lower_index rs start) start end
    → lower_index rs start < m.hi
    → length (take (lower_index rs start) rs ++ (m.merged ∷ drop m.hi rs)) ≤ length rs
splice_shrinks rs start end m e lt =
    let lo = lower_index rs start in
    let below = lower_index-le rs start in
    omega (
      arith,
      ap (λ (n : Merge). n.hi) e,
      below,
      absorb-le (drop lo rs) lo start end,
      length-drop lo rs,
      length-take_le lo rs below,
      length-drop m.hi rs,
      length-append (take lo rs) (m.merged ∷ drop m.hi rs),
    )

-- The two ways in which `mark_range` stores its result.
module _ (rs : List ByteRange) (start end : ℕ) where
  abbrev lo : ℕ
  lo = lower_index rs start

  abbrev found : Merge
  found = absorb (drop lo rs) lo start end

  pub mark_range_spliced :
      ltb lo found.hi ≡ true
      → mark_range rs start end ≡ take lo rs ++ (found.merged ∷ drop found.hi rs)
  unfolding mark_range splice
  mark_range_spliced h = rw h

  pub found-merged : ltb lo found.hi ≡ false → found.merged ≡ record { start = start; end = end }
  found-merged h = absorb-none (drop lo rs) lo start end (ground arith)

  pub mark_range_inserted :
      ltb lo found.hi ≡ false
      → insert_sorted rs (record { start = start; end = end }) ≡ mark_range rs start end
  unfolding mark_range splice
  mark_range_inserted h = rw (h, found-merged h)
