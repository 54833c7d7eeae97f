-- ===== src/State/Growth.antt =====
-- The capacity of `done_ranges`: the doubling loop ends, and a failed `realloc` is the only way in
-- which marking an interval can fail.
use native.Mathlib.Nat.{pow-suc}
use avar.Base.{
  Bool, Bool-cases, List, [], ap, arith, drop, false, if◌then◌else◌, inl, inr, leb, length,
  length-append, ltb, mul64, none, some, suc, take, take-append-drop, zero, ℕ, ◌*◌, ◌+◌, ◌<◌, ◌==◌,
  ◌^◌, ◌∷◌, ◌≡◌, ◌≤◌,
}
use avar.Ranges.{ByteRange, insert_index, insert_sorted}
use avar.State.{DownloadState, grow, ensure_range_capacity}
use avar.Ranges.Coverage.{IsGapped}
use avar.Ranges

-- The doubling loop of ensure_range_capacity, run from a positive capacity for as many rounds
-- as it takes to reach needed (at most 2^63) by doubling, ends with room for needed.
pub grow_enough :
    (fuel new_cap needed : ℕ)
    → needed ≤ new_cap * 2 ^ fuel
    → 0 < new_cap
    → needed ≤ 2 ^ 63
    → needed ≤ grow fuel new_cap needed
unfolding grow
grow_enough zero new_cap needed h pos b = omega arith
grow_enough (suc fuel) new_cap needed h pos b = elim (Bool-cases (ltb new_cap needed)) [
  | inl small ↦
      let exact : mul64 new_cap 2 ≡ new_cap * 2 = ground arith in
      rw small (
        grow_enough fuel (mul64 new_cap 2) needed
          (rw exact (omega (arith, pow-suc 2 fuel, ap (λ (t : ℕ). new_cap * t) (pow-suc 2 fuel))))
          (omega arith) b)
  | inr large ↦ rw large (ground arith)
]

-- The capacity that the loop starts from.
first_cap : ℕ → ℕ
first_cap cap = if cap == 0 then 4 else mul64 cap 2

first_cap_enough :
    (cap needed : ℕ)
    → leb needed cap ≡ false
    → needed ≤ 2 ^ 63
    → needed ≤ grow 64 (first_cap cap) needed
unfolding first_cap
first_cap_enough cap needed h b =
    let pos : 0 < first_cap cap = ground arith in
    grow_enough 64 (first_cap cap) needed (omega (arith, pos)) pos b

-- A successful request leaves all but the capacity as it was, and that is large enough.
pub data Grown (state : DownloadState) (needed : ℕ) (result : DownloadState) : Type 0 where
  grown :
      (cap : ℕ)
      → result ≡ record state { done_range_capacity = cap }
      → needed ≤ cap
      → Grown state needed result

pub some_eq : {A : Type 0} {a b : A} → some a ≡ some b → b ≡ a
some_eq e = cc

pub none_ne_some : {A : Type 0} {a : A} → none ≡ some a → ⊥
none_ne_some e = cc

pub ensure_range_capacity-Grown :
    (realloc : ℕ → Bool) (state : DownloadState) (needed : ℕ) {result : DownloadState}
    → needed ≤ 2 ^ 63
    → ensure_range_capacity realloc state needed ≡ some result
    → Grown state needed result
unfolding ensure_range_capacity first_cap
ensure_range_capacity-Grown realloc state needed b e =
    elim (Bool-cases (leb needed state.done_range_capacity)) [
      | inl fits ↦ grown state.done_range_capacity (some_eq (rw fits at e)) (ground arith)
      | inr short ↦
          let cap = grow 64 (first_cap state.done_range_capacity) needed in
          elim (Bool-cases (realloc (mul64 cap 16))) [
            | inl given ↦
                grown cap (some_eq (rw (short, given) at e))
                  (first_cap_enough state.done_range_capacity needed short b)
            | inr refused ↦ absurd (none_ne_some (rw (short, refused) at e))
          ]
    ]

pub length-insert_sorted :
    (rs : List ByteRange) (r : ByteRange) → length (insert_sorted rs r) ≡ length rs + 1
unfolding insert_sorted
length-insert_sorted rs r =
    let at = Ranges.insert_index rs r.start in
    omega (
      arith,
      length-append (take at rs) (r ∷ drop at rs),
      length-append (take at rs) (drop at rs),
      ap length (take-append-drop at rs),
    )

-- A normal form has fewer than 2^63 ranges, so their number does not wrap.
pub length-IsGapped :
    (b : ℕ) (rs : List ByteRange) → IsGapped b rs → b ≤ 2 ^ 64 → b + 2 * length rs ≤ 2 ^ 64 + 1
length-IsGapped b [] g h = omega arith
length-IsGapped b (r ∷ rs) g h = omega (arith, length-IsGapped (r.end + 2) rs g.3 (omega arith))
