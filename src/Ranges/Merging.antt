-- ===== src/Ranges/Merging.antt =====
-- src/download_state.c: the ranges that `download_state_mark_range_done` merges, without indices.
use avar.Base.{
  Bool-cases, List, [], add64, arith, drop, if◌then◌else◌, inl, inr, leb, ltb, refl, suc, ℕ, ◌&&◌,
  ◌+◌, ◌<◌, ◌^◌, ◌||◌, ◌∷◌, ◌≡◌, ◌≤◌,
}
use avar.Ranges.{ByteRange, absorb}
use avar.Ranges.Coverage.{covers, IsGapped}

abbrev pub lower : ByteRange → ℕ → ℕ
lower r start = if ltb r.start start then r.start else start

abbrev pub upper : ByteRange → ℕ → ℕ
upper r end = if ltb end r.end then r.end else end

pub absorb_shift :
    (rs : List ByteRange) (hi start end : ℕ)
    → (absorb rs hi start end).hi ≡ hi + (absorb rs 0 start end).hi
unfolding absorb
absorb_shift [] hi start end = omega arith
absorb_shift (r ∷ rs) hi start end = ground (
  arith,
  absorb_shift rs (hi + 1) (lower r start) (upper r end),
  absorb_shift rs 1 (lower r start) (upper r end),
)

pub absorb-merged :
    (rs : List ByteRange) (hi start end : ℕ)
    → (absorb rs hi start end).merged ≡ (absorb rs 0 start end).merged
unfolding absorb
absorb-merged [] hi start end = refl
absorb-merged (r ∷ rs) hi start end = ground (
  arith,
  absorb-merged rs (hi + 1) (lower r start) (upper r end),
  absorb-merged rs 1 (lower r start) (upper r end),
)

drop_one_add : (r : ByteRange) (rs : List ByteRange) (k : ℕ) → drop (1 + k) (r ∷ rs) ≡ drop k rs
drop_one_add r rs k = let e : 1 + k ≡ suc k = omega arith in rw e

-- The merged range and what is left behind it, from `lo` on.
unfoldable pub from_lo : List ByteRange → ℕ → ℕ → List ByteRange
from_lo [] start end = record { start = start; end = end } ∷ []
from_lo (r ∷ rs) start end =
    let rest = from_lo rs (lower r start) (upper r end) in
    if leb r.start (add64 end 1) then rest else record { start = start; end = end } ∷ r ∷ rs

pub from_lo-absorb :
    (rs : List ByteRange) (start end : ℕ)
    → (absorb rs 0 start end).merged ∷ drop (absorb rs 0 start end).hi rs ≡ from_lo rs start end
unfolding absorb from_lo
from_lo-absorb [] start end = refl
from_lo-absorb (r ∷ rs) start end = elim (Bool-cases (leb r.start (add64 end 1))) [
  | inl touching ↦
      rw (touching, absorb-merged rs 1 (lower r start) (upper r end))
        (rw (absorb_shift rs 1 (lower r start) (upper r end), drop_one_add)
          (from_lo-absorb rs (lower r start) (upper r end)))
  | inr apart ↦ rw apart
]

-- `start` is at most one past the end of the first range.
abbrev Reaches : ℕ → List ByteRange → Type 0
Reaches start [] = Unit {0}
Reaches start (r ∷ rs) = start ≤ r.end + 1

IsGapped-Reaches :
    (b : ℕ) (rs : List ByteRange) (start : ℕ) → IsGapped b rs → start ≤ b → Reaches start rs
IsGapped-Reaches b [] start g h = tt
IsGapped-Reaches b (r ∷ rs) start g h = omega arith

from_lo-IsGapped :
    (b c : ℕ) (rs : List ByteRange) (start end : ℕ)
    → IsGapped b rs
    → Reaches start rs
    → c ≤ b
    → c ≤ start
    → start ≤ end
    → end + 1 < 2 ^ 64
    → IsGapped c (from_lo rs start end)
unfolding from_lo
from_lo-IsGapped b c [] start end g re cb cs le lt = ground arith
from_lo-IsGapped b c (r ∷ rs) start end g re cb cs le lt = ground (
  arith,
  IsGapped-Reaches (r.end + 2) rs (lower r start) g.3,
  from_lo-IsGapped (r.end + 2) c rs (lower r start) (upper r end) g.3,
)

from_lo-covers :
    (b : ℕ) (rs : List ByteRange) (start end x : ℕ)
    → IsGapped b rs
    → Reaches start rs
    → start ≤ end
    → end + 1 < 2 ^ 64
    → covers (from_lo rs start end) x ≡ (leb start x && leb x end || covers rs x)
unfolding from_lo covers
from_lo-covers b [] start end x g re le lt = ground arith
from_lo-covers b (r ∷ rs) start end x g re le lt = ground (
  arith,
  IsGapped-Reaches (r.end + 2) rs (lower r start) g.3,
  from_lo-covers (r.end + 2) rs (lower r start) (upper r end) x g.3,
)

-- `mark_range` with the ranges before `lo` stepped over.
unfoldable pub marked : List ByteRange → ℕ → ℕ → List ByteRange
marked [] start end = record { start = start; end = end } ∷ []
marked (r ∷ rs) start end =
    let rest = marked rs start end in
    if ltb (add64 r.end 1) start then r ∷ rest else from_lo (r ∷ rs) start end

pub marked-IsGapped :
    (b c : ℕ) (rs : List ByteRange) (start end : ℕ)
    → IsGapped b rs
    → c ≤ b
    → c ≤ start
    → start ≤ end
    → end + 1 < 2 ^ 64
    → IsGapped c (marked rs start end)
unfolding marked
marked-IsGapped b c [] start end g cb cs le lt = ground arith
marked-IsGapped b c (r ∷ rs) start end g cb cs le lt = ground (
  arith,
  marked-IsGapped (r.end + 2) (r.end + 2) rs start end g.3,
  from_lo-IsGapped b c (r ∷ rs) start end g,
)

pub marked-covers :
    (b : ℕ) (rs : List ByteRange) (start end x : ℕ)
    → IsGapped b rs
    → start ≤ end
    → end + 1 < 2 ^ 64
    → covers (marked rs start end) x ≡ (leb start x && leb x end || covers rs x)
unfolding marked covers
marked-covers b [] start end x g le lt = ground arith
marked-covers b (r ∷ rs) start end x g le lt =
    ground
      (arith, marked-covers (r.end + 2) rs start end x g.3, from_lo-covers b (r ∷ rs) start end x g)
