-- ===== src/Ranges.antt =====
-- src/download_state.c: the loops over `done_ranges`, the byte ranges that are durably on disk.
-- The array `done_ranges[0 .. done_range_count)` is a list; `end` is inclusive.
pub mod Coverage
pub mod Lookup
pub mod Merging
pub mod Marking
pub mod Extent
pub mod Clipping
use avar.Base.{
  Bool, List, [], add64, drop, false, if◌then◌else◌, leb, ltb, sub64, suc, take, true, ℕ, ◌&&◌,
  ◌++◌, ◌+◌, ◌-◌, ◌∷◌,
}

pub record ByteRange : Type 0 where
  pub start : ℕ
  pub end : ℕ

-- The loop of `download_state_is_range_done`.
unfoldable pub is_range_done : List ByteRange → ℕ → ℕ → Bool
is_range_done [] start end = false
is_range_done (r ∷ rs) start end =
    let rest = is_range_done rs start end in
    if ltb r.end start
    then rest
    else if ltb start r.start
    then false
    else if leb end r.end
    then true
    else rest

-- `while (lo < count && done_ranges[lo].end + 1U < start) lo++`
unfoldable pub lower_index : List ByteRange → ℕ → ℕ
lower_index [] start = 0
lower_index (r ∷ rs) start = if ltb (add64 r.end 1) start then suc (lower_index rs start) else 0

-- `hi`, `merge_start` and `merge_end`.
pub record Merge : Type 0 where
  pub hi : ℕ
  pub merged : ByteRange

-- `while (hi < count && done_ranges[hi].start <= merge_end + 1U)`, over the ranges from `hi` on.
unfoldable pub absorb : List ByteRange → ℕ → ℕ → ℕ → Merge
absorb [] hi start end = record { hi = hi; merged = record { start = start; end = end } }
absorb (r ∷ rs) hi start end =
    let rest =
      absorb rs (hi + 1) (if ltb r.start start then r.start else start)
        (if ltb end r.end then r.end else end) in
    if leb r.start (add64 end 1)
    then rest
    else record { hi = hi; merged = record { start = start; end = end } }

-- `insert_at` of `insert_sorted_range`.
unfoldable pub insert_index : List ByteRange → ℕ → ℕ
insert_index [] start = 0
insert_index (r ∷ rs) start = if ltb r.start start then suc (insert_index rs start) else 0

-- The array of `insert_sorted_range` once there is room.
unfoldable pub insert_sorted : List ByteRange → ByteRange → List ByteRange
unfolding insert_index
insert_sorted rs range = let at = insert_index rs range.start in take at rs ++ (range ∷ drop at rs)

-- The array once `lo` and `hi` are found: the merged range in place of those between, or a new
-- range where it sorts.
unfoldable pub splice : List ByteRange → ℕ → Merge → List ByteRange
splice ranges lo m =
    if ltb lo m.hi
    then take lo ranges ++ (m.merged ∷ drop m.hi ranges)
    else insert_sorted ranges m.merged

-- The array that `download_state_mark_range_done` leaves, past its early returns.
unfoldable pub mark_range : List ByteRange → ℕ → ℕ → List ByteRange
mark_range ranges start end =
    let lo = lower_index ranges start in splice ranges lo (absorb (drop lo ranges) lo start end)

-- `coalesce_done_ranges`: `current` is `done_ranges[write]`.
unfoldable pub coalesce_into : ByteRange → List ByteRange → List ByteRange
coalesce_into current [] = current ∷ []
coalesce_into current (next ∷ rest) = elim (leb next.start (add64 current.end 1)) [
  | true ↦
      coalesce_into
        (if ltb current.end next.end then record current { end = next.end } else current) rest
  | false ↦ current ∷ coalesce_into next rest
]

unfoldable pub coalesce : List ByteRange → List ByteRange
unfolding coalesce_into
coalesce [] = []
coalesce (r ∷ rs) = coalesce_into r rs

-- One round of the loop of `clip_done_ranges`: the range to write, if any.
abbrev pub clip_end : ℕ → ℕ → ℕ
clip_end total_size end =
    if ltb 0 total_size then (if ltb (total_size - 1) end then total_size - 1 else end) else end

unfoldable pub clip_ranges : ℕ → List ByteRange → List ByteRange
clip_ranges total_size [] = []
clip_ranges total_size (r ∷ rs) =
    let rest = clip_ranges total_size rs in
    let end = clip_end total_size r.end in
    if ltb 0 total_size && leb total_size r.start
    then rest
    else if ltb end r.start
    then rest
    else record r { end = end } ∷ rest

-- The sum of `download_state_bytes_done`.
unfoldable pub sum_ranges : ℕ → List ByteRange → ℕ
sum_ranges bytes [] = bytes
sum_ranges bytes (r ∷ rs) = sum_ranges (add64 bytes (add64 (sub64 r.end r.start) 1)) rs
