-- ===== src/Segment/Reserve.antt =====
-- `segment_next_reserve_end`: a reservation is extended by at most one chunk, inside the file, over
-- bytes that are neither done nor being fetched.
use avar.Base.{
  Bool-cases, List, [], add64, ap, arith, false, if◌then◌else◌, inl, inr, leb, ltb, refl, sub64,
  sym, true, ℕ, ◌+◌, ◌-◌, ◌<◌, ◌==◌, ◌^◌, ◌↔◌, ◌∙◌, ◌∷◌, ◌≡◌, ◌≤◌,
}
use avar.Ranges.{ByteRange}
use avar.Ranges.Coverage.{covers}
use avar.State.{DownloadState, download_state_is_range_done}
use avar.Segment.{segment_ranges_overlap, range_overlaps_in_flight, segment_next_reserve_end}
use avar.Segment.Partition.{chunk_of}

-- segment_ranges_overlap answers true exactly when some byte lies in both inclusive intervals,
-- which for an inverted interval is never.
segment_ranges_overlap_iff :
    (a_start a_end b_start b_end : ℕ)
    → (segment_ranges_overlap a_start a_end b_start b_end ≡ true)
      ↔ ((x : ℕ) × (a_start ≤ x) × (x ≤ a_end) × (b_start ≤ x) × (x ≤ b_end))
unfolding segment_ranges_overlap
segment_ranges_overlap_iff a b c d = (
  λ h. (if leb a c then c else a, ground arith, ground arith, ground arith, ground arith),
  λ (x, p, q, r, s). ground arith,
)

range_overlaps_in_flight-covers :
    (rs : List ByteRange) (start end x : ℕ)
    → range_overlaps_in_flight rs start end ≡ false
    → start ≤ x
    → x ≤ end
    → covers rs x ≡ false
unfolding range_overlaps_in_flight segment_ranges_overlap covers
range_overlaps_in_flight-covers [] start end x h l u = refl
range_overlaps_in_flight-covers (r ∷ rs) start end x h l u =
    ground (arith, range_overlaps_in_flight-covers rs start end x)

-- The outcome of a request to extend the reservation that ends at `current_end`.
pub data Extension (state : DownloadState) (in_flight : List ByteRange) (current_end e : ℕ)
    : Type 0 where
  stays : e ≡ current_end → Extension state in_flight current_end e
  grows :
      current_end < e
      → e ≤ current_end + chunk_of state
      → e < state.total_size
      → download_state_is_range_done state (current_end + 1) e ≡ false
      → ((x : ℕ) → current_end < x → x ≤ e → covers in_flight x ≡ false)
      → Extension state in_flight current_end e

-- `next_start` and `next_end` of the code.
abbrev next_start : ℕ → ℕ
next_start current_end = add64 current_end 1

abbrev next_end : DownloadState → ℕ → ℕ
next_end state current_end =
    let chunk_end = sub64 (add64 (next_start current_end) (chunk_of state)) 1 in
    if ltb (state.total_size - 1) chunk_end then state.total_size - 1 else chunk_end

-- segment_next_reserve_end either returns current_end, or a byte of the file after it and at
-- most one chunk further, such that the interval between them is not yet done and no byte of
-- it is in flight; size plus chunk size is at most 2^64.
pub segment_next_reserve_end-Extension :
    (state : DownloadState) (in_flight : List ByteRange) (current_end : ℕ)
    → state.total_size + chunk_of state ≤ 2 ^ 64
    → Extension state in_flight current_end (segment_next_reserve_end state in_flight current_end)
unfolding segment_next_reserve_end
segment_next_reserve_end-Extension state in_flight ce fits =
    elim (Bool-cases (state.total_size == 0)) [
      | inl unknown ↦ stays (rw unknown)
      | inr known ↦ elim (Bool-cases (leb (state.total_size - 1) ce)) [
        | inl whole ↦ stays (rw (known, whole))
        | inr part ↦
            let s = next_start ce in
            let e = next_end state ce in
            let exact : s ≡ ce + 1 = ground arith in
            elim (Bool-cases (download_state_is_range_done state s e)) [
              | inl done ↦ stays (rw (known, part, done))
              | inr open_ ↦ elim (Bool-cases (range_overlaps_in_flight in_flight s e)) [
                | inl busy ↦ stays (rw (known, part, open_, busy))
                | inr idle ↦
                    rw (known, part, open_, idle)
                      (grows (ground arith) (ground arith) (ground arith)
                        (ap (λ (y : ℕ). download_state_is_range_done state y e) (sym exact) ∙ open_)
                        (λ x l u.
                          range_overlaps_in_flight-covers in_flight s e x idle (ground arith) u))
              ]
            ]
      ]
    ]
