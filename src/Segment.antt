-- ===== src/Segment.antt =====
-- src/download_segment.c and src/include/download_segment.h: a file is cut into segments of the
-- chunk size, and the next ones to fetch are chosen among those that are not done.
-- `out_ranges[0 .. selected)` is a list, and a `SegmentRangePredicate` with its context is a
-- function, NULL being `none`.
pub mod Partition
pub mod Selection
pub mod Choice
pub mod Spread
pub mod Strategies
pub mod Reserve
use mathlib.Core.Option.{get_or}
use avar.Base.{
  Bool, List, Option, [], add64, false, if◌then◌else◌, leb, length, ltb, mul64, none, not, some,
  sub64, suc, true, zero, ℕ, ◌&&◌, ◌++◌, ◌+◌, ◌-◌, ◌/◌, ◌==◌, ◌||◌, ◌∷◌,
}
use avar.Ranges.{ByteRange}
use avar.State.{
  DownloadState, chunk_size_or_default, download_state_is_range_done,
  download_state_is_segment_done, download_state_segment_count,
}

pub data SegmentStrategy : Type 0 where
  balanced left_heavy : SegmentStrategy

pub record DownloadSegmentConfig : Type 0 where
  pub enabled : Bool
  pub strategy : SegmentStrategy
  pub concurrency : ℕ
  pub chunk_size : ℕ
  pub min_file_size : ℕ

abbrev pub Predicate : Type 0
Predicate = Option (ℕ → ℕ → Bool)

unfoldable pub segment_index_range : ℕ → ℕ → ℕ → ByteRange
segment_index_range total_size chunk_size segment_index =
    let segment_size = chunk_size_or_default chunk_size in
    let start = mul64 segment_index segment_size in
    let end = sub64 (add64 start segment_size) 1 in
    record {
      start = start;
      end = if ltb 0 total_size && leb total_size end then total_size - 1 else end;
    }

unfoldable pub segment_chunk_range : DownloadState → ℕ → ByteRange
unfolding segment_index_range
segment_chunk_range state segment_index =
    segment_index_range state.total_size (chunk_size_or_default state.chunk_size) segment_index

unfoldable pub segment_ranges_overlap : ℕ → ℕ → ℕ → ℕ → Bool
segment_ranges_overlap a_start a_end b_start b_end =
    if ltb a_end a_start || ltb b_end b_start then false else leb a_start b_end && leb b_start a_end

unfoldable pub range_overlaps_in_flight : List ByteRange → ℕ → ℕ → Bool
range_overlaps_in_flight [] start end = false
range_overlaps_in_flight (r ∷ rs) start end =
    let rest = range_overlaps_in_flight rs start end in
    if segment_ranges_overlap start end r.start r.end then true else rest

unfoldable pub segment_next_reserve_end : DownloadState → List ByteRange → ℕ → ℕ
segment_next_reserve_end state in_flight current_end =
    let chunk_size = chunk_size_or_default state.chunk_size in
    let total_end = state.total_size - 1 in
    let next_start = add64 current_end 1 in
    let chunk_end = sub64 (add64 next_start chunk_size) 1 in
    let next_end = if ltb total_end chunk_end then total_end else chunk_end in
    if state.total_size == 0
    then current_end
    else if leb total_end current_end
    then current_end
    else if download_state_is_range_done state next_start next_end
    then current_end
    else if range_overlaps_in_flight in_flight next_start next_end
    then current_end
    else next_end

unfoldable pub segment_should_enable : DownloadSegmentConfig → ℕ → Bool → Bool
segment_should_enable cfg total_size ranges_supported =
    if not cfg.enabled || not ranges_supported
    then false
    else if leb cfg.concurrency 1
    then false
    else if total_size == 0 || ltb total_size cfg.min_file_size
    then false
    else true

unfoldable pub range_selected : List ByteRange → ℕ → ℕ → Bool
range_selected [] start end = false
range_selected (r ∷ rs) start end =
    let rest = range_selected rs start end in
    if r.start == start && r.end == end then true else rest

-- `predicate == NULL || predicate(ctx, start, end)`
abbrev pub admits : Predicate → ByteRange → Bool
admits none r = true
admits (some p) r = p r.start r.end

-- `none` stands for false, which leaves `out_ranges` alone.
unfoldable pub try_select_segment :
    DownloadState → ℕ → Predicate → List ByteRange → Option (List ByteRange)
try_select_segment state segment_index predicate out =
    if download_state_is_segment_done state segment_index
    then none
    else let range = segment_chunk_range state segment_index in
      if admits predicate range then some (out ++ range ∷ []) else none

module _ (state : DownloadState) (predicate : Predicate) (max_count : ℕ) where
  -- The loop of `segment_select_left_heavy`, with the rounds that are left.
  unfoldable pub left_heavy_loop : ℕ → ℕ → List ByteRange → List ByteRange
  left_heavy_loop zero i out = out
  left_heavy_loop (suc rounds) i out =
      let rest =
        left_heavy_loop rounds (i + 1) (get_or (try_select_segment state i predicate out) out) in
      if ltb (length out) max_count then rest else out

  -- The inner loop of `segment_select_balanced`: the first segment of a bucket that can be had.
  unfoldable pub bucket_pick : ℕ → ℕ → List ByteRange → List ByteRange
  bucket_pick zero idx out = out
  bucket_pick (suc rounds) idx out =
      let rest = bucket_pick rounds (idx + 1) out in
      elim (try_select_segment state idx predicate out) [ some taken ↦ taken | none ↦ rest ]

  -- The loop over the buckets.
  unfoldable pub bucket_loop : ℕ → ℕ → ℕ → ℕ → List ByteRange → List ByteRange
  bucket_loop segment_count bucket_size zero bucket out = out
  bucket_loop segment_count bucket_size (suc rounds) bucket out =
      let bucket_start = mul64 bucket bucket_size in
      let reach = add64 bucket_start bucket_size in
      let bucket_end = if ltb reach segment_count then reach else segment_count in
      let rest =
        bucket_loop segment_count bucket_size rounds (bucket + 1)
          (bucket_pick (bucket_end - bucket_start) bucket_start out) in
      if ltb (length out) max_count then rest else out

  -- One round of the second loop.
  unfoldable pub fill_one : ℕ → List ByteRange → List ByteRange
  fill_one i out =
      let range = segment_chunk_range state i in
      if download_state_is_segment_done state i
      then out
      else if not (admits predicate range)
      then out
      else if range_selected out range.start range.end
      then out
      else out ++ range ∷ []

  unfoldable pub fill_loop : ℕ → ℕ → List ByteRange → List ByteRange
  fill_loop zero i out = out
  fill_loop (suc rounds) i out =
      let rest = fill_loop rounds (i + 1) (fill_one i out) in
      if ltb (length out) max_count then rest else out

unfoldable pub segment_select_left_heavy : DownloadState → ℕ → Predicate → List ByteRange
segment_select_left_heavy state max_count predicate =
    if max_count == 0 || state.total_size == 0
    then []
    else left_heavy_loop state predicate max_count (download_state_segment_count state) 0 []

unfoldable pub segment_select_balanced : DownloadState → ℕ → ℕ → Predicate → List ByteRange
segment_select_balanced state concurrency max_count predicate =
    let segment_count = download_state_segment_count state in
    let bucket_count = if ltb concurrency segment_count then concurrency else segment_count in
    let bucket_size = sub64 (add64 segment_count bucket_count) 1 / bucket_count in
    if max_count == 0 || concurrency == 0 || state.total_size == 0
    then []
    else if segment_count == 0
    then []
    else let spread =
        bucket_loop state predicate max_count segment_count bucket_size bucket_count 0 [] in
      if ltb (length spread) max_count
      then fill_loop state predicate max_count segment_count 0 spread
      else spread

unfoldable pub segment_select_chunks :
    DownloadSegmentConfig → DownloadState → ℕ → Predicate → List ByteRange
segment_select_chunks cfg state max_count predicate = elim cfg.strategy [
  | left_heavy ↦ segment_select_left_heavy state max_count predicate
  | balanced ↦ segment_select_balanced state cfg.concurrency max_count predicate
]
