-- ===== src/State.antt =====
-- src/download_state.c and src/include/download_state.h: the state of one download and what
-- changes its completed ranges. A `char *` is an optional text, NULL being `none`.
pub mod Growth
pub mod Progress
pub mod Marking
pub mod Sizes
pub mod Saved
use mathlib.Core.Option
pub use avar.CString.{Text}
use avar.Base.{
  Bool, List, Option, [], add64, drop, false, if◌then◌else◌, leb, length, ltb, map, mul64, none,
  some, sub64, suc, take, zero, ℕ, ◌&&◌, ◌*◌, ◌++◌, ◌-◌, ◌/◌, ◌==◌, ◌∷◌,
}
use avar.Ranges.{
  ByteRange, Merge, lower_index, absorb, insert_sorted, clip_ranges, coalesce, is_range_done,
  sum_ranges,
}
use avar.Ranges

pub record DownloadState : Type 0 where
  pub id : Option Text
  pub url : Option Text
  pub filename : Option Text
  pub filename_inferred : Bool
  pub temp_path : Option Text
  pub dest_path : Option Text
  pub status : Option Text
  pub proxy : Option Text
  pub queued_at : Option Text
  pub last_try_at : Option Text
  pub description : Option Text
  pub original_page : Option Text
  pub referer : Option Text
  pub stream_kind : Option Text
  pub ts_segments : List Text
  pub added_through : Option Text
  pub queue_id : Option Text
  pub etag : Option Text
  pub last_modified : Option Text
  pub total_size : ℕ
  pub bytes_downloaded : ℕ
  pub chunk_size : ℕ
  pub done_ranges : List ByteRange
  pub done_range_capacity : ℕ

-- DL_CHUNK_SIZE
abbrev pub dl_chunk_size : ℕ
dl_chunk_size = 256 * 1024

abbrev pub chunk_size_or_default : ℕ → ℕ
chunk_size_or_default chunk_size = if ltb 0 chunk_size then chunk_size else dl_chunk_size

-- `while (new_cap < needed) new_cap *= 2U;` on fuel.
unfoldable pub grow : ℕ → ℕ → ℕ → ℕ
grow zero new_cap needed = new_cap
grow (suc fuel) new_cap needed =
    let rest = grow fuel (mul64 new_cap 2) needed in if ltb new_cap needed then rest else new_cap

-- A `ByteRange` is two `uint64_t`; `realloc` says whether a request for so many bytes succeeds.
-- `none` stands for the result -1, which leaves the state as it was.
unfoldable pub ensure_range_capacity :
    (realloc : ℕ → Bool) → DownloadState → ℕ → Option DownloadState
ensure_range_capacity realloc state needed =
    if leb needed state.done_range_capacity
    then some state
    else let first =
        if state.done_range_capacity == 0 then 4 else mul64 state.done_range_capacity 2 in
      let new_cap = grow 64 first needed in
      if realloc (mul64 new_cap 16)
      then some (record state { done_range_capacity = new_cap })
      else none

unfoldable pub insert_range : ByteRange → DownloadState → DownloadState
insert_range range grown = record grown { done_ranges = insert_sorted grown.done_ranges range }

unfoldable pub insert_sorted_range :
    (realloc : ℕ → Bool) → DownloadState → ByteRange → Option DownloadState
unfolding insert_range
insert_sorted_range realloc state range =
    Option.map (insert_range range)
      (ensure_range_capacity realloc state (add64 (length state.done_ranges) 1))

-- The end of `download_state_mark_range_done`: `lo` and `hi` are known.
unfoldable pub store_merged :
    (realloc : ℕ → Bool) → DownloadState → ℕ → Merge → Option DownloadState
store_merged realloc state lo m =
    if ltb lo m.hi
    then some (record state {
      done_ranges = take lo state.done_ranges ++ (m.merged ∷ drop m.hi state.done_ranges);
    })
    else insert_sorted_range realloc state m.merged

abbrev pub clamp_end : ℕ → ℕ → ℕ
clamp_end total_size end = if ltb 0 total_size && leb total_size end then total_size - 1 else end

unfoldable pub download_state_mark_range_done :
    (realloc : ℕ → Bool) → DownloadState → ℕ → ℕ → Option DownloadState
unfolding store_merged
download_state_mark_range_done realloc state start end =
    if ltb end start
    then none
    else if ltb 0 state.total_size && leb state.total_size start
    then some state
    else let last = clamp_end state.total_size end in
      if Ranges.is_range_done state.done_ranges start last
      then some state
      else let lo = lower_index state.done_ranges start in
        store_merged realloc state lo (absorb (drop lo state.done_ranges) lo start last)

unfoldable pub download_state_is_range_done : DownloadState → ℕ → ℕ → Bool
download_state_is_range_done state start end =
    if ltb end start then false else Ranges.is_range_done state.done_ranges start end

unfoldable pub download_state_segment_count : DownloadState → ℕ
download_state_segment_count state =
    if state.total_size == 0
    then 0
    else let chunk_size = chunk_size_or_default state.chunk_size in
      sub64 (add64 state.total_size chunk_size) 1 / chunk_size

unfoldable pub download_state_is_segment_done : DownloadState → ℕ → Bool
download_state_is_segment_done state segment_index =
    if state.total_size == 0
    then false
    else let chunk_size = chunk_size_or_default state.chunk_size in
      let start = mul64 segment_index chunk_size in
      let end = sub64 (add64 start chunk_size) 1 in
      download_state_is_range_done state start
        (if leb state.total_size end then state.total_size - 1 else end)

unfoldable pub clip_done_ranges : DownloadState → DownloadState
clip_done_ranges state = elim state.done_ranges [
  | [] ↦ state
  | r ∷ rs ↦ record state { done_ranges = coalesce (clip_ranges state.total_size (r ∷ rs)) }
]

-- `none` stands for the result -1.
unfoldable pub download_state_init_chunks : DownloadState → ℕ → ℕ → Option DownloadState
unfolding clip_done_ranges
download_state_init_chunks state total_size chunk_size =
    if total_size == 0
    then none
    else some (
        clip_done_ranges
          (record state { total_size = total_size; chunk_size = chunk_size_or_default chunk_size }))

unfoldable pub download_state_bytes_done : DownloadState → ℕ
download_state_bytes_done state = elim state.done_ranges [
  | [] ↦ state.bytes_downloaded
  | r ∷ rs ↦ Ranges.sum_ranges 0 (r ∷ rs)
]

unfoldable pub download_state_all_chunks_done : DownloadState → Bool
unfolding download_state_is_range_done
download_state_all_chunks_done state =
    if state.total_size == 0
    then false
    else download_state_is_range_done state 0 (state.total_size - 1)
