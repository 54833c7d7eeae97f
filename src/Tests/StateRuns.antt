-- ===== src/Tests/StateRuns.antt =====
-- The state of a download at sample inputs.
use avar.Base.{[], arith, inl, none, refl, some, true, ℕ, ◌<◌, ◌↔◌, ◌∷◌, ◌≡◌, ◌≤◌}
use avar.Ranges.Lookup.{is_range_done_iff}
use avar.Ranges.Extent.{count_below, mark_range_comm}
use avar.State.Marking.{download_state_mark_range_done-Marked, download_state_mark_range_done_fails}
use avar.State.Growth.{grow_enough}
use avar.State.Progress.{Marked, is_done}
use avar.State.Sizes.{
  Resized, all_chunks_done-bytes_done, all_chunks_done_iff, bytes_done-count, init_chunks-Resized,
}
use avar.Ranges.Coverage.{covers}
use avar.State.{
  DownloadState, download_state_all_chunks_done, download_state_bytes_done,
  download_state_init_chunks, download_state_mark_range_done, ensure_range_capacity, grow,
  insert_sorted_range, store_merged,
}
use avar.Ranges.{
  absorb, clip_ranges, coalesce, insert_index, insert_sorted, is_range_done, lower_index,
  mark_range, sum_ranges,
}
use avar.Base.{[], arith, inl, none, refl, some, true, ℕ, ◌<◌, ◌↔◌, ◌∷◌, ◌≡◌, ◌≤◌}
use avar.Tests.Fixtures.{halfway, range, plenty, halfway-IsWellFormed}

-- Joining both ranges by the gap between them.
abbrev joined : DownloadState
joined = record halfway { done_ranges = range 0 399 ∷ [] }

mark_gap : download_state_mark_range_done plenty halfway 100 299 ≡ some joined
unfolding download_state_mark_range_done is_range_done lower_index absorb store_merged
mark_gap = refl

mark_past_end :
    download_state_mark_range_done plenty halfway 950 4000
    ≡ some (record halfway { done_ranges = range 0 99 ∷ range 300 399 ∷ range 950 999 ∷ [] })
unfolding download_state_mark_range_done is_range_done lower_index absorb store_merged
    insert_sorted_range ensure_range_capacity insert_sorted insert_index
mark_past_end = refl

bytes_done_run : download_state_bytes_done halfway ≡ 200
unfolding download_state_bytes_done sum_ranges
bytes_done_run = refl

mark_range_done_example : Marked halfway 100 299 joined
mark_range_done_example =
    download_state_mark_range_done-Marked plenty halfway 100 299 halfway-IsWellFormed (omega arith)
      (inl (omega arith)) mark_gap

mark_range_done_fails_example :
    (download_state_mark_range_done plenty halfway 7 3 ≡ none) ↔ (◌<◌ 3 7)
mark_range_done_fails_example = download_state_mark_range_done_fails plenty halfway 7 3 (λ n. refl)

is_range_done_example :
    (is_range_done halfway.done_ranges 310 350 ≡ true)
    ↔ ((x : ℕ) → 310 ≤ x → x ≤ 350 → covers halfway.done_ranges x ≡ true)
is_range_done_example = is_range_done_iff 0 halfway.done_ranges 310 350 (omega arith) (omega arith)

mark_range_comm_example :
    mark_range (mark_range halfway.done_ranges 50 150) 100 320
    ≡ mark_range (mark_range halfway.done_ranges 100 320) 50 150
mark_range_comm_example =
    mark_range_comm halfway.done_ranges 50 150 100 320 (omega arith) (omega arith) (omega arith)
      (omega arith) (omega arith)

bytes_done_example : download_state_bytes_done halfway ≡ count_below 1000 (is_done halfway)
bytes_done_example = bytes_done-count halfway-IsWellFormed (omega arith) (λ e. cc)

all_chunks_done_example :
    (download_state_all_chunks_done halfway ≡ true)
    ↔ ((x : ℕ) → x < 1000 → is_done halfway x ≡ true)
all_chunks_done_example = all_chunks_done_iff halfway-IsWellFormed (omega arith)

all_chunks_done_bytes_example :
    (download_state_all_chunks_done halfway ≡ true) ↔ (download_state_bytes_done halfway ≡ 1000)
all_chunks_done_bytes_example =
    all_chunks_done-bytes_done halfway-IsWellFormed (omega arith) (λ e. cc)

abbrev shrunk : DownloadState
shrunk = record halfway {
  total_size = 350;
  chunk_size = 50;
  done_ranges = range 0 99 ∷ range 300 349 ∷ [];
}

init_chunks_run : download_state_init_chunks halfway 350 50 ≡ some shrunk
unfolding download_state_init_chunks clip_ranges coalesce
init_chunks_run = refl

init_chunks_example : Resized halfway 350 shrunk
init_chunks_example =
    init_chunks-Resized halfway 350 50 halfway-IsWellFormed (omega arith) init_chunks_run

grow_example : 40 ≤ grow 64 4 40
grow_example = grow_enough 64 4 40 (omega arith) (omega arith) (omega arith)
