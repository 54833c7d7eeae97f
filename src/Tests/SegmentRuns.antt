-- ===== src/Tests/SegmentRuns.antt =====
-- The choice of segments at sample inputs.
use avar.Base.{[], arith, none, refl, true, ℕ, ◌/◌, ◌<◌, ◌==◌, ◌∷◌, ◌≡◌}
use avar.Segment.Selection.{IsSelection}
use avar.Segment.Strategies.{segment_select_chunks-IsSelection}
use avar.State.{
  download_state_is_range_done, download_state_is_segment_done, download_state_segment_count,
}
use avar.Ranges.{is_range_done}
use avar.Segment.{
  DownloadSegmentConfig, balanced, bucket_loop, bucket_pick, fill_loop, fill_one, left_heavy_loop,
  range_selected, segment_chunk_range, segment_next_reserve_end, segment_select_balanced,
  segment_select_chunks, segment_select_left_heavy, try_select_segment,
}
use avar.Segment.Partition.{segment_partition}
use avar.Segment.Reserve.{Extension, segment_next_reserve_end-Extension}
use avar.Ranges.Coverage.{holds}
use avar.Tests.Fixtures.{halfway, range, halfway-IsSized}

abbrev spread_config : DownloadSegmentConfig
spread_config = record {
  enabled = true;
  strategy = balanced;
  concurrency = 4;
  chunk_size = 100;
  min_file_size = 0;
}

balanced_run :
    segment_select_balanced halfway 4 4 none
    ≡ range 100 199 ∷ range 400 499 ∷ range 600 699 ∷ range 900 999 ∷ []
unfolding segment_select_balanced bucket_loop bucket_pick fill_loop fill_one try_select_segment
    segment_chunk_range download_state_segment_count download_state_is_segment_done
    download_state_is_range_done is_range_done range_selected
balanced_run = refl

left_heavy_run :
    segment_select_left_heavy halfway 3 none ≡ range 100 199 ∷ range 200 299 ∷ range 400 499 ∷ []
unfolding segment_select_left_heavy left_heavy_loop try_select_segment segment_chunk_range
    download_state_segment_count download_state_is_segment_done download_state_is_range_done
    is_range_done
left_heavy_run = refl

segment_select_chunks_example :
    IsSelection halfway none 4 (segment_select_chunks spread_config halfway 4 none)
segment_select_chunks_example =
    segment_select_chunks-IsSelection spread_config halfway 4 none halfway-IsSized (omega arith)
      (omega arith)

segment_partition_example :
    (420 / 100 < download_state_segment_count halfway)
    × ((i : ℕ)
        → i < download_state_segment_count halfway
        → holds (segment_chunk_range halfway i) 420 ≡ (420 / 100 == i))
segment_partition_example = segment_partition halfway halfway-IsSized 420 (omega arith)

reserve_example :
    Extension halfway
      (range 600 650 ∷ [])
      499
      (segment_next_reserve_end halfway (range 600 650 ∷ []) 499)
reserve_example = segment_next_reserve_end-Extension halfway (range 600 650 ∷ []) 499 (omega arith)
