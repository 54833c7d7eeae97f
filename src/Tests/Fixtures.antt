-- ===== src/Tests/Fixtures.antt =====
-- Sample data.
use avar.Base.{Bool, [], arith, none, true, ℕ, ◌∷◌}
use avar.Ranges.{ByteRange}
use avar.State.{DownloadState}
use avar.State.Progress.{IsWellFormed}
use avar.Segment.Partition.{IsSized}
use avar.Ranges.Coverage.{covers}

abbrev pub range : ℕ → ℕ → ByteRange
range start end = record { start = start; end = end }

-- A file of 1000 bytes in chunks of 100, with two chunks on disk.
abbrev pub halfway : DownloadState
halfway = record {
  id = none;
  url = none;
  filename = none;
  filename_inferred = true;
  temp_path = none;
  dest_path = none;
  status = none;
  proxy = none;
  queued_at = none;
  last_try_at = none;
  description = none;
  original_page = none;
  referer = none;
  stream_kind = none;
  ts_segments = [];
  added_through = none;
  queue_id = none;
  etag = none;
  last_modified = none;
  total_size = 1000;
  bytes_downloaded = 200;
  chunk_size = 100;
  done_ranges = range 0 99 ∷ range 300 399 ∷ [];
  done_range_capacity = 4;
}

pub halfway-IsWellFormed : IsWellFormed halfway
halfway-IsWellFormed = record {
  gapped = omega arith;
  in_size = λ x h. unfold covers in ground arith;
  room = omega arith;
  size_fits = omega arith;
}

pub halfway-IsSized : IsSized halfway
halfway-IsSized = record { positive = omega arith; no_wrap = omega arith; chunk_fits = omega arith }

-- A `realloc` that always succeeds.
abbrev pub plenty : ℕ → Bool
plenty n = true
