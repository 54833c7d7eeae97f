-- ===== src/State/Saved.antt =====
-- src/download_state.c: a state as a JSON document, read from and written to a file. The
-- allocation of texts and arrays of texts is taken to succeed.
pub mod Writing
pub mod Members
pub mod Loading
pub mod RoundTrip
pub mod Reload
use mathlib.Core.Option
use mathlib.Core.Option.{get_or}
use avar.Base.{
  Bool, List, Option, [], add64, false, if◌then◌else◌, ltb, mul64, none, not, some, sub64, suc,
  true, zero, ℕ, ◌&&◌, ◌+◌, ◌==◌, ◌||◌, ◌∷◌,
}
use avar.Proxy.{is_empty}
use avar.State.{
  DownloadState, chunk_size_or_default, clamp_end, clip_done_ranges, dl_chunk_size,
  download_state_mark_range_done, download_state_segment_count, Text,
}
use avar.CString.{Text, lit, str_eq, has_prefix, is_some}
use avar.Cjson.{Cjson}

-- src/download.c
unfoldable pub download_status_is_valid : Text → Bool
download_status_is_valid status =
    not (is_empty status)
    && not (has_prefix status (lit "dl-"))
    && (str_eq status (lit "queued")
        || str_eq status (lit "downloading")
        || str_eq status (lit "paused")
        || str_eq status (lit "stopped")
        || str_eq status (lit "completed")
        || str_eq status (lit "failed"))

-- `calloc(1, sizeof(*state))`
abbrev pub blank : DownloadState
blank = record {
  id = none;
  url = none;
  filename = none;
  filename_inferred = false;
  temp_path = none;
  dest_path = none;
  status = none;
  proxy = none;
  queued_at = none;
  last_try_at = none;
  description = none;
  original_page = none;
  referer = none;
  stream_kind = none;
  ts_segments = [];
  added_through = none;
  queue_id = none;
  etag = none;
  last_modified = none;
  total_size = 0;
  bytes_downloaded = 0;
  chunk_size = 0;
  done_ranges = [];
  done_range_capacity = 0;
}

unfoldable pub download_state_create :
    Option Text → Option Text → Option Text → Option Text → ℕ → ℕ → DownloadState
download_state_create url filename temp_path dest_path total_size chunk_size = record blank {
  url = url;
  filename = filename;
  filename_inferred = true;
  temp_path = temp_path;
  dest_path = dest_path;
  added_through = some (lit "direct");
  total_size = total_size;
  chunk_size = chunk_size_or_default chunk_size;
}

module _ ⦃cj : Cjson⦄ where
  open cj use {
    Json, JsonText, print, parse, new_null, new_bool, new_number, new_string, new_object, new_array,
    is_object, string_value, number_value, bool_value, array_items, get_item, add_item, delete_item,
  }

  unfoldable pub json_get_string : Json → Text → Option Text
  json_get_string obj key = Option.bind (get_item obj key) string_value

  unfoldable pub json_get_u64 : Json → Text → ℕ
  json_get_u64 obj key = get_or (Option.bind (get_item obj key) number_value) 0

  abbrev pub string_or_null : Option Text → Json
  string_or_null none = new_null
  string_or_null (some text) = new_string text

  -- A `double` array item and the next one, of an array of two or more.
  abbrev pub pair_of : Json → Option (ℕ × ℕ)
  pair_of item = elim (array_items item) [
    | some (start_item ∷ end_item ∷ more) ↦ elim (number_value start_item) [
      | none ↦ none
      | some start ↦ Option.map (λ end. (start, end)) (number_value end_item)
    ]
    | _ ↦ none
  ]

  module _ (realloc : ℕ → Bool) where
    -- The loop of `load_done_ranges`.
    unfoldable pub load_done_ranges : DownloadState → List Json → Option DownloadState
    unfolding download_state_mark_range_done
    load_done_ranges state [] = some state
    load_done_ranges state (item ∷ items) = elim (pair_of item) [
      | none ↦ load_done_ranges state items
      | some (start, end) ↦ elim (download_state_mark_range_done realloc state start end) [
        | none ↦ none
        | some marked ↦ load_done_ranges marked items
      ]
    ]

    -- The loop of `load_legacy_chunks` from an index on, for so many rounds.
    unfoldable pub load_chunks_from : ℕ → DownloadState → List Json → ℕ → Option DownloadState
    unfolding download_state_mark_range_done
    load_chunks_from zero state items i = some state
    load_chunks_from (suc rounds) state [] i = some state
    load_chunks_from (suc rounds) state (item ∷ items) i =
        let chunk_size = chunk_size_or_default state.chunk_size in
        let start = mul64 i chunk_size in
        let end = sub64 (add64 start chunk_size) 1 in
        let marked =
          download_state_mark_range_done realloc state start (clamp_end state.total_size end) in
        let skipped = load_chunks_from rounds state items (i + 1) in
        if get_or (bool_value item) false
        then Option.bind marked (λ next. load_chunks_from rounds next items (i + 1))
        else skipped

    unfoldable pub load_legacy_chunks : DownloadState → Option Json → ℕ → Option DownloadState
    unfolding load_chunks_from
    load_legacy_chunks state chunks chunk_count = elim (Option.bind chunks array_items) [
      | none ↦ some state
      | some items ↦ load_chunks_from chunk_count state items 0
    ]

  abbrev pub texts_of : List Json → List Text
  texts_of [] = []
  texts_of (item ∷ items) = elim (string_value item) [
    | none ↦ texts_of items
    | some text ↦ text ∷ texts_of items
  ]

  -- `none` where the member is there and is no array.
  unfoldable pub load_ts_segments : Option Json → Option (List Text)
  load_ts_segments none = some []
  load_ts_segments (some segments) = Option.map texts_of (array_items segments)

  abbrev pub valid_status : Option Text → Option Text
  valid_status none = none
  valid_status (some status) = if download_status_is_valid status then some status else none

  abbrev pub total_size_of : Json → ℕ
  total_size_of root =
      let total = json_get_u64 root (lit "totalBytes") in
      if total == 0 then json_get_u64 root (lit "total_size") else total

  abbrev pub chunk_size_of : Json → ℕ
  chunk_size_of root = elim (Option.bind (get_item root (lit "chunk_size")) number_value) [
    | none ↦ dl_chunk_size
    | some size ↦ chunk_size_or_default size
  ]

  -- Every member but the ranges.
  unfoldable pub read_fields : Json → List Text → DownloadState
  unfolding json_get_string json_get_u64 download_status_is_valid
  read_fields root ts_segments = record blank {
    id = json_get_string root (lit "id");
    url = json_get_string root (lit "url");
    filename = json_get_string root (lit "filename");
    filename_inferred =
        get_or (Option.bind (get_item root (lit "filenameInferred")) bool_value) true;
    temp_path = json_get_string root (lit "temp_path");
    dest_path = json_get_string root (lit "dest_path");
    status = valid_status (json_get_string root (lit "status"));
    proxy = json_get_string root (lit "proxy");
    queued_at = json_get_string root (lit "queuedAt");
    last_try_at = json_get_string root (lit "lastTryAt");
    description = json_get_string root (lit "description");
    original_page = json_get_string root (lit "originalPage");
    referer = json_get_string root (lit "referer");
    stream_kind = json_get_string root (lit "streamKind");
    ts_segments = ts_segments;
    added_through = json_get_string root (lit "addedThrough");
    queue_id = json_get_string root (lit "queueId");
    etag = json_get_string root (lit "etag");
    last_modified = json_get_string root (lit "lastModified");
    total_size = total_size_of root;
    bytes_downloaded = json_get_u64 root (lit "bytesDownloaded");
    chunk_size = chunk_size_of root;
  }

  -- The ranges, or the flags of the chunks of an older file.
  unfoldable pub read_ranges : (realloc : ℕ → Bool) → DownloadState → Json → Option DownloadState
  unfolding load_done_ranges load_legacy_chunks download_state_segment_count
  read_ranges realloc state root =
      let chunk_count =
        elim (Option.bind (get_item root (lit "chunk_count")) number_value) as (λ x. ℕ) [
          | some count ↦ count
          | none ↦ if ltb 0 state.total_size then download_state_segment_count state else 0
        ] in
      elim (Option.bind (get_item root (lit "done_ranges")) array_items) [
        | some items ↦ load_done_ranges realloc state items
        | none ↦ load_legacy_chunks realloc state (get_item root (lit "chunks")) chunk_count
      ]

  -- The end of `download_state_load`.
  unfoldable pub finish_load : DownloadState → Option DownloadState
  unfolding clip_done_ranges
  finish_load state =
      let clipped = clip_done_ranges state in
      if is_some state.url && is_some state.filename && is_some state.dest_path
      then some
          (record clipped { added_through = some (get_or state.added_through (lit "direct")) })
      else none

  unfoldable pub restore : (realloc : ℕ → Bool) → Json → Option DownloadState
  unfolding load_ts_segments read_fields read_ranges finish_load
  restore realloc root = elim (load_ts_segments (get_item root (lit "tsSegments"))) [
    | none ↦ none
    | some segments ↦ Option.bind (read_ranges realloc (read_fields root segments) root) finish_load
  ]

  -- The argument is what the file holds, where it can be read and is not empty.
  unfoldable pub download_state_load : (realloc : ℕ → Bool) → Option JsonText → Option DownloadState
  unfolding restore
  download_state_load realloc none = none
  download_state_load realloc (some text) = elim (parse text) [
    | none ↦ none
    | some root ↦ if is_object root then restore realloc root else none
  ]
