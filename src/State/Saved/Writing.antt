-- ===== src/State/Saved/Writing.antt =====
-- src/download_state.c: `download_state_save`, and the progress that clients are shown.
use mathlib.Core.Option
use mathlib.Core.Option.{get_or}
use avar.Base.{
  Bool, List, Option, [], false, if◌then◌else◌, map, none, not, some, true, ◌==◌, ◌||◌, ◌∷◌,
}
use avar.CString.{Text, lit}
use avar.Cjson.{Cjson}
use avar.Ranges.{ByteRange}
use avar.State.{DownloadState, Text}
use avar.State.Saved.{string_or_null}

module _ ⦃cj : Cjson⦄ where
  open cj use {
    Json, JsonText, print, new_bool, new_number, new_string, new_object, new_array, add_item,
    delete_item,
  }

  -- A member is added where there is a value.
  abbrev pub add_each : Json → List (Text × Option Json) → Json
  add_each obj [] = obj
  add_each obj ((key, none) ∷ members) = add_each obj members
  add_each obj ((key, some value) ∷ members) = add_each (add_item obj key value) members

  abbrev pub range_pair : ByteRange → Json
  range_pair r = new_array (new_number r.start ∷ new_number r.end ∷ [])

  abbrev pub segments_json : List Text → Option Json
  segments_json [] = none
  segments_json (url ∷ urls) = some (new_array (map new_string (url ∷ urls)))

  -- The members of the document, in their order.
  abbrev pub state_members : DownloadState → List (Text × Option Json)
  state_members state =
      (lit "id", some (string_or_null state.id))
      ∷ (lit "url", some (string_or_null state.url))
      ∷ (lit "filename", some (string_or_null state.filename))
      ∷ (lit "filenameInferred", some (new_bool state.filename_inferred))
      ∷ (lit "status", some (string_or_null state.status))
      ∷ (lit "proxy", some (string_or_null state.proxy))
      ∷ (lit "bytesDownloaded", some (new_number state.bytes_downloaded))
      ∷ (lit "totalBytes", some (new_number state.total_size))
      ∷ (lit "queuedAt", some (string_or_null state.queued_at))
      ∷ (lit "lastTryAt", some (string_or_null state.last_try_at))
      ∷ (lit "description", some (string_or_null state.description))
      ∷ (lit "originalPage", some (string_or_null state.original_page))
      ∷ (lit "referer", some (string_or_null state.referer))
      ∷ (lit "streamKind", some (string_or_null state.stream_kind))
      ∷ (lit "tsSegments", segments_json state.ts_segments)
      ∷ (lit "addedThrough", some (new_string (get_or state.added_through (lit "direct"))))
      ∷ (lit "queueId", some (string_or_null state.queue_id))
      ∷ (lit "temp_path", Option.map new_string state.temp_path)
      ∷ (lit "dest_path", Option.map new_string state.dest_path)
      ∷ (lit "etag", Option.map new_string state.etag)
      ∷ (lit "lastModified", Option.map new_string state.last_modified)
      ∷ (lit "chunk_size", some (new_number state.chunk_size))
      ∷ (lit "done_ranges", some (new_array (map range_pair state.done_ranges)))
      ∷ []

  unfoldable pub state_object : DownloadState → Json
  state_object state = add_each new_object (state_members state)

  -- The file of a state and the temporary file beside it.
  pub record StateFiles : Type 0 where
    pub saved : Option JsonText
    pub temporary : Option JsonText

  -- What the system allows: `download_io_state_write_allowed`, `fopen`, the whole write with its sync, and
  -- `rename`.
  pub record Writable : Type 0 where
    pub allowed : Bool
    pub opened : Bool
    pub written : Bool
    pub renamed : Bool

  unfoldable pub download_state_save : Writable → DownloadState → StateFiles → Bool × StateFiles
  unfolding state_object
  download_state_save system state files =
      if not system.allowed || not system.opened
      then (false, files)
      else if not system.written || not system.renamed
      then (false, record files { temporary = none })
      else (true, record { saved = some (print (state_object state)); temporary = none })

  unfoldable pub download_state_add_json_progress : Json → DownloadState → Json
  download_state_add_json_progress obj state =
      if state.total_size == 0 || state.chunk_size == 0
      then obj
      else add_item
          (add_item (delete_item (delete_item obj (lit "chunkSize")) (lit "doneRanges"))
            (lit "chunkSize") (new_number state.chunk_size))
          (lit "doneRanges") (new_array (map range_pair state.done_ranges))
