-- ===== src/Download/Slots.antt =====
-- src/download.c: the slots of a job, one for each connection, and the bytes that are written
-- through them.
pub mod Inside
pub mod Enough
use mathlib.Core.Option
use avar.Base.{
  Bool, List, Option, [], add64, false, get_elem?, if◌then◌else◌, leb, ltb, none, not, some, sub64,
  suc, take, true, uint64_max, zero, ℕ, ◌&&◌, ◌+◌, ◌-◌, ◌==◌, ◌||◌, ◌∷◌,
}
use avar.Ranges.{ByteRange}
use avar.State.{DownloadState, download_state_is_segment_done, download_state_segment_count}
use avar.Segment.{
  DownloadSegmentConfig, range_overlaps_in_flight, segment_chunk_range, segment_next_reserve_end,
  segment_select_chunks,
}

-- `conn` is the connection, if any.
pub record ChunkSlot : Type 0 where
  pub conn : Option ℕ
  pub range_start : ℕ
  pub range_end : ℕ
  pub reserved_end : ℕ
  pub chunk_write_offset : ℕ
  pub chunk_received : ℕ
  pub chunk_expected : ℕ
  pub response_remaining : ℕ
  pub persisted_received : ℕ
  pub last_activity_ms : ℕ
  pub headers_received : Bool
  pub streaming : Bool
  pub request_sent : Bool
  pub keep_alive : Bool
  pub continuous : Bool
  pub draining : Bool
  pub in_use : Bool

-- `memset(slot, 0, sizeof(*slot))`
abbrev pub no_slot : ChunkSlot
no_slot = record {
  conn = none;
  range_start = 0;
  range_end = 0;
  reserved_end = 0;
  chunk_write_offset = 0;
  chunk_received = 0;
  chunk_expected = 0;
  response_remaining = 0;
  persisted_received = 0;
  last_activity_ms = 0;
  headers_received = false;
  streaming = false;
  request_sent = false;
  keep_alive = false;
  continuous = false;
  draining = false;
  in_use = false;
}

-- DL_MAX_SEGMENT_CONCURRENCY
abbrev pub max_concurrency : ℕ
max_concurrency = 32

unfoldable pub next_segment_from : ℕ → DownloadState → ℕ → Option ByteRange
unfolding download_state_is_segment_done segment_chunk_range
next_segment_from zero state i = none
next_segment_from (suc rounds) state i =
    let rest = next_segment_from rounds state (i + 1) in
    if download_state_is_segment_done state i then rest else some (segment_chunk_range state i)

unfoldable pub next_pending_segment : DownloadState → Option ByteRange
unfolding next_segment_from download_state_segment_count
next_pending_segment state =
    if state.total_size == 0
    then none
    else next_segment_from (download_state_segment_count state) state 0

-- The index of the slot.
unfoldable pub chunk_slot_find : List ChunkSlot → ℕ → Option ℕ
chunk_slot_find [] c = none
chunk_slot_find (slot ∷ slots) c =
    let rest = Option.map suc (chunk_slot_find slots c) in
    if slot.in_use && elim slot.conn [ none ↦ false | some conn ↦ conn == c ] then some 0 else rest

-- The index of the slot, and the slots with it.
unfoldable pub chunk_slot_acquire : List ChunkSlot → Bool → ℕ → ℕ → ℕ → Option (ℕ × List ChunkSlot)
chunk_slot_acquire [] segment_mode now range_start range_end = none
chunk_slot_acquire (slot ∷ slots) segment_mode now range_start range_end =
    let rest =
      Option.map (λ found. (suc found.0, slot ∷ found.1))
        (chunk_slot_acquire slots segment_mode now range_start range_end) in
    let fresh = record no_slot {
      in_use = true;
      range_start = range_start;
      range_end = range_end;
      reserved_end = range_end;
      continuous = segment_mode;
      keep_alive = segment_mode;
      last_activity_ms = now;
    } in
    if slot.in_use then rest else some (0, fresh ∷ slots)

unfoldable pub chunk_slot_release : List ChunkSlot → ℕ → List ChunkSlot
chunk_slot_release [] i = []
chunk_slot_release (slot ∷ slots) zero = no_slot ∷ slots
chunk_slot_release (slot ∷ slots) (suc i) = slot ∷ chunk_slot_release slots i

unfoldable pub count_active_slots : List ChunkSlot → ℕ
count_active_slots [] = 0
count_active_slots (slot ∷ slots) =
    let rest = count_active_slots slots in if slot.in_use then rest + 1 else rest

abbrev pub touch_slot_activity : ChunkSlot → ℕ → ChunkSlot
touch_slot_activity slot now = record slot { last_activity_ms = now }

abbrev pub slot_begin_draining : ChunkSlot → ChunkSlot
slot_begin_draining slot = record slot { draining = true; streaming = false }

-- Without the flag in the data of the connection, which it clears.
abbrev pub slot_reset_for_request : ChunkSlot → ℕ → ℕ → ℕ → ChunkSlot
slot_reset_for_request slot now range_start range_end = record slot {
  range_start = range_start;
  range_end = range_end;
  reserved_end = range_end;
  chunk_write_offset = range_start;
  chunk_received = 0;
  chunk_expected = 0;
  response_remaining = 0;
  persisted_received = 0;
  headers_received = false;
  streaming = false;
  draining = false;
  request_sent = false;
  last_activity_ms = now;
}

-- The reservations of the slots in use but one, from an index on.
abbrev pub in_flight_from : List ChunkSlot → ℕ → ℕ → List ByteRange
in_flight_from [] i exclude = []
in_flight_from (slot ∷ slots) i exclude =
    let rest = in_flight_from slots (i + 1) exclude in
    if not slot.in_use || i == exclude
    then rest
    else record { start = slot.range_start; end = slot.reserved_end } ∷ rest

unfoldable pub slot_collect_in_flight : List ChunkSlot → ℕ → ℕ → List ByteRange
slot_collect_in_flight slots exclude max_count = take max_count (in_flight_from slots 0 exclude)

unfoldable pub range_in_flight_predicate : List ChunkSlot → ℕ → ℕ → ℕ → Bool
unfolding range_overlaps_in_flight
range_in_flight_predicate slots exclude start end =
    not (range_overlaps_in_flight (in_flight_from slots 0 exclude) start end)

unfoldable pub slot_pick_next_range :
    DownloadSegmentConfig → DownloadState → List ChunkSlot → ℕ → Option ByteRange
unfolding segment_select_chunks range_in_flight_predicate
slot_pick_next_range seg_cfg state slots i =
    get_elem? (segment_select_chunks seg_cfg state 1 (some (range_in_flight_predicate slots i))) 0

unfoldable pub slot_bytes_remaining : ChunkSlot → ℕ
slot_bytes_remaining slot =
    let pos = add64 slot.range_start slot.chunk_received in
    if slot.continuous
    then (if ltb slot.reserved_end pos then 0 else add64 (sub64 slot.reserved_end pos) 1)
    else if slot.chunk_expected == 0
    then uint64_max
    else if leb slot.chunk_expected slot.chunk_received
    then 0
    else slot.chunk_expected - slot.chunk_received

-- The slot is the one at the index `i`; what `slots` has there is not read.
unfoldable pub slot_try_extend_reservation :
    DownloadState → List ChunkSlot → ℕ → ChunkSlot → Bool × ChunkSlot
unfolding slot_collect_in_flight segment_next_reserve_end
slot_try_extend_reservation state slots i slot =
    let in_flight = slot_collect_in_flight slots i max_concurrency in
    let extended = segment_next_reserve_end state in_flight slot.reserved_end in
    if not slot.continuous || leb extended slot.reserved_end
    then (false, slot)
    else (true, record slot { reserved_end = extended; range_end = extended })

abbrev pub available : ChunkSlot → ℕ → ℕ
available slot pos = add64 (sub64 slot.reserved_end pos) 1

-- The loop of `slot_prepare_write`, on fuel.
unfoldable pub extend_for : ℕ → DownloadState → List ChunkSlot → ℕ → ℕ → ℕ → ChunkSlot → ChunkSlot
unfolding slot_try_extend_reservation
extend_for zero state slots i pos len slot = slot
extend_for (suc fuel) state slots i pos len slot =
    let (extended, next) = slot_try_extend_reservation state slots i slot in
    let rest = extend_for fuel state slots i pos len next in
    if ltb (available slot pos) len && extended then rest else slot

-- The result, `*len` and the slot. A reservation grows at most to the end of the file.
unfoldable pub slot_prepare_write :
    DownloadState → List ChunkSlot → ℕ → ChunkSlot → ℕ → Bool × (ℕ × ChunkSlot)
unfolding extend_for
slot_prepare_write state slots i slot len =
    let pos = add64 slot.range_start slot.chunk_received in
    let slot' = extend_for state.total_size state slots i pos len slot in
    let avail = available slot' pos in
    let kept = if ltb avail len then avail else len in
    if len == 0
    then (false, (0, slot))
    else if not slot.continuous
    then (true, (len, slot))
    else if ltb slot.reserved_end pos
    then (false, (0, slot))
    else (ltb 0 kept, (kept, slot'))

-- The bytes that `write_at_offset` is asked to write, and what is left of the call.
pub record BodyWrite : Type 0 where
  pub result : Bool
  pub offset : ℕ
  pub count : ℕ
  -- What is added to `job->bytes_since_persist`.
  pub unpersisted : ℕ
  pub slot : ChunkSlot

-- The end of `slot_write_body`, for so many bytes. `written` is what `write_at_offset` returns.
unfoldable pub write_bytes : Bool → ℕ → ChunkSlot → ℕ → BodyWrite
write_bytes written now slot len =
    let offset = add64 slot.chunk_write_offset slot.chunk_received in
    let after = record slot {
      chunk_received = add64 slot.chunk_received len;
      response_remaining =
          if leb len slot.response_remaining then slot.response_remaining - len else 0;
      last_activity_ms = now;
    } in
    if len == 0
    then record { result = true; offset = offset; count = 0; unpersisted = 0; slot = slot }
    else record {
      result = written;
      offset = offset;
      count = len;
      unpersisted = if written then len else 0;
      slot = if written then after else slot;
    }

unfoldable pub slot_write_body :
    (written : Bool) → ℕ → DownloadState → List ChunkSlot → ℕ → ChunkSlot → ℕ → BodyWrite
unfolding slot_prepare_write slot_bytes_remaining write_bytes
slot_write_body written now state slots i slot len =
    let (ready, prepared) = slot_prepare_write state slots i slot len in
    let remaining = slot_bytes_remaining prepared.1 in
    let kept =
      if not (remaining == uint64_max) && ltb remaining prepared.0 then remaining else prepared.0 in
    if ready then write_bytes written now prepared.1 kept else record {
      result = prepared.0 == 0;
      offset = 0;
      count = 0;
      unpersisted = 0;
      slot = prepared.1;
    }
