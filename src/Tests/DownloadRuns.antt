-- ===== src/Tests/DownloadRuns.antt =====
-- Identifiers of downloads, and an item that is stored.
use mathlib.Core.Option
use avar.Base.{
  List, [], arith, false, if◌then◌else◌, inl, ltb, refl, some, true, ◌&&◌, ◌++◌, ◌+◌, ◌<◌, ◌∷◌, ◌≡◌,
  ◌≢◌, ◌≤◌,
}
use avar.State.{download_state_is_range_done, Text}
use avar.Segment.{range_overlaps_in_flight, segment_ranges_overlap}
use avar.Download.Slots.Inside.{IsReserved, others, slot_write_body-inside}
use avar.Download.Slots.{
  BodyWrite, ChunkSlot, no_slot, slot_collect_in_flight, slot_write_body, available, extend_for,
  slot_try_extend_reservation,
}
use avar.Base.{
  List, [], arith, false, if◌then◌else◌, inl, ltb, refl, some, true, ◌&&◌, ◌++◌, ◌+◌, ◌<◌, ◌∷◌, ◌≡◌,
  ◌≢◌, ◌≤◌,
}
use avar.Download.Slots.Enough.{extend_for_enough}
use avar.Download.Slots.{
  available, extend_for, slot_try_extend_reservation, BodyWrite, ChunkSlot, no_slot,
  slot_collect_in_flight, slot_write_body,
}
use avar.Download.Upsert.{store_item-items}
use avar.Config.Arrays.Laws.{IsArrayAt}
use avar.Config.Arrays.{item_matches, items_at, replace_first, get_config_array_item_field}
use avar.Queue.{items_key}
use avar.Download.{store_item}
use avar.Config.{split_key}
use avar.CString.{Text, lit}
use avar.Download.Snowflake.{
  Readings, Snowflake, download_generate_id, download_generate_id-unused, download_snowflake_mix,
  download_snowflake_next, download_snowflake_next-rank, id_text, rank, raw_id,
}
use avar.Tests.Fixtures.{halfway}
use avar.Ranges.{is_range_done}
use avar.Download.Slots.Inside.{others, IsReserved, slot_write_body-inside}
use avar.Ranges.Coverage.{covers}
use avar.Tests.Documents.{documents, Document, documents-IsLawful, busy, dm, item}

abbrev fresh : Snowflake
fresh = record { last_ms = 2000000000000; sequence = 4095; machine_id = 7 }

abbrev waited : Snowflake
waited = record { last_ms = 2000000000002; sequence = 0; machine_id = 7 }

-- The counter is used up, and the clock stands still for one reading.
waited_run :
    download_snowflake_next fresh 2000000000000 (2000000000000 ∷ 2000000000002 ∷ [])
    ≡ some (raw_id waited, waited)
unfolding download_snowflake_next
waited_run = refl

download_snowflake_next-rank_example :
    (rank fresh < rank waited) × (waited.sequence < 4096) × (waited.machine_id ≡ fresh.machine_id)
download_snowflake_next-rank_example =
    download_snowflake_next-rank fresh 2000000000000 (2000000000000 ∷ 2000000000002 ∷ [])
      (raw_id waited) waited (omega arith) waited_run

abbrev attempts : List Readings
attempts = (2000000000001, []) ∷ []

abbrev made : Text
made =
    id_text
      (download_snowflake_mix (raw_id (record fresh { last_ms = 2000000000001; sequence = 0 })))

made_run : (download_generate_id busy fresh attempts).0 ≡ some made
unfolding download_generate_id items_at Option.bind
made_run = refl

download_generate_id-unused_example :
    get_config_array_item_field busy items_key 1 (lit "id") ≢ some made
download_generate_id-unused_example =
    download_generate_id-unused busy fresh attempts made 1 made_run

items_found : IsArrayAt false busy.root (split_key items_key) dm (lit "items")
unfolding split_key Option.bind
items_found = record { reached = refl; object = refl; array = inl (_, refl) }

abbrev paused_b : Document
paused_b = item (lit "b") (lit "q1") (lit "paused")

abbrev with_paused : List Document
with_paused =
    item (lit "a") (lit "q1") (lit "downloading")
    ∷ paused_b
    ∷ item (lit "c") (lit "q2") (lit "queued")
    ∷ []

b_found :
    replace_first (item_matches (lit "id") (lit "b")) paused_b (items_at busy items_key)
    ≡ some with_paused
unfolding replace_first item_matches items_at split_key Option.bind
b_found = refl

-- The first write fails.
store_item-items_example :
    items_at (store_item (λ n. false) busy (lit "b") paused_b).1 items_key
    ≡ (if false then with_paused else with_paused ++ paused_b ∷ [])
store_item-items_example =
    store_item-items documents-IsLawful (λ n. false) busy (lit "b") paused_b with_paused dm
      (lit "items") items_found refl b_found

-- Two slots of a job for a file of 1000 bytes in chunks of 100; the first has received 80 bytes.
abbrev writing : ChunkSlot
writing = record no_slot {
  in_use = true;
  continuous = true;
  range_start = 100;
  range_end = 199;
  reserved_end = 199;
  chunk_write_offset = 100;
  chunk_received = 80;
}

abbrev beside : ChunkSlot
beside = record no_slot {
  in_use = true;
  continuous = true;
  range_start = 400;
  range_end = 499;
  reserved_end = 499;
}

abbrev two_slots : List ChunkSlot
two_slots = writing ∷ beside ∷ []

writing-IsReserved : IsReserved halfway two_slots 0 writing
unfolding slot_collect_in_flight covers
writing-IsReserved = record {
  continuous = refl;
  in_file = omega arith;
  alone = λ x low high. ground arith;
}

abbrev body : BodyWrite
body = slot_write_body true 5 halfway two_slots 0 writing 150

body_run : (body.offset ≡ 180) × (body.count ≡ 120)
unfolding slot_write_body download_state_is_range_done is_range_done range_overlaps_in_flight
    segment_ranges_overlap
body_run = (refl, refl)

slot_write_body-inside_example :
    (100 + 80 ≤ 250)
    × (250 ≤ body.slot.reserved_end)
    × (250 < 1000)
    × (covers (others halfway two_slots 0) 250 ≡ false)
slot_write_body-inside_example =
    slot_write_body-inside halfway two_slots 0 (omega arith) true 5 writing 150 writing-IsReserved
      refl (omega arith) 250 (omega (arith, body_run.0)) (omega (arith, body_run.0, body_run.1))

extend_for_enough_example :
    let r = extend_for 1000 halfway two_slots 0 180 150 writing in
    (ltb (available r 180) 150 && (slot_try_extend_reservation halfway two_slots 0 r).0) ≡ false
extend_for_enough_example =
    extend_for_enough halfway two_slots 0 (omega arith) 1000 180 150 writing writing-IsReserved
      (omega arith)
