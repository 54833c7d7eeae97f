-- ===== src/Tests/QueueRuns.antt =====
-- The queues on a sample document.
use mathlib.Core.Option
use avar.Queue.Dispatch.Limit.{downloading, length-queue_dispatch}
use avar.Base.{
  Bool, [], false, get_elem?, inl, length, map, none, refl, some, true, ◌-◌, ◌∷◌, ◌≡◌, ◌≤◌,
}
use avar.Queue.Started.{queue_is_started-queue_set_started}
use avar.Config.Arrays.Laws.{IsArrayAt}
use avar.Config.Arrays.{
  get_config_array_size, items_at, get_config_array_item_field, get_config_array_item_json,
  parse_object,
}
use avar.Queue.Dispatch.Limit.{length-queue_dispatch, downloading}
use avar.Queue.Items.{queue_add-IsDistinct, queue_resolve_id-queue_add}
use avar.Queue.Names.{IsDistinct}
use avar.Queue.Dispatch.{queue_dispatch, queue_max_concurrent, queue_is_started}
use avar.Queue.{
  index_where, items_key, queue_add, queue_generate_id, queue_resolve_id, queues_key, no_error,
  queue_detach_items, queue_find_index, queue_set_started,
}
use avar.CString.{str_to_ul, decimal, digits_value, Text, lit}
use avar.Config.{Config, split_key}
use avar.Queue.Detach.{detached, Rewritten, queue_detach_items-Rewritten}
use avar.Tests.Documents.{main_queue, bool, documents, documents-IsLawful, busy, dm}

abbrev start_scheduled : Config → Text → Bool × Config
start_scheduled config id = (true, config)

dispatch_run : (queue_dispatch start_scheduled busy (lit "q1")).started ≡ lit "b" ∷ []
unfolding queue_dispatch items_at Option.bind get_config_array_item_json parse_object
    get_config_array_size get_config_array_item_field str_to_ul decimal digits_value
dispatch_run = refl

length-queue_dispatch_example :
    length (queue_dispatch start_scheduled busy (lit "q1")).started
    ≤ queue_max_concurrent busy (lit "q1")
      - downloading (get_config_array_size busy items_key) busy (lit "q1") 0
length-queue_dispatch_example = length-queue_dispatch start_scheduled busy (lit "q1")

queues_there : IsArrayAt true busy.root (split_key queues_key) dm (lit "queues")
unfolding split_key Option.bind
queues_there = record { reached = refl; object = refl; array = inl (_, refl) }

queue_add-IsDistinct_example :
    IsDistinct
      (lit "name")
      (items_at (queue_add (λ n. true) busy 7 1 (lit "Night") none).1.1 queues_key)
unfolding items_at split_key index_where Option.bind
queue_add-IsDistinct_example =
    queue_add-IsDistinct documents-IsLawful (λ n. true) busy 7 1 (lit "Night") none dm
      (lit "queues") queues_there ((λ value h. refl), tt)

queue_resolve_id-queue_add_example :
    let r = queue_add (λ n. true) busy 7 1 (lit "Night") none in
    (r.1.0 ≡ some (queue_generate_id busy 7 1))
    × (queue_resolve_id r.1.1 (lit "Night") true ≡ some (queue_generate_id busy 7 1))
unfolding queue_add items_at Option.bind
queue_resolve_id-queue_add_example =
    queue_resolve_id-queue_add documents-IsLawful (λ n. true) busy 7 1 (lit "Night") none dm
      (lit "queues") queues_there refl

queues_found : IsArrayAt false busy.root (split_key queues_key) dm (lit "queues")
unfolding split_key Option.bind
queues_found = record { reached = refl; object = refl; array = inl (_, refl) }

q1_found : queue_find_index busy (lit "id") (lit "q1") ≡ some 0
unfolding queue_find_index items_at Option.bind
q1_found = refl

q1_there : get_elem? (items_at busy queues_key) 0 ≡ some main_queue
unfolding items_at split_key Option.bind
q1_there = refl

queue_is_started-queue_set_started_example :
    queue_is_started (queue_set_started (λ n. true) busy (lit "q1") false).1 (lit "q1") ≡ false
queue_is_started-queue_set_started_example =
    queue_is_started-queue_set_started documents-IsLawful (λ n. true) busy (lit "q1") false dm
      (lit "queues") queues_found 0 main_queue (bool true) refl q1_found q1_there refl

queue_detach_items-Rewritten_example :
    let r = queue_detach_items (λ n. true) busy (lit "q1") in
    (r.0 ≡ no_error) × Rewritten busy r.1 (map (detached (lit "q1")) (items_at busy items_key))
queue_detach_items-Rewritten_example =
    queue_detach_items-Rewritten documents-IsLawful (λ n. true) (λ n. refl) busy (lit "q1") refl
