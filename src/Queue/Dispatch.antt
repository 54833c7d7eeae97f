-- ===== src/Queue/Dispatch.antt =====
-- src/queue.c: starting and stopping the downloads of a queue. `download_start_scheduled` and
-- `download_stop` of src/download.c are parameters.
pub mod Limit
use mathlib.Core.Option
use mathlib.Core.Option.{get_or}
use avar.Base.{
  Bool, List, Option, [], false, if◌then◌else◌, ltb, none, not, some, suc, true, zero, ℕ, ◌%◌, ◌&&◌,
  ◌++◌, ◌+◌, ◌==◌, ◌^◌, ◌||◌, ◌∷◌,
}
use avar.CString.{Text, lit, str_to_ul}
use avar.Proxy.{is_empty}
use avar.Cjson.{Cjson}
use avar.Config.{Config}
use avar.Config.Arrays.{
  get_config_array_item_field, get_config_array_item_json, get_config_array_size, parse_object,
}
use avar.Queue.{
  QueueError, queue_find_index, queue_set_started, invalid_arg, items_key, no_error, not_found,
  queues_key, text_is,
}

module _ ⦃cj : Cjson⦄ where
  open cj use {bool_value, get_item}

  unfoldable pub queue_item_keeps_running : Option Text → Bool
  queue_item_keeps_running status =
      text_is (lit "downloading") status || text_is (lit "queued") status

  unfoldable pub queue_item_should_stop : Option Text → Bool
  queue_item_should_stop status =
      text_is (lit "downloading") status || text_is (lit "paused") status

  abbrev pub in_queue : Config → Text → ℕ → Bool
  in_queue config queue_id i =
      text_is queue_id (get_config_array_item_field config items_key i (lit "queueId"))

  abbrev pub status_at : Config → ℕ → Option Text
  status_at config i = get_config_array_item_field config items_key i (lit "status")

  unfoldable pub running_from : ℕ → Config → Text → ℕ → Bool
  unfolding get_config_array_item_field queue_item_keeps_running
  running_from zero config queue_id i = false
  running_from (suc rounds) config queue_id i =
      let rest = running_from rounds config queue_id (i + 1) in
      if in_queue config queue_id i && queue_item_keeps_running (status_at config i)
      then true
      else rest

  unfoldable pub queue_has_running_work : Config → Text → Bool
  unfolding running_from get_config_array_size
  queue_has_running_work config queue_id =
      running_from (get_config_array_size config items_key) config queue_id 0

  -- `strtoul` of the field; 4 where there is no number, or 0.
  abbrev pub limit_of : Option Text → ℕ
  limit_of none = 4
  limit_of (some value) = elim (str_to_ul value) [
    | none ↦ 4
    | some (parsed, rest) ↦ if parsed == 0 then 4 else parsed % 2 ^ 32
  ]

  unfoldable pub queue_max_concurrent : Config → Text → ℕ
  unfolding queue_find_index
  queue_max_concurrent config queue_id =
      if is_empty queue_id then 4 else elim (queue_find_index config (lit "id") queue_id) [
        | none ↦ 4
        | some index ↦
            limit_of
              (get_config_array_item_field config queues_key index (lit "maxConcurrentDownloads"))
      ]

  unfoldable pub queue_is_started : Config → Text → Bool
  unfolding queue_find_index
  queue_is_started config id =
      if is_empty id then false else elim (queue_find_index config (lit "id") id) [
        | none ↦ false
        | some index ↦ elim (get_config_array_item_json config queues_key index) [
          | none ↦ false
          | some json ↦ elim (parse_object json) [
            | none ↦ false
            | some obj ↦ get_or (Option.bind (get_item obj (lit "started")) bool_value) false
          ]
        ]
      ]

  -- `active` after the first loop of `queue_dispatch`.
  unfoldable pub count_active : ℕ → ℕ → Config → Text → ℕ → ℕ → ℕ
  count_active max_concurrent zero config queue_id i active = active
  count_active max_concurrent (suc rounds) config queue_id i active =
      let next =
        if in_queue config queue_id i && text_is (lit "downloading") (status_at config i)
        then active + 1
        else active in
      let rest = count_active max_concurrent rounds config queue_id (i + 1) next in
      if ltb active max_concurrent then rest else active

  -- The identifier of a download that waits in the queue.
  unfoldable pub startable : Config → Text → ℕ → Option Text
  startable config queue_id i =
      if in_queue config queue_id i && text_is (lit "queued") (status_at config i)
      then get_config_array_item_field config items_key i (lit "id")
      else none

  -- What a run of the second loop leaves: `active`, the downloads that it started, and the
  -- configuration.
  pub record Dispatched : Type 0 where
    pub active : ℕ
    pub started : List Text
    pub config : Config

  module _ (start_scheduled : Config → Text → Bool × Config) where
    -- The round for an index.
    unfoldable pub start_at : Dispatched → Text → ℕ → Dispatched
    unfolding startable
    start_at d queue_id i = elim (startable d.config queue_id i) [
      | none ↦ d
      | some id ↦
          let (done, config') = start_scheduled d.config id in
          if done
          then record { active = d.active + 1; started = d.started ++ id ∷ []; config = config' }
          else record d { config = config' }
    ]

    unfoldable pub start_from : ℕ → ℕ → Dispatched → Text → ℕ → Dispatched
    unfolding start_at
    start_from max_concurrent zero d queue_id i = d
    start_from max_concurrent (suc rounds) d queue_id i =
        let rest = start_from max_concurrent rounds (start_at d queue_id i) queue_id (i + 1) in
        if ltb d.active max_concurrent then rest else d

    unfoldable pub queue_dispatch : Config → Text → Dispatched
    unfolding queue_is_started queue_max_concurrent count_active start_from
    queue_dispatch config queue_id =
        let max_concurrent = queue_max_concurrent config queue_id in
        let count = get_config_array_size config items_key in
        let active = count_active max_concurrent count config queue_id 0 0 in
        if is_empty queue_id || not (queue_is_started config queue_id)
        then record { active = 0; started = []; config = config }
        else start_from max_concurrent count
            (record { active = active; started = []; config = config }) queue_id 0

    unfoldable pub queue_start : (persists : ℕ → Bool) → Config → Text → QueueError × Config
    unfolding queue_set_started queue_dispatch
    queue_start persists config id =
        let (error, config') = queue_set_started persists config id true in
        elim error [
          | no_error ↦ (no_error, (queue_dispatch config' id).config)
          | other ↦ (other, config')
        ]

  module _ (stop : Config → Text → Config) (persists : ℕ → Bool) where
    -- The rounds of `queue_stop` from an index on.
    unfoldable pub stop_from : ℕ → Config → Text → ℕ → Config
    unfolding queue_item_should_stop
    stop_from zero config id i = config
    stop_from (suc rounds) config id i =
        let config' =
          elim (get_config_array_item_field config items_key i (lit "id")) as (λ x. Config) [
            | none ↦ config
            | some item_id ↦ stop config item_id
          ] in
        let here =
          if in_queue config id i && queue_item_should_stop (status_at config i)
          then config'
          else config in
        stop_from rounds here id (i + 1)

    unfoldable pub queue_stop : Config → Text → QueueError × Config
    unfolding queue_find_index queue_set_started stop_from
    queue_stop config id =
        if is_empty id
        then (invalid_arg, config)
        else elim (queue_find_index config (lit "id") id) [
          | none ↦ (not_found, config)
          | some index ↦
              queue_set_started persists
                (stop_from (get_config_array_size config items_key) config id 0) id false
        ]

  unfoldable pub queue_sync_started_state : (persists : ℕ → Bool) → Config → Text → Config
  unfolding queue_is_started queue_has_running_work queue_set_started
  queue_sync_started_state persists config queue_id =
      if is_empty queue_id
        || not (queue_is_started config queue_id)
        || queue_has_running_work config queue_id
      then config
      else (queue_set_started persists config queue_id false).1
