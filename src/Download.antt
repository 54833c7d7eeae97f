-- ===== src/Download.antt =====
-- src/download.c: the list of downloads in the configuration, the limit of retries, and the
-- identifiers of new downloads.
pub mod Snowflake
pub mod Upsert
pub mod Control
pub mod Slots
use mathlib.Core.Option
use mathlib.Core.Option.{get_or}
use avar.Base.{Bool, Option, false, if◌then◌else◌, ltb, none, not, some, true, ℕ, ◌%◌, ◌==◌, ◌^◌}
use avar.State.Saved.{download_status_is_valid}
use avar.Config.Arrays.{
  append_config_array_item, get_config_array_item_field, get_config_array_item_json, items_at,
  replace_config_array_item_at, update_config_array_item,
}
use avar.Queue.{has_field, index_where, items_key, queue_find_index, queues_key, text_or_null}
use avar.Proxy.{is_empty}
use avar.CString.{Text, lit, str_to_ul}
use avar.Cjson.{Cjson}
use avar.Config.{Config}

module _ ⦃cj : Cjson⦄ where
  open cj use {Json, JsonText, print, parse, new_null, new_string, get_item, add_item, delete_item}

  unfoldable pub find_download_item_index : Config → Text → Bool → Option ℕ
  unfolding index_where has_field items_at
  find_download_item_index config target by_id =
      index_where (has_field (if by_id then lit "id" else lit "filename") target)
        (items_at config items_key)

  -- `strtoul` of a field, where it is a number other than 0.
  abbrev pub positive_of : Option Text → Option ℕ
  positive_of none = none
  positive_of (some value) = elim (str_to_ul value) [
    | none ↦ none
    | some (parsed, rest) ↦ if parsed == 0 then none else some (parsed % 2 ^ 32)
  ]

  unfoldable pub read_item_optional_uint32 : Config → Text → Text → Option ℕ
  unfolding find_download_item_index get_config_array_item_field
  read_item_optional_uint32 config item_id field =
      Option.bind (find_download_item_index config item_id true)
        (λ index. positive_of (get_config_array_item_field config items_key index field))

  unfoldable pub read_queue_max_retries : Config → Option Text → ℕ
  unfolding queue_find_index get_config_array_item_field
  read_queue_max_retries config none = 0
  read_queue_max_retries config (some queue_id) =
      if is_empty queue_id then 0 else elim (queue_find_index config (lit "id") queue_id) [
        | none ↦ 0
        | some index ↦
            get_or
              (positive_of (get_config_array_item_field config queues_key index (lit "maxRetries")))
              0
      ]

  -- For a job with an identifier; `queue_id` is that of its state.
  unfoldable pub resolve_max_retries : Config → Text → Option Text → ℕ
  unfolding read_item_optional_uint32 read_queue_max_retries
  resolve_max_retries config item_id queue_id =
      elim (read_item_optional_uint32 config item_id (lit "maxRetries")) [
        | some limit ↦ limit
        | none ↦
            let queue_limit = read_queue_max_retries config queue_id in
            if ltb 0 queue_limit then queue_limit else 10
      ]

  module _ (persists : ℕ → Bool) where
    -- An item is read, parsed, changed, printed and put back.
    unfoldable pub change_item : Config → Text → (Json → Json) → Bool × Config
    unfolding find_download_item_index get_config_array_item_json replace_config_array_item_at
    change_item config item_id f = elim (find_download_item_index config item_id true) [
      | none ↦ (false, config)
      | some index ↦ elim (Option.bind (get_config_array_item_json config items_key index) parse) [
        | none ↦ (false, config)
        | some obj ↦ replace_config_array_item_at persists config items_key index (print (f obj))
      ]
    ]

    -- `sync_queue_started_for_item_id` of the item is a parameter.
    unfoldable pub update_download_item_status :
        (sync : Config → Text → Config) → Config → Text → Text → Bool × Config
    unfolding change_item download_status_is_valid
    update_download_item_status sync config item_id status =
        let (done, config') =
          change_item config item_id
            (λ obj. add_item (delete_item obj (lit "status")) (lit "status") (new_string status)) in
        if not (download_status_is_valid status)
        then (false, config)
        else if done
        then (true, sync config' item_id)
        else (false, config')

    unfoldable pub update_download_item_queue_id : Config → Text → Option Text → Bool × Config
    unfolding change_item
    update_download_item_queue_id config item_id queue_id =
        change_item config item_id (λ obj.
          add_item (delete_item obj (lit "queueId")) (lit "queueId") (text_or_null queue_id))

    -- How `dm_item_upsert` stores the JSON text of an item.
    unfoldable pub store_item : Config → Text → JsonText → Bool × Config
    unfolding update_config_array_item append_config_array_item
    store_item config item_id json =
        let (updated, config') =
          update_config_array_item persists config items_key (lit "id") item_id json in
        let appended = append_config_array_item persists config' items_key json in
        if updated then (true, config') else appended
