-- ===== src/Queue.antt =====
-- src/queue.c: download queues, kept as objects in the array `dm.queues` of the configuration, and
-- the downloads that belong to them, in `dm.items`.
pub mod Edit
pub mod Dispatch
pub mod Names
pub mod Items
pub mod Started
pub mod Detach
use mathlib.Core.Option
use mathlib.Core.Option.{get_or}
use avar.Base.{
  Bool, List, Option, [], false, if◌then◌else◌, leb, length, ltb, none, some, suc, zero, ℕ, ◌%◌,
  ◌&&◌, ◌++◌, ◌+◌, ◌||◌, ◌∷◌,
}
use avar.CString.{Text, lit, str_eq, decimal, is_some}
use avar.Proxy.{is_empty}
use avar.Cjson.{Cjson}
use avar.Config.{Config}
use avar.Config.Arrays.{
  items_at, field_of, append_config_array_item, get_config_array_item_field,
  get_config_array_item_json, get_config_array_size, parse_object, remove_config_array_item,
  remove_config_array_items_where, replace_config_array_item_at,
}

pub data QueueError : Type 0 where
  no_error not_found duplicate_name invalid_arg persist : QueueError

pub record QueueOptions : Type 0 where
  pub description : Option Text
  pub max_concurrent_downloads : ℕ
  pub max_connections : ℕ
  pub max_retries : ℕ
  pub temp_path : Option Text
  pub download_path : Option Text

abbrev pub queues_key : Text
queues_key = lit "dm.queues"

abbrev pub items_key : Text
items_key = lit "dm.items"

module _ ⦃cj : Cjson⦄ where
  open cj use {
    Json, JsonText, print, parse, new_null, new_bool, new_number, new_string, new_object, is_object,
    bool_value, get_item, put_item, add_item,
  }

  abbrev pub text_is : Text → Option Text → Bool
  text_is value none = false
  text_is value (some text) = str_eq text value

  -- An object whose field is a scalar that reads as the text.
  unfoldable pub has_field : Text → Text → Json → Bool
  unfolding field_of
  has_field field value item = is_object item && text_is value (field_of item field)

  unfoldable pub index_where : (Json → Bool) → List Json → Option ℕ
  index_where p [] = none
  index_where p (item ∷ items) =
      let rest = Option.map suc (index_where p items) in if p item then some 0 else rest

  -- `none` where the result is -1.
  unfoldable pub queue_find_index : Config → Text → Text → Option ℕ
  unfolding index_where has_field
  queue_find_index config field value =
      index_where (has_field field value) (items_at config queues_key)

  -- `time` is `time(NULL)`, and `rand` what `rand()` gives.
  unfoldable pub queue_generate_id : Config → ℕ → ℕ → Text
  unfolding queue_find_index
  queue_generate_id config time rand =
      let generated = lit "queue-" ++ decimal time in
      if is_some (queue_find_index config (lit "id") generated)
      then generated ++ (b'-' ∷ decimal (rand % 65536))
      else generated

  abbrev pub text_or_null : Option Text → Json
  text_or_null none = new_null
  text_or_null (some text) = if is_empty text then new_null else new_string text

  abbrev pub number_or_null : ℕ → Json
  number_or_null n = if ltb 0 n then new_number n else new_null

  abbrev pub description_json : Option QueueOptions → Json
  description_json none = new_null
  description_json (some options) = elim options.description [
    | none ↦ new_null
    | some text ↦ new_string text
  ]

  abbrev pub no_options : QueueOptions
  no_options = record {
    description = none;
    max_concurrent_downloads = 0;
    max_connections = 0;
    max_retries = 0;
    temp_path = none;
    download_path = none;
  }

  -- The object that `queue_build_json` prints.
  unfoldable pub queue_object : Text → Text → Option QueueOptions → Json
  queue_object id name options =
      let given = get_or options no_options in
      let max_concurrent = given.max_concurrent_downloads in
      let o1 = add_item new_object (lit "id") (new_string id) in
      let o2 = add_item o1 (lit "name") (new_string name) in
      let o3 = add_item o2 (lit "started") (new_bool false) in
      let o4 = add_item o3 (lit "description") (description_json options) in
      let o5 =
        add_item o4 (lit "maxConcurrentDownloads")
          (new_number (if ltb 0 max_concurrent then max_concurrent else 4)) in
      let o6 = add_item o5 (lit "maxConnections") (number_or_null given.max_connections) in
      let o7 = add_item o6 (lit "maxRetries") (number_or_null given.max_retries) in
      let o8 = add_item o7 (lit "tempPath") (text_or_null given.temp_path) in
      add_item o8 (lit "downloadPath") (text_or_null given.download_path)

  unfoldable pub queue_build_json : Text → Text → Option QueueOptions → JsonText
  unfolding queue_object
  queue_build_json id name options = print (queue_object id name options)

  unfoldable pub queue_resolve_id : Config → Text → Bool → Option Text
  unfolding queue_find_index
  queue_resolve_id config id_or_name by_name =
      let field = if by_name then lit "name" else lit "id" in
      if is_empty id_or_name
      then none
      else Option.bind (queue_find_index config field id_or_name)
          (λ index. get_config_array_item_field config queues_key index (lit "id"))

  unfoldable pub queue_count : Config → ℕ
  unfolding get_config_array_size
  queue_count config = get_config_array_size config queues_key

  unfoldable pub queue_id_at : Config → ℕ → Option Text
  unfolding get_config_array_item_field
  queue_id_at config index = get_config_array_item_field config queues_key index (lit "id")

  unfoldable pub queue_name_at : Config → ℕ → Option Text
  unfolding get_config_array_item_field
  queue_name_at config index = get_config_array_item_field config queues_key index (lit "name")

  module _ (persists : ℕ → Bool) where
    -- A change of the object at an index: read, parsed, changed, printed and put back.
    unfoldable pub rewrite_item : Config → Text → ℕ → (Json → Json) → QueueError × Config
    unfolding parse_object replace_config_array_item_at
    rewrite_item config key index f = elim (get_config_array_item_json config key index) [
      | none ↦ (persist, config)
      | some json ↦ elim (parse_object json) [
        | none ↦ (persist, config)
        | some obj ↦
            let (done, config') =
              replace_config_array_item_at persists config key index (print (f obj)) in
            (if done then no_error else persist, config')
      ]
    ]

    -- The round of `queue_detach_items` for an index.
    unfoldable pub detach_item : Config → Text → ℕ → QueueError × Config
    unfolding rewrite_item
    detach_item config queue_id index =
        if text_is queue_id (get_config_array_item_field config items_key index (lit "queueId"))
        then rewrite_item config items_key index (λ obj. put_item obj (lit "queueId") new_null)
        else (no_error, config)

    -- The rounds from an index on.
    unfoldable pub detach_from : ℕ → Config → Text → ℕ → QueueError × Config
    unfolding detach_item
    detach_from zero config queue_id index = (no_error, config)
    detach_from (suc rounds) config queue_id index =
        let (error, config') = detach_item config queue_id index in
        let rest = detach_from rounds config' queue_id (index + 1) in
        elim error [ no_error ↦ rest | other ↦ (other, config') ]

    unfoldable pub queue_detach_items : Config → Text → QueueError × Config
    unfolding detach_from
    queue_detach_items config queue_id =
        detach_from (get_config_array_size config items_key) config queue_id 0

    unfoldable pub queue_purge_items : Config → Text → QueueError × Config
    unfolding remove_config_array_items_where
    queue_purge_items config queue_id =
        let (removed, config') =
          remove_config_array_items_where persists config items_key (lit "queueId") queue_id in
        (elim removed [ none ↦ persist | some n ↦ no_error ], config')

    unfoldable pub queue_set_started : Config → Text → Bool → QueueError × Config
    unfolding queue_find_index rewrite_item
    queue_set_started config id started =
        if is_empty id
        then (invalid_arg, config)
        else elim (queue_find_index config (lit "id") id) [
          | none ↦ (not_found, config)
          | some index ↦
              rewrite_item config queues_key index
                (λ obj. put_item obj (lit "started") (new_bool started))
        ]

    -- The error, `*id_out`, and the configuration.
    unfoldable pub queue_add :
        Config → ℕ → ℕ → Text → Option QueueOptions → QueueError × (Option Text × Config)
    unfolding queue_find_index queue_generate_id queue_build_json append_config_array_item
    queue_add config time rand name options =
        let id = queue_generate_id config time rand in
        let (done, config') =
          append_config_array_item persists config queues_key (queue_build_json id name options) in
        if is_empty name || leb 128 (length name)
        then (invalid_arg, (none, config))
        else if is_some (queue_find_index config (lit "name") name)
        then (duplicate_name, (none, config))
        else if done
        then (no_error, (some id, config'))
        else (persist, (none, config'))

    -- The queue itself, once its items are dealt with.
    abbrev pub remove_queue : QueueError × Config → Text → QueueError × Config
    remove_queue (no_error, config) id =
        let (done, config') = remove_config_array_item persists config queues_key (lit "id") id in
        (if done then no_error else not_found, config')
    remove_queue (error, config) id = (error, config)

    unfoldable pub queue_remove : Config → Text → Bool → Bool → QueueError × Config
    unfolding queue_resolve_id queue_purge_items queue_detach_items
    queue_remove config id_or_name by_name purge_items =
        if is_empty id_or_name
        then (invalid_arg, config)
        else elim (queue_resolve_id config id_or_name by_name) [
          | none ↦ (not_found, config)
          | some id ↦
              remove_queue
                (if purge_items then queue_purge_items config id else queue_detach_items config id)
                id
        ]
