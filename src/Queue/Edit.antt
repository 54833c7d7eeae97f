-- ===== src/Queue/Edit.antt =====
-- src/queue.c: `queue_edit`.
use mathlib.Core.Option.{get_or}
use avar.Base.{Bool, Option, [], false, if◌then◌else◌, leb, length, none, some, ℕ, ◌==◌, ◌||◌}
use avar.Config.Arrays.{get_config_array_item_json, parse_object}
use avar.CString.{Text, lit, is_some}
use avar.Proxy.{is_empty}
use avar.Cjson.{Cjson}
use avar.Config.{Config}
use avar.Queue.{
  QueueError, queue_find_index, duplicate_name, invalid_arg, no_error, not_found, number_or_null,
  queues_key, rewrite_item, text_or_null, persist,
}

-- A field is `none` where its `set_` flag is false. A text may be NULL.
pub record QueuePatch : Type 0 where
  pub name : Option (Option Text)
  pub description : Option (Option Text)
  pub max_concurrent_downloads : Option ℕ
  pub max_connections : Option ℕ
  pub max_retries : Option ℕ
  pub temp_path : Option (Option Text)
  pub download_path : Option (Option Text)

module _ ⦃cj : Cjson⦄ where
  open cj use {Json, print, parse, new_null, new_string, put_item}

  -- A member gets a value where the patch has one.
  abbrev pub put_given {ℓ} : {A : Type ℓ} → Option A → Text → (A → Json) → Json → Json
  put_given none field f obj = obj
  put_given (some a) field f obj = put_item obj field (f a)

  abbrev pub plain_text : Option Text → Json
  plain_text none = new_null
  plain_text (some text) = new_string text

  -- The object with all members of the patch.
  unfoldable pub apply_patch : QueuePatch → Json → Json
  apply_patch patch obj =
      let o1 = put_given patch.name (lit "name") plain_text obj in
      let o2 = put_given patch.description (lit "description") plain_text o1 in
      let o3 =
        put_given patch.max_concurrent_downloads (lit "maxConcurrentDownloads") number_or_null o2 in
      let o4 = put_given patch.max_connections (lit "maxConnections") number_or_null o3 in
      let o5 = put_given patch.max_retries (lit "maxRetries") number_or_null o4 in
      let o6 = put_given patch.temp_path (lit "tempPath") text_or_null o5 in
      put_given patch.download_path (lit "downloadPath") text_or_null o6

  -- What is wrong with the new name of the queue at an index.
  unfoldable pub name_error : Config → ℕ → Option (Option Text) → QueueError
  unfolding queue_find_index
  name_error config index none = no_error
  name_error config index (some name) =
      let text = get_or name [] in
      if is_empty text || leb 128 (length text)
      then invalid_arg
      else elim (queue_find_index config (lit "name") text) [
        | none ↦ no_error
        | some duplicate ↦ if duplicate == index then no_error else duplicate_name
      ]

  module _ (persists : ℕ → Bool) where
    -- Whether the object at the index can be read and parsed.
    abbrev pub readable : Config → ℕ → Bool
    readable config index = elim (get_config_array_item_json config queues_key index) [
      | none ↦ false
      | some json ↦ is_some (parse_object json)
    ]

    -- The rest of the function, once the name is seen to be right.
    abbrev pub edit_item : Config → ℕ → QueuePatch → QueueError → QueueError × Config
    edit_item config index patch no_error =
        rewrite_item persists config queues_key index (apply_patch patch)
    edit_item config index patch error = (error, config)

    unfoldable pub queue_edit : Config → Text → QueuePatch → QueueError × Config
    unfolding queue_find_index name_error rewrite_item apply_patch
    queue_edit config id patch =
        if is_empty id
        then (invalid_arg, config)
        else elim (queue_find_index config (lit "id") id) [
          | none ↦ (not_found, config)
          | some index ↦
              edit_item config index patch
                (if readable config index then name_error config index patch.name else persist)
        ]
