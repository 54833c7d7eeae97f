-- ===== src/Config/Arrays.antt =====
-- src/config.c: the arrays of objects under a key.
pub mod Laws
pub mod Removal
pub mod Operations
use mathlib.Core.Option
use mathlib.Core.Option.{get_or}
use avar.Base.{
  Bool, List, Option, [], false, get_elem?, if◌then◌else◌, length, none, some, suc, true, zero, ℕ,
  ◌&&◌, ◌++◌, ◌+◌, ◌==◌, ◌∷◌,
}
use avar.CString.{Text, str_eq}
use avar.Cjson.{Cjson}
use avar.Config.{Config, find_parent, change, config_scalar_to_string, split_key, update_parent}

module _ ⦃cj : Cjson⦄ where
  open cj use {
    Json, JsonText, print, parse, is_object, string_value, array_items, new_array, get_item,
    put_item, add_item,
  }

  -- `resolve_array_parent` with `create` false.
  unfoldable pub find_array : Json → List Text → Option (List Json)
  unfolding find_parent
  find_array root segments = elim (find_parent root segments) [
    | none ↦ none
    | some (parent, leaf) ↦ Option.bind (get_item parent leaf) array_items
  ]

  -- The array at the leaf with a change to its items, where the change is made.
  unfoldable pub change_items :
      (List Json → Option (List Json)) → Json → Text → List Json → Bool × Json
  change_items f parent leaf items = elim (f items) [
    | none ↦ (false, parent)
    | some changed ↦ (true, put_item parent leaf (new_array changed))
  ]

  -- `resolve_array_parent` at its leaf, with a change to the items.
  unfoldable pub update_leaf : Bool → (List Json → Option (List Json)) → Json → Text → Bool × Json
  unfolding change_items
  update_leaf create f parent leaf = elim (get_item parent leaf) [
    | none ↦
        if create
        then (true, add_item parent leaf (new_array (get_or (f []) [])))
        else (false, parent)
    | some value ↦ elim (array_items value) [
      | some items ↦ change_items f parent leaf items
      | none ↦ if create then change_items f parent leaf [] else (false, parent)
    ]
  ]

  unfoldable pub update_array :
      Bool → (List Json → Option (List Json)) → Json → List Text → Bool × Json
  unfolding update_leaf update_parent
  update_array create f root segments = update_parent create (update_leaf create f) root segments

  -- The items at a key; none where there is no array.
  unfoldable pub items_at : Config → Text → List Json
  unfolding find_array split_key
  items_at config key = get_or (find_array config.root (split_key key)) []

  unfoldable pub get_config_array_size : Config → Text → ℕ
  unfolding items_at
  get_config_array_size config key = length (items_at config key)

  -- `cJSON_GetArrayItem(array, (int)index)` where it is an object.
  unfoldable pub object_at : List Json → ℕ → Option Json
  object_at items index = elim (get_elem? items index) [
    | none ↦ none
    | some item ↦ if is_object item then some item else none
  ]

  unfoldable pub field_of : Json → Text → Option Text
  unfolding config_scalar_to_string
  field_of item field = Option.bind (get_item item field) config_scalar_to_string

  unfoldable pub get_config_array_item_field : Config → Text → ℕ → Text → Option Text
  unfolding items_at object_at field_of
  get_config_array_item_field config key index field =
      Option.bind (object_at (items_at config key) index) (λ item. field_of item field)

  unfoldable pub get_config_array_item_json : Config → Text → ℕ → Option JsonText
  unfolding items_at object_at
  get_config_array_item_json config key index =
      Option.map print (object_at (items_at config key) index)

  -- An object whose field is the given text.
  unfoldable pub item_matches : Text → Text → Json → Bool
  item_matches field value item =
      is_object item && elim (Option.bind (get_item item field) string_value) [
        | none ↦ false
        | some text ↦ str_eq text value
      ]

  -- The text of an object.
  unfoldable pub parse_object : JsonText → Option Json
  parse_object text = elim (parse text) [
    | none ↦ none
    | some item ↦ if is_object item then some item else none
  ]

  unfoldable pub replace_first : (Json → Bool) → Json → List Json → Option (List Json)
  replace_first p v [] = none
  replace_first p v (item ∷ items) =
      let rest = Option.map (λ more. item ∷ more) (replace_first p v items) in
      if p item then some (v ∷ items) else rest

  unfoldable pub remove_first : (Json → Bool) → List Json → Option (List Json)
  remove_first p [] = none
  remove_first p (item ∷ items) =
      let rest = Option.map (λ more. item ∷ more) (remove_first p items) in
      if p item then some items else rest

  unfoldable pub replace_at : ℕ → Json → List Json → Option (List Json)
  replace_at index v [] = none
  replace_at zero v (item ∷ items) = some (v ∷ items)
  replace_at (suc index) v (item ∷ items) =
      Option.map (λ more. item ∷ more) (replace_at index v items)

  unfoldable pub delete_at : ℕ → List Json → List Json
  delete_at index [] = []
  delete_at zero (item ∷ items) = items
  delete_at (suc index) (item ∷ items) = item ∷ delete_at index items

  -- One round of the loop of `remove_config_array_items_where`: the items and `removed`.
  unfoldable pub remove_round : (Json → Bool) → ℕ → List Json → ℕ → List Json × ℕ
  unfolding delete_at
  remove_round p i items removed = elim (get_elem? items i) [
    | none ↦ (items, removed)
    | some item ↦ if p item then (delete_at i items, removed + 1) else (items, removed)
  ]

  -- The rounds from below an index down to 0.
  unfoldable pub remove_below : (Json → Bool) → ℕ → List Json → ℕ → List Json × ℕ
  unfolding remove_round
  remove_below p zero items removed = (items, removed)
  remove_below p (suc i) items removed =
      let (items', removed') = remove_round p i items removed in remove_below p i items' removed'

  module _ (persists : ℕ → Bool) where
    unfoldable pub append_config_array_item : Config → Text → JsonText → Bool × Config
    unfolding change update_array parse_object
    append_config_array_item config key json_object = elim (parse_object json_object) [
      | none ↦ (false, config)
      | some v ↦
          change persists config
            (update_array true (λ items. some (items ++ v ∷ [])) config.root (split_key key))
    ]

    unfoldable pub update_config_array_item : Config → Text → Text → Text → JsonText → Bool × Config
    unfolding change update_array parse_object item_matches replace_first
    update_config_array_item config key field value json_object = elim (parse_object json_object) [
      | none ↦ (false, config)
      | some v ↦ change persists config (
          update_array false (replace_first (item_matches field value) v) config.root
            (split_key key))
    ]

    unfoldable pub remove_config_array_item : Config → Text → Text → Text → Bool × Config
    unfolding change update_array item_matches remove_first
    remove_config_array_item config key field value =
        change persists config
          (update_array false (remove_first (item_matches field value)) config.root (split_key key))

    unfoldable pub replace_config_array_item_at : Config → Text → ℕ → JsonText → Bool × Config
    unfolding change update_array parse_object replace_at
    replace_config_array_item_at config key index json_object = elim (parse_object json_object) [
      | none ↦ (false, config)
      | some v ↦
          change persists config
            (update_array false (replace_at index v) config.root (split_key key))
    ]

    -- `none` where the result is -1, else the number of items that are removed.
    unfoldable pub remove_config_array_items_where : Config → Text → Text → Text → Option ℕ × Config
    unfolding change update_array item_matches remove_below
    remove_config_array_items_where config key field value =
        let p = item_matches field value in
        let items = items_at config key in
        let swept : List Json → List Json × ℕ = λ xs. remove_below p (length xs) xs 0 in
        let removed = (swept items).1 in
        let (written, config') =
          change persists config
            (update_array false (λ xs. some (swept xs).0) config.root (split_key key)) in
        if removed == 0
        then (some 0, config)
        else if written
        then (some removed, config')
        else (none, config')
