-- ===== src/Config.antt =====
-- src/config.c: the configuration, one JSON document in memory and its copy on disk. Dotted keys
-- name members of nested objects; arrays of objects hold the queues and the downloads.
pub mod Arrays
pub mod Paths
pub mod Values
use mathlib.Core.Option
use mathlib.Core.List
use avar.Base.{
  Bool, List, Option, [], false, if◌then◌else◌, leb, length, map, none, not, some, true, ℕ, ◌&&◌,
  ◌++◌, ◌+◌, ◌==◌, ◌||◌, ◌∷◌,
}
use avar.CString.{Text, lit}
use avar.Proxy.{is_empty}
use avar.Cjson.{Cjson}

-- The parts of a key between its dots.
unfoldable pub split_onto : Text → Text → List Text
split_onto part [] = part ∷ []
split_onto part (c ∷ cs) =
    let rest = split_onto [] cs in
    let longer = split_onto (part ++ c ∷ []) cs in if c == b'.' then part ∷ rest else longer

unfoldable pub split_key : Text → List Text
unfolding split_onto
split_key key = split_onto [] key

module _ ⦃cj : Cjson⦄ where
  open cj use {
    Json, JsonText, print, parse, new_null, new_string, new_object, is_object, string_value,
    number_text, bool_value, array_items, new_array, has_no_members, get_item, put_item, add_item,
    delete_item,
  }

  -- `resolve_parent` with `create` false: the object that holds the leaf, and the leaf.
  unfoldable pub find_parent : Json → List Text → Option (Json × Text)
  find_parent root [] = none
  find_parent root (segment ∷ []) = if is_empty segment then none else some (root, segment)
  find_parent root (segment ∷ next ∷ segments) = elim (get_item root segment) [
    | none ↦ none
    | some child ↦
        let rest = find_parent child (next ∷ segments) in
        if is_empty segment || not (is_object child) then none else rest
  ]

  -- `resolve_parent` with a change to the object that it finds. The result is none where it finds
  -- none; objects that were created on the way stay.
  unfoldable pub update_parent : Bool → (Json → Text → Bool × Json) → Json → List Text → Bool × Json
  update_parent create f root [] = (false, root)
  update_parent create f root (segment ∷ []) =
      if is_empty segment then (false, root) else f root segment
  update_parent create f root (segment ∷ next ∷ segments) =
      let fresh = update_parent create f new_object (next ∷ segments) in
      elim (get_item root segment) [
        | none ↦
            if is_empty segment || not create
            then (false, root)
            else (fresh.0, add_item root segment fresh.1)
        | some child ↦
            let inner = update_parent create f child (next ∷ segments) in
            if is_empty segment
            then (false, root)
            else if is_object child
            then (inner.0, put_item root segment inner.1)
            else if create
            then (fresh.0, add_item (delete_item root segment) segment fresh.1)
            else (false, root)
      ]

  unfoldable pub config_scalar_to_string : Json → Option Text
  config_scalar_to_string item = elim (string_value item) [
    | some text ↦ some text
    | none ↦ elim (number_text item) [
      | some text ↦ some text
      | none ↦ elim (bool_value item) [
        | none ↦ none
        | some true ↦ some (lit "true")
        | some false ↦ some (lit "false")
      ]
    ]
  ]

  -- `_config.root`, the document in the file, and how often the file was written so far.
  pub record Config : Type 0 where
    pub root : Json
    pub disk : Json
    pub writes : ℕ

  abbrev pub with_root : Config → Json → Config
  with_root config root = record config { root = root }

  -- The leaf gets the text, in the place of what was there.
  unfoldable pub set_leaf : Text → Json → Text → Bool × Json
  set_leaf value parent leaf = elim (get_item parent leaf) [
    | some existing ↦ (true, put_item parent leaf (new_string value))
    | none ↦ (true, add_item parent leaf (new_string value))
  ]

  unfoldable pub delete_leaf : Json → Text → Bool × Json
  delete_leaf parent leaf = elim (get_item parent leaf) [
    | none ↦ (false, parent)
    | some item ↦ (true, delete_item parent leaf)
  ]

  -- The leaf where it is an object without members. The first flag says whether to go on.
  unfoldable pub prune_leaf : Json → Text → Bool × Json
  prune_leaf parent leaf = elim (get_item parent leaf) [
    | none ↦ (true, parent)
    | some node ↦
        if is_object node && has_no_members node
        then (true, delete_item parent leaf)
        else (false, parent)
  ]

  -- The loop of `prune_empty_parents`: the segments before the last, from the longest path on.
  unfoldable pub prune_paths : Json → List (List Text) → Json
  unfolding prune_leaf update_parent
  prune_paths root [] = root
  prune_paths root (path ∷ paths) =
      let (more, next) = update_parent false prune_leaf root path in
      let rest = prune_paths next paths in if more then rest else next

  -- The proper beginnings of a list that are not empty, the longest first.
  unfoldable pub beginnings : List Text → List (List Text)
  beginnings [] = []
  beginnings (segment ∷ []) = []
  beginnings (segment ∷ next ∷ segments) =
      List.map (λ path. segment ∷ path) (beginnings (next ∷ segments)) ++ (segment ∷ []) ∷ []

  unfoldable pub prune_empty_parents : Json → Text → Json
  unfolding prune_paths beginnings
  prune_empty_parents root key = prune_paths root (beginnings (split_key key))

  -- Which write of the file succeeds.
  module _ (persists : ℕ → Bool) where
    unfoldable pub persist_config : Config → Bool × Config
    persist_config config =
        if persists config.writes
        then (true, record config { disk = config.root; writes = config.writes + 1 })
        else (false, record config { writes = config.writes + 1 })

    -- A change of the document; it is written to the file where it was made.
    unfoldable pub change : Config → Bool × Json → Bool × Config
    unfolding persist_config
    change config (true, root) = persist_config (with_root config root)
    change config (false, root) = (false, with_root config root)

    unfoldable pub set_config : Config → Text → Text → Bool × Config
    unfolding change set_leaf update_parent
    set_config config key value =
        change config (update_parent true (set_leaf value) config.root (split_key key))

    unfoldable pub reset_config : Config → Text → Bool × Config
    unfolding change delete_leaf prune_empty_parents
    reset_config config key =
        let (found, root) = update_parent false delete_leaf config.root (split_key key) in
        if found then change config (true, prune_empty_parents root key) else (false, config)

    unfoldable pub reset_all_config : Config → Bool × Config
    unfolding change
    reset_all_config config = change config (true, new_object)

    -- The document in the file at another path afterwards, where it is written.
    unfoldable pub save_config : Config → Bool × (Option Json × Config)
    save_config config =
        if persists config.writes
        then (true, (some config.root, record config { writes = config.writes + 1 }))
        else (false, (none, record config { writes = config.writes + 1 }))

    -- `loaded` is the document in the file at the path, where it is there and an object.
    unfoldable pub load_config : Config → Option Json → Bool × Config
    unfolding change
    load_config config none = (false, config)
    load_config config (some loaded) = change config (true, loaded)

  -- The variables of the environment.
  module _ (getenv : Text → Option Text) where
    unfoldable pub get_config_from_env : Text → Option Text
    get_config_from_env key =
        if leb 256 (length (lit "avar." ++ key)) then none else getenv (lit "avar." ++ key)

    unfoldable pub get_config : Config → Text → Option Text
    unfolding get_config_from_env find_parent config_scalar_to_string
    get_config config key = elim (get_config_from_env key) [
      | some value ↦ some value
      | none ↦ elim (find_parent config.root (split_key key)) [
        | none ↦ none
        | some (parent, leaf) ↦ Option.bind (get_item parent leaf) config_scalar_to_string
      ]
    ]

    unfoldable pub get_config_or_default : Config → Text → Option Text → Option Text
    unfolding get_config
    get_config_or_default config key default_value = elim (get_config config key) [
      | some value ↦ some value
      | none ↦ default_value
    ]
