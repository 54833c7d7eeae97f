-- ===== src/Bookmark.antt =====
-- src/bookmark.c: the bookmarks, an array of objects in a file of its own.
pub mod Adding
use mathlib.Core.Option
use mathlib.Core.Option.{get_or}
use avar.Base.{
  Bool, List, Option, [], false, if◌then◌else◌, length, none, not, some, suc, zero, ℕ, ◌&&◌, ◌++◌,
  ◌∷◌,
}
use avar.Proxy.{is_empty}
use avar.CString.{Text, lit, decimal, is_some}
use avar.Cjson.{Cjson}
use avar.Config.Arrays.{remove_first}
use avar.Queue.{index_where, text_is}

pub data BookmarkError : Type 0 where
  bookmark_no_error bookmark_not_found bookmark_invalid_arg bookmark_persist : BookmarkError

abbrev pub root_key : Text
root_key = lit "bookmarks"

module _ ⦃cj : Cjson⦄ where
  open cj use {
    Json, JsonText, print, parse, new_number, new_string, new_object, new_array, is_object,
    string_value, array_items, get_item, put_item, add_item,
  }

  -- The document of the file, where it can be read.
  unfoldable pub load_json_file : Option JsonText → Json
  load_json_file none = new_object
  load_json_file (some text) = elim (parse text) [
    | none ↦ new_object
    | some root ↦ if is_object root then root else new_object
  ]

  -- The items of `bookmarks_array`, and the document with others in their place.
  abbrev pub bookmark_items : Json → List Json
  bookmark_items root = get_or (Option.bind (get_item root root_key) array_items) []

  unfoldable pub set_bookmarks : Json → List Json → Json
  set_bookmarks root items = elim (get_item root root_key) [
    | none ↦ add_item root root_key (new_array items)
    | some old ↦ put_item root root_key (new_array items)
  ]

  unfoldable pub field_matches : Text → Text → Json → Bool
  field_matches field value entry = text_is value (Option.bind (get_item entry field) string_value)

  unfoldable pub find_bookmark_index_by_field : List Json → Text → Text → Option ℕ
  unfolding index_where field_matches
  find_bookmark_index_by_field items field value = index_where (field_matches field value) items

  unfoldable pub generate_bookmark_id : ℕ → Text
  generate_bookmark_id time = lit "bm" ++ decimal time

  -- The object of a new bookmark, and one that is there with the new values.
  unfoldable pub new_entry : Text → Text → Text → ℕ → ℕ → Json
  new_entry id url title link_count now =
      let o1 = add_item new_object (lit "id") (new_string id) in
      let o2 = add_item o1 (lit "url") (new_string url) in
      let o3 = add_item o2 (lit "title") (new_string title) in
      let o4 = add_item o3 (lit "linkCount") (new_number link_count) in
      let o5 = add_item o4 (lit "createdAt") (new_number now) in
      add_item o5 (lit "updatedAt") (new_number now)

  unfoldable pub renewed : Text → ℕ → ℕ → Json → Json
  renewed title link_count now entry =
      let o1 = put_item entry (lit "title") (new_string title) in
      let o2 = put_item o1 (lit "linkCount") (new_number link_count) in
      put_item o2 (lit "updatedAt") (new_number now)

  -- The item at an index with a change.
  unfoldable pub change_at : ℕ → (Json → Json) → List Json → List Json
  change_at i f [] = []
  change_at zero f (x ∷ xs) = f x ∷ xs
  change_at (suc i) f (x ∷ xs) = x ∷ change_at i f xs

  -- Whether `resolve_bookmarks_path` gives a path.
  module _ (located : Bool) where
    unfoldable pub load_bookmarks_root : Option JsonText → Option Json
    unfolding load_json_file
    load_bookmarks_root file = if located then some (load_json_file file) else none

    unfoldable pub bookmark_has_url : Option JsonText → Text → Bool
    unfolding load_bookmarks_root find_bookmark_index_by_field
    bookmark_has_url file url = elim (load_bookmarks_root file) [
      | none ↦ false
      | some root ↦
          not (is_empty url)
          && is_some (find_bookmark_index_by_field (bookmark_items root) (lit "url") url)
    ]

    unfoldable pub bookmark_count : Option JsonText → ℕ
    unfolding load_bookmarks_root
    bookmark_count file = elim (load_bookmarks_root file) [
      | none ↦ 0
      | some root ↦ length (bookmark_items root)
    ]

    unfoldable pub bookmark_list_json : Option JsonText → Option JsonText
    unfolding load_bookmarks_root
    bookmark_list_json file =
        Option.map (λ root. print (new_array (bookmark_items root))) (load_bookmarks_root file)

    -- Whether the file can be written.
    module _ (persists : Bool) where
      unfoldable pub save_bookmarks_root : Option JsonText → Json → BookmarkError × Option JsonText
      save_bookmarks_root file root =
          if located && persists
          then (bookmark_no_error, some (print root))
          else (bookmark_persist, file)

      -- The items after `bookmark_add`, and the identifier of a new one.
      unfoldable pub added_items : ℕ → List Json → Text → Text → ℕ → Option Text × List Json
      unfolding find_bookmark_index_by_field new_entry renewed change_at generate_bookmark_id
      added_items now items url title link_count =
          elim (find_bookmark_index_by_field items (lit "url") url) [
            | some existing ↦ (none, change_at existing (renewed title link_count now) items)
            | none ↦
                let id = generate_bookmark_id now in
                (some id, items ++ new_entry id url title link_count now ∷ [])
          ]

      -- The error, `*id_out` and the file.
      unfoldable pub bookmark_add :
          ℕ
          → Option JsonText
          → Text
          → Option Text
          → ℕ
          → BookmarkError × (Option Text × Option JsonText)
      unfolding load_bookmarks_root added_items set_bookmarks save_bookmarks_root
      bookmark_add now file url title link_count =
          if is_empty url
          then (bookmark_invalid_arg, (none, file))
          else elim (load_bookmarks_root file) [
            | none ↦ (bookmark_persist, (none, file))
            | some root ↦
                let (id, items) =
                  added_items now (bookmark_items root) url (get_or title []) link_count in
                let (error, file') = save_bookmarks_root file (set_bookmarks root items) in
                (error, (id, file'))
          ]

      unfoldable pub bookmark_remove :
          Option JsonText → Text → Bool → BookmarkError × Option JsonText
      unfolding load_bookmarks_root remove_first field_matches set_bookmarks save_bookmarks_root
      bookmark_remove file id_or_url by_url =
          let field = if by_url then lit "url" else lit "id" in
          if is_empty id_or_url
          then (bookmark_invalid_arg, file)
          else elim (load_bookmarks_root file) [
            | none ↦ (bookmark_persist, file)
            | some root ↦
                elim (remove_first (field_matches field id_or_url) (bookmark_items root)) [
                  | none ↦ (bookmark_not_found, file)
                  | some items ↦ save_bookmarks_root file (set_bookmarks root items)
                ]
          ]
