-- ===== src/Bookmark/Adding.antt =====
-- Which addresses have a bookmark after `bookmark_add`.
use mathlib.Core.Option
use mathlib.Core.Option.{get_or}
use avar.Base.{
  Bool, Bool-cases, List, Option, Option-cases, [], ap, arith, false, inl, inr, none, refl, some,
  suc, sym, true, zero, ℕ, ◌++◌, ◌||◌, ◌∙◌, ◌∷◌, ◌≡◌,
}
use avar.CString.{str_eq→eq}
use avar.Proxy.{is_empty}
use avar.CString.{Text, lit, is_some, str_eq}
use avar.Cjson.{Cjson, IsLawful}
use avar.Bookmark.{
  renewed, bookmark_items, change_at, field_matches, load_json_file, new_entry, root_key,
  set_bookmarks, added_items, bookmark_add, bookmark_has_url, find_bookmark_index_by_field,
  load_bookmarks_root, save_bookmarks_root, generate_bookmark_id,
}
use avar.Queue.{index_where, text_is}

module _ ⦃cj : Cjson⦄ where
  open cj use {
    Json, JsonText, print, parse, new_number, new_string, new_object, new_array, is_object,
    string_value, array_items, get_item, put_item, add_item,
  }

  abbrev any : (Json → Bool) → List Json → Bool
  any q xs = is_some (index_where q xs)

  any-cons : (q : Json → Bool) (x : Json) (xs : List Json) → any q (x ∷ xs) ≡ (q x || any q xs)
  unfolding index_where
  any-cons q x xs = ground arith

  any-append :
      (q : Json → Bool) (xs : List Json) (v : Json) → any q (xs ++ v ∷ []) ≡ (any q xs || q v)
  unfolding index_where
  any-append q [] v = any-cons q v [] ∙ ground arith
  any-append q (x ∷ xs) v =
      ground (arith, any-cons q x (xs ++ v ∷ []), any-cons q x xs, any-append q xs v)

  any-change_at :
      (q : Json → Bool) (i : ℕ) (f : Json → Json) (xs : List Json)
      → ((x : Json) → q (f x) ≡ q x)
      → any q (change_at i f xs) ≡ any q xs
  unfolding change_at
  any-change_at q i f [] same = refl
  any-change_at q zero f (x ∷ xs) same =
      any-cons q (f x) xs ∙ ap (λ b. b || any q xs) (same x) ∙ sym (any-cons q x xs)
  any-change_at q (suc i) f (x ∷ xs) same =
      any-cons q x (change_at i f xs)
      ∙ ap (λ b. q x || b) (any-change_at q i f xs same)
      ∙ sym (any-cons q x xs)

  module _ (laws : IsLawful cj) where
    open laws use {
      parse-print, string-new, items-new, is_object-new, is_object-put, is_object-add, get-new,
      get-put, get-put_other, get-add, get-add_other,
    }

    set_bookmarks-items :
        (root : Json) (items : List Json)
        → is_object root ≡ true
        → (bookmark_items (set_bookmarks root items) ≡ items)
          × (is_object (set_bookmarks root items) ≡ true)
    unfolding set_bookmarks Option.bind
    set_bookmarks-items root items o = elim (Option-cases (get_item root root_key)) [
      | inl e ↦ ground (
        arith,
        e,
        get-add root root_key (new_array items) o e,
        items-new items,
        is_object-add root root_key (new_array items),
        o,
      )
      | inr (old, e) ↦ ground (
        arith,
        e,
        get-put root root_key (new_array items) old e,
        items-new items,
        is_object-put root root_key (new_array items),
        o,
      )
    ]

    load_json_file-is_object : (file : Option JsonText) → is_object (load_json_file file) ≡ true
    unfolding load_json_file
    load_json_file-is_object none = is_object-new
    load_json_file-is_object (some text) = elim (Option-cases (parse text)) [
      | inl e ↦ ground (arith, e, is_object-new)
      | inr (root, e) ↦ ground (arith, e, is_object-new)
    ]

    renewed-url :
        (title : Text) (link_count now : ℕ) (value : Text) (entry : Json)
        → field_matches (lit "url") value (renewed title link_count now entry)
          ≡ field_matches (lit "url") value entry
    unfolding field_matches renewed
    renewed-url title link_count now value entry =
        let o1 = put_item entry (lit "title") (new_string title) in
        let o2 = put_item o1 (lit "linkCount") (new_number link_count) in
        ap (λ o. text_is value (Option.bind o string_value))
          (get-put_other o2 (lit "updatedAt") (lit "url") (new_number now) refl
            ∙ get-put_other o1 (lit "linkCount") (lit "url") (new_number link_count) refl
            ∙ get-put_other entry (lit "title") (lit "url") (new_string title) refl)

    new_entry-url :
        (id url title : Text) (link_count now : ℕ) (value : Text)
        → field_matches (lit "url") value (new_entry id url title link_count now) ≡ str_eq url value
    unfolding field_matches new_entry Option.bind
    new_entry-url id url title link_count now value =
        let o1 = add_item new_object (lit "id") (new_string id) in
        let o2 = add_item o1 (lit "url") (new_string url) in
        let o3 = add_item o2 (lit "title") (new_string title) in
        let o4 = add_item o3 (lit "linkCount") (new_number link_count) in
        let o5 = add_item o4 (lit "createdAt") (new_number now) in
        ap (λ o. text_is value (Option.bind o string_value))
          (get-add_other o5 (lit "updatedAt") (lit "url") (new_number now) refl
            ∙ get-add_other o4 (lit "createdAt") (lit "url") (new_number now) refl
            ∙ get-add_other o3 (lit "linkCount") (lit "url") (new_number link_count) refl
            ∙ get-add_other o2 (lit "title") (lit "url") (new_string title) refl
            ∙ get-add o1 (lit "url") (new_string url)
                (is_object-add new_object (lit "id") (new_string id) ∙ is_object-new)
                (get-add_other new_object (lit "id") (lit "url") (new_string id) refl
                  ∙ get-new (lit "url")))
        ∙ ap (text_is value) (string-new url)

    -- Which addresses have a bookmark among the items.
    abbrev known : List Json → Text → Bool
    known items value = any (field_matches (lit "url") value) items

    or_swap : {a c : Bool} (b : Bool) → a ≡ c → (b || a) ≡ (c || b)
    or_swap true h = ground arith
    or_swap false h = ground (arith, h)

    or_known :
        (items : List Json) (url value : Text)
        → known items url ≡ true
        → known items value ≡ (str_eq url value || known items value)
    or_known items url value there = elim (Bool-cases (str_eq url value)) [
      | inr differ ↦ ap (λ b. b || known items value) (sym differ)
      | inl same ↦
          ap (known items) (sym (str_eq→eq url value same))
          ∙ there
          ∙ ap (λ b. b || known items value) (sym same)
    ]

    added_items-known :
        (persists : Bool) (now : ℕ) (items : List Json) (url title : Text) (link_count : ℕ)
        (value : Text)
        → known (added_items true persists now items url title link_count).1 value
          ≡ (str_eq url value || known items value)
    unfolding added_items find_bookmark_index_by_field
    added_items-known persists now items url title link_count value =
        elim (Option-cases (index_where (field_matches (lit "url") url) items)) [
          | inl e ↦
              let entry = new_entry (generate_bookmark_id now) url title link_count now in
              let made : (added_items true persists now items url title link_count).1
                  ≡ items ++ entry ∷ [] =
                ground (arith, e) in
              let more = any-append (field_matches (lit "url") value) items entry in
              let here = new_entry-url (generate_bookmark_id now) url title link_count now value in
              ap (λ xs. known xs value) made ∙ more ∙ or_swap (known items value) here
          | inr (i, e) ↦
              let f = renewed title link_count now in
              let made : (added_items true persists now items url title link_count).1
                  ≡ change_at i f items =
                ground (arith, e) in
              let there : known items url ≡ true = ap is_some e in
              ap (λ xs. known xs value) made
              ∙ any-change_at (field_matches (lit "url") value) i f items
                  (renewed-url title link_count now value)
              ∙ or_known items url value there
        ]

    known-loaded :
        (root : Json) (value : Text)
        → is_object root ≡ true
        → is_empty value ≡ false
        → bookmark_has_url true (some (print root)) value ≡ known (bookmark_items root) value
    unfolding bookmark_has_url load_bookmarks_root load_json_file find_bookmark_index_by_field
    known-loaded root value o named = ground (arith, parse-print root, o, named)

    -- After bookmark_add of an address, exactly the addresses that had a bookmark before and
    -- the one that was given have one, whatever the file held. Both addresses are not empty,
    -- the path of the file is known, the write succeeds and cJSON is lawful.
    pub bookmark_has_url-bookmark_add :
        (now : ℕ) (file : Option JsonText) (url : Text) (title : Option Text) (link_count : ℕ)
        (value : Text)
        → is_empty url ≡ false
        → is_empty value ≡ false
        → bookmark_has_url true (bookmark_add true true now file url title link_count).1.1 value
          ≡ (str_eq url value || bookmark_has_url true file value)
    unfolding bookmark_add bookmark_has_url load_bookmarks_root save_bookmarks_root
        find_bookmark_index_by_field
    bookmark_has_url-bookmark_add now file url title link_count value given named =
        let root = load_json_file file in
        let items =
          (added_items true true now (bookmark_items root) url (get_or title []) link_count).1 in
        let (kept, o) = set_bookmarks-items root items (load_json_file-is_object file) in
        let before : bookmark_has_url true file value ≡ known (bookmark_items root) value =
          ground (arith, named) in
        let saved : (bookmark_add true true now file url title link_count).1.1
            ≡ some (print (set_bookmarks root items)) =
          ground (arith, given) in
        ap (λ f. bookmark_has_url true f value) saved
        ∙ known-loaded (set_bookmarks root items) value o named
        ∙ ap (λ xs. known xs value) kept
        ∙ added_items-known true now (bookmark_items root) url (get_or title []) link_count value
        ∙ ap (λ b. str_eq url value || b) (sym before)
