-- ===== src/Queue/Names.antt =====
-- The names of the queues, and the items that `queue_add` and `queue_purge_items` leave.
use mathlib.Core.Option
use mathlib.Core.Option.{get_or}
use mathlib.Core.Path.{subst}
use avar.Base.{
  All, Bool, Bool-cases, List, Option, Option-cases, [], arith, false, if◌then◌else◌, inl, inr,
  length, ltb, none, refl, some, true, ◌++◌, ◌∙◌, ◌∷◌, ◌≡◌,
}
use avar.Config.{config_scalar_to_string}
use avar.Config.Arrays.{field_of}
use avar.Queue.{
  has_field, index_where, QueueOptions, queue_object, description_json, no_options, number_or_null,
  text_or_null,
}
use avar.CString.{Text, lit, str_eq, str_eq→eq}
use avar.Cjson.{Cjson, IsLawful}

module _ ⦃cj : Cjson⦄ where
  open cj use {Json, is_object, new_object, new_string, new_bool, new_number, get_item, add_item}

  -- No two of the objects have the same text in a field.
  abbrev pub IsDistinct : Text → List Json → Type 0
  IsDistinct field [] = Unit
  IsDistinct field (item ∷ items) =
      ((value : Text)
        → has_field field value item ≡ true
        → index_where (has_field field value) items ≡ none)
      × IsDistinct field items

  pub index_where-rest :
      (q : Json → Bool) (x : Json) (xs : List Json)
      → index_where q (x ∷ xs) ≡ none
      → (q x ≡ false) × (index_where q xs ≡ none)
  unfolding index_where
  index_where-rest q x xs h = elim (Bool-cases (q x)) [
    | inl here ↦ absurd (ground (arith, here, h))
    | inr other ↦ elim (Option-cases (index_where q xs)) [
      | inl e ↦ (other, e)
      | inr (i, e) ↦ absurd (ground (arith, other, e, h))
    ]
  ]

  index_where-append :
      (q : Json → Bool) (xs : List Json) (v : Json)
      → index_where q xs ≡ none
      → q v ≡ false
      → index_where q (xs ++ v ∷ []) ≡ none
  unfolding index_where
  index_where-append q [] v h o = ground (arith, o)
  index_where-append q (x ∷ xs) v h o =
      let (other, rest) = index_where-rest q x xs h in
      ground (arith, other, index_where-append q xs v rest o)

  -- The new item is the first where the test holds.
  pub index_where-last :
      (q : Json → Bool) (xs : List Json) (v : Json)
      → index_where q xs ≡ none
      → q v ≡ true
      → index_where q (xs ++ v ∷ []) ≡ some (length xs)
  unfolding index_where
  index_where-last q [] v h o = ground (arith, o)
  index_where-last q (x ∷ xs) v h o =
      let (other, rest) = index_where-rest q x xs h in
      ground (arith, other, index_where-last q xs v rest o)

  pub has_field-new :
      (field value other : Text) (v : Json)
      → field_of v field ≡ some value
      → is_object v ≡ true
      → has_field field other v ≡ str_eq value other
  unfolding has_field
  has_field-new field value other v e o = ground (arith, e, o)

  -- An item with a new text keeps the texts distinct.
  pub IsDistinct-append :
      (field value : Text) (xs : List Json) (v : Json)
      → IsDistinct field xs
      → index_where (has_field field value) xs ≡ none
      → field_of v field ≡ some value
      → is_object v ≡ true
      → IsDistinct field (xs ++ v ∷ [])
  unfolding index_where
  IsDistinct-append field value [] v d n e o = ((λ t h. refl), tt)
  IsDistinct-append field value (x ∷ xs) v d n e o =
      let (other, rest) = index_where-rest (has_field field value) x xs n in
      (
        (λ t h. elim (Bool-cases (str_eq value t)) [
          | inl same ↦
              let eq = str_eq→eq value t same in
              absurd (ground (arith, h, subst (λ y. has_field field y x ≡ false) eq other))
          | inr apart ↦
              index_where-append (has_field field t) xs v (d.0 t h)
                (has_field-new field value t v e o ∙ apart)
        ]),
        IsDistinct-append field value xs v d.1 rest e o,
      )

  module _ (laws : IsLawful cj) where
    open laws use {string-new, is_object-new, is_object-add, get-new, get-add, get-add_other}

    -- Members that are added one behind the other.
    abbrev add_all : Json → List (Text × Json) → Json
    add_all o [] = o
    add_all o (m ∷ ms) = add_all (add_item o m.0 m.1) ms

    add_all-is_object :
        (o : Json) (ms : List (Text × Json)) → is_object (add_all o ms) ≡ is_object o
    add_all-is_object o [] = refl
    add_all-is_object o (m ∷ ms) =
        add_all-is_object (add_item o m.0 m.1) ms ∙ is_object-add o m.0 m.1

    get-add_all :
        (o : Json) (ms : List (Text × Json)) (j : Text)
        → All (λ m. str_eq m.0 j ≡ false) ms
        → get_item (add_all o ms) j ≡ get_item o j
    get-add_all o [] j h = refl
    get-add_all o (m ∷ ms) j h =
        get-add_all (add_item o m.0 m.1) ms j h.1 ∙ get-add_other o m.0 j m.1 h.0

    -- The members behind `id` and `name`.
    abbrev more_members : Option QueueOptions → List (Text × Json)
    more_members options =
        let given = get_or options no_options in
        (lit "started", new_bool false)
        ∷ (lit "description", description_json options)
        ∷ (
          lit "maxConcurrentDownloads",
          new_number
              (if ltb 0 given.max_concurrent_downloads then given.max_concurrent_downloads else 4),
        )
        ∷ (lit "maxConnections", number_or_null given.max_connections)
        ∷ (lit "maxRetries", number_or_null given.max_retries)
        ∷ (lit "tempPath", text_or_null given.temp_path)
        ∷ (lit "downloadPath", text_or_null given.download_path)
        ∷ []

    field_of-text :
        (o : Json) (field value : Text)
        → get_item o field ≡ some (new_string value)
        → field_of o field ≡ some value
    unfolding field_of config_scalar_to_string Option.bind
    field_of-text o field value h = ground (arith, h, string-new value)

    -- The two texts of a new queue.
    pub queue_object-fields :
        (id name : Text) (options : Option QueueOptions)
        → (is_object (queue_object id name options) ≡ true)
          × (field_of (queue_object id name options) (lit "id") ≡ some id)
          × (field_of (queue_object id name options) (lit "name") ≡ some name)
    unfolding queue_object
    queue_object-fields id name options =
        let o1 = add_item new_object (lit "id") (new_string id) in
        let o2 = add_item o1 (lit "name") (new_string name) in
        let ms = more_members options in
        (
          add_all-is_object o2 ms
              ∙ is_object-add o1 (lit "name") (new_string name)
              ∙ is_object-add new_object (lit "id") (new_string id)
              ∙ is_object-new,
          field_of-text (add_all o2 ms) (lit "id") id (
              get-add_all o2 ms (lit "id")
                (refl, (refl, (refl, (refl, (refl, (refl, (refl, tt)))))))
              ∙ get-add_other o1 (lit "name") (lit "id") (new_string name) refl
              ∙ get-add new_object (lit "id") (new_string id) is_object-new (get-new (lit "id"))),
          field_of-text (add_all o2 ms) (lit "name") name (
              get-add_all o2 ms (lit "name")
                (refl, (refl, (refl, (refl, (refl, (refl, (refl, tt)))))))
              ∙ get-add o1 (lit "name") (new_string name)
                  (is_object-add new_object (lit "id") (new_string id) ∙ is_object-new)
                  (get-add_other new_object (lit "id") (lit "name") (new_string id) refl
                    ∙ get-new (lit "name"))),
        )
