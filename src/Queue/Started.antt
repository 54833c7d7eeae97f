-- ===== src/Queue/Started.antt =====
-- `queue_set_started` and `queue_is_started`.
use mathlib.Core.Option
use avar.CString.{Text, lit}
use mathlib.Core.Option.{some-injective}
use avar.Base.{
  Bool, Bool-cases, List, Option-cases, [], ap, arith, false, get_elem?, inl, inr, refl, some, suc,
  sym, true, zero, ℕ, ◌∙◌, ◌∷◌, ◌≡◌,
}
use avar.Config.Arrays.Laws.{IsArrayAt}
use avar.Config.Arrays.Operations.{replace_config_array_item_at-IsStored}
use avar.Queue.Dispatch.{queue_is_started}
use avar.Proxy.{is_empty}
use avar.Config.{Config, split_key}
use avar.Config.Arrays.{
  replace_at, field_of, get_config_array_item_json, items_at, object_at, parse_object,
  replace_config_array_item_at,
}
use avar.Queue.{
  index_where, has_field, queue_find_index, queue_set_started, queues_key, rewrite_item,
}
use avar.Cjson.{Cjson, IsLawful}

module _ ⦃cj : Cjson⦄ where
  open cj use {Json, print, parse, is_object, new_bool, bool_value, get_item, put_item}

  -- Where the first item is the one, and where a later one is.
  index_where-zero :
      (q : Json → Bool) (x : Json) (xs : List Json) → index_where q (x ∷ xs) ≡ some 0 → q x ≡ true
  unfolding index_where
  index_where-zero q x xs h = elim (Bool-cases (q x)) [
    | inl here ↦ here
    | inr other ↦ elim (Option-cases (index_where q xs)) [
      | inl e ↦ absurd (ground (arith, other, e, h))
      | inr (i, e) ↦ absurd (ground (arith, other, e, h))
    ]
  ]

  index_where-suc :
      (q : Json → Bool) (x : Json) (xs : List Json) (i : ℕ)
      → index_where q (x ∷ xs) ≡ some (suc i)
      → (q x ≡ false) × (index_where q xs ≡ some i)
  unfolding index_where
  index_where-suc q x xs i h = elim (Bool-cases (q x)) [
    | inl here ↦ absurd (ground (arith, here, h))
    | inr other ↦ elim (Option-cases (index_where q xs)) [
      | inl e ↦ absurd (ground (arith, other, e, h))
      | inr (j, e) ↦ (other, ground (arith, other, e, h))
    ]
  ]

  -- The item that is found.
  pub index_where-get_elem? :
      (q : Json → Bool) (xs : List Json) (i : ℕ)
      → index_where q xs ≡ some i
      → (v : Json) × (get_elem? xs i ≡ some v) × (q v ≡ true)
  unfolding index_where
  index_where-get_elem? q [] i h = absurd (ground (arith, h))
  index_where-get_elem? q (x ∷ xs) zero h = (x, refl, index_where-zero q x xs h)
  index_where-get_elem? q (x ∷ xs) (suc i) h =
      index_where-get_elem? q xs i (index_where-suc q x xs i h).1

  -- Another item in its place.
  pub replace_found :
      (q : Json → Bool) (xs : List Json) (i : ℕ) (v : Json)
      → index_where q xs ≡ some i
      → q v ≡ true
      → (ys : List Json) × (replace_at i v xs ≡ some ys)
        × (index_where q ys ≡ some i)
        × (get_elem? ys i ≡ some v)
  unfolding index_where replace_at
  replace_found q [] i v h o = absurd (ground (arith, h))
  replace_found q (x ∷ xs) zero v h o = (v ∷ xs, refl, ground (arith, o), refl)
  replace_found q (x ∷ xs) (suc i) v h o =
      let (other, below) = index_where-suc q x xs i h in
      let (ys, replaced, found, there) = replace_found q xs i v below o in
      (x ∷ ys, ground (arith, replaced), ground (arith, other, found), there)

  module _ (laws : IsLawful cj) (persists : ℕ → Bool) (config : Config) (id : Text) (b : Bool)
      (p : Json) (leaf : Text)
      (there : IsArrayAt false config.root (split_key queues_key) p leaf) where
    open laws use {parse-print, bool-new, is_object-put, get-put, get-put_other}

    abbrev has_id : Json → Bool
    has_id = has_field (lit "id") id

    abbrev set_flag : Json → Json
    set_flag obj = put_item obj (lit "started") (new_bool b)

    set_flag-has_id : (v : Json) → has_id (set_flag v) ≡ has_id v
    unfolding has_field field_of
    set_flag-has_id v = ground (
      arith,
      is_object-put v (lit "started") (new_bool b),
      get-put_other v (lit "started") (lit "id") (new_bool b) refl,
    )

    has_id-is_object : (v : Json) → has_id v ≡ true → is_object v ≡ true
    unfolding has_field
    has_id-is_object v h = ground (arith, h)

    -- The call reads the object, sets the flag and puts it back.
    set_started-replaces :
        (index : ℕ) (v : Json)
        → is_empty id ≡ false
        → index_where has_id (items_at config queues_key) ≡ some index
        → get_elem? (items_at config queues_key) index ≡ some v
        → is_object v ≡ true
        → (queue_set_started persists config id b).1
          ≡ (replace_config_array_item_at persists config queues_key index (print (set_flag v))).1
    unfolding queue_set_started queue_find_index rewrite_item get_config_array_item_json object_at
        parse_object
    set_started-replaces index v named found at o =
        ground (arith, named, found, at, o, parse-print v)

    is_started-at :
        (after : Config) (index : ℕ) (v : Json)
        → is_empty id ≡ false
        → index_where has_id (items_at after queues_key) ≡ some index
        → get_elem? (items_at after queues_key) index ≡ some v
        → is_object v ≡ true
        → get_item v (lit "started") ≡ some (new_bool b)
        → queue_is_started after id ≡ b
    unfolding queue_is_started queue_find_index get_config_array_item_json object_at parse_object
        Option.bind
    is_started-at after index v named found at o flag =
        ground (arith, named, found, at, o, parse-print v, flag, bool-new b)

    -- queue_is_started reports the flag that queue_set_started was given, for a queue with a
    -- non-empty identifier that has a member started, whatever the write does, where cJSON is
    -- lawful and the document is an object in which dm.queues leads to an array.
    pub queue_is_started-queue_set_started :
        (index : ℕ) (v w : Json)
        → is_empty id ≡ false
        → queue_find_index config (lit "id") id ≡ some index
        → get_elem? (items_at config queues_key) index ≡ some v
        → get_item v (lit "started") ≡ some w
        → queue_is_started (queue_set_started persists config id b).1 id ≡ b
    unfolding queue_find_index
    queue_is_started-queue_set_started index v w named found at flag =
        let items = items_at config queues_key in
        let (u, at', holds) = index_where-get_elem? has_id items index found in
        let same : u ≡ v = some-injective u v (sym at' ∙ at) in
        let here : has_id v ≡ true = ap has_id (sym same) ∙ holds in
        let o = has_id-is_object v here in
        let o' = is_object-put v (lit "started") (new_bool b) ∙ o in
        let (ys, replaced, found', there') =
          replace_found has_id items index (set_flag v) found (set_flag-has_id v ∙ here) in
        let stored =
          replace_config_array_item_at-IsStored persists laws config queues_key p leaf index
            (set_flag v) ys o' replaced there in
        let after =
          (replace_config_array_item_at persists config queues_key index (print (set_flag v))).1 in
        let read : queue_is_started after id ≡ b =
          is_started-at after index (set_flag v) named
            (ap (index_where has_id) stored.1.items ∙ found')
            (ap (λ xs. get_elem? xs index) stored.1.items ∙ there') o'
            (get-put v (lit "started") (new_bool b) w flag) in
        ap (λ c. queue_is_started c id) (set_started-replaces index v named found at o) ∙ read
