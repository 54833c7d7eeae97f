-- ===== src/Queue/Items.antt =====
-- What `queue_add` leaves of the queues.
use mathlib.Core.Option
use mathlib.Core.Path.{subst}
use avar.Base.{
  Bool, Bool-cases, List, Option, Option-cases, [], ap, arith, false, get_elem?, inl, inr, leb,
  length, none, refl, some, sym, true, ℕ, ◌++◌, ◌||◌, ◌∙◌, ◌∷◌, ◌≡◌, ◌⊎◌,
}
use avar.Proxy.{is_empty}
use avar.Config.Arrays.Laws.{IsArrayAt}
use avar.Config.Arrays.Operations.{IsStored, append_config_array_item-IsStored}
use avar.Config.Arrays.{append_config_array_item, items_at, get_config_array_item_field, object_at}
use avar.Queue.Names.{
  IsDistinct, queue_object-fields, IsDistinct-append, index_where-last, has_field-new,
}
use avar.Queue.{
  QueueOptions, no_error, queue_add, queue_build_json, queue_find_index, queue_generate_id,
  queue_object, queue_resolve_id, queues_key, has_field, index_where,
}
use avar.CString.{str_eq_refl}
use avar.CString.{Text, lit}
use avar.Cjson.{Cjson, IsLawful}
use avar.Config.{Config, split_key}

module _ ⦃cj : Cjson⦄ where
  open cj use {Json, print, is_object}

  length-get_elem? : (xs : List Json) (v : Json) → get_elem? (xs ++ v ∷ []) (length xs) ≡ some v
  length-get_elem? [] v = refl
  length-get_elem? (x ∷ xs) v = length-get_elem? xs v

  module _ (laws : IsLawful cj) (persists : ℕ → Bool) (config : Config) (time rand : ℕ)
      (name : Text) (options : Option QueueOptions) (p : Json) (leaf : Text)
      (there : IsArrayAt true config.root (split_key queues_key) p leaf) where
    abbrev new_id : Text
    new_id = queue_generate_id config time rand

    abbrev new_queue : Json
    new_queue = queue_object new_id name options

    abbrev with_queue : Bool × Config
    with_queue =
        append_config_array_item persists config queues_key (queue_build_json new_id name options)

    with_queue-IsStored :
        (with_queue.0 ≡ persists config.writes)
        × IsStored config with_queue.1 with_queue.0 queues_key
            (items_at config queues_key ++ new_queue ∷ [])
    unfolding queue_build_json
    with_queue-IsStored =
        append_config_array_item-IsStored persists laws config queues_key p leaf new_queue
          (queue_object-fields laws new_id name options).0 there

    -- The name is refused, or no queue has it and the new queue is there.
    queue_add-cases :
        let r = queue_add persists config time rand name options in
        ((r.1.1 ≡ config) × (¬ (r.0 ≡ no_error)))
        ⊎ ((is_empty name ≡ false)
            × (index_where (has_field (lit "name") name) (items_at config queues_key) ≡ none)
            × (r.1.1 ≡ with_queue.1)
            × (r.0 ≡ no_error → r.1.0 ≡ some new_id))
    unfolding queue_add queue_find_index
    queue_add-cases =
        let found = queue_find_index config (lit "name") name in
        elim (Bool-cases (is_empty name || leb 128 (length name))) [
          | inl refused ↦ inl (ground (arith, refused), λ e. ground (arith, refused, e))
          | inr allowed ↦ elim (Option-cases found) [
            | inr (i, taken) ↦
                inl (ground (arith, allowed, taken), λ e. ground (arith, allowed, taken, e))
            | inl free ↦ elim (Bool-cases with_queue.0) [
              | inl done ↦ inr (
                ground (arith, allowed),
                free,
                ground (arith, allowed, free, done),
                λ e. ground (arith, allowed, free, done),
              )
              | inr failed ↦ inr (
                ground (arith, allowed),
                free,
                ground (arith, allowed, free, failed),
                λ e. absurd (ground (arith, allowed, free, failed, e)),
              )
            ]
          ]
        ]

    -- queue_add keeps the names of the queues distinct, whether it succeeds or not, where
    -- cJSON is lawful and the document is an object in which dm.queues leads to an array or to
    -- nothing.
    pub queue_add-IsDistinct :
        IsDistinct (lit "name") (items_at config queues_key)
        → IsDistinct
            (lit "name")
            (items_at (queue_add persists config time rand name options).1.1 queues_key)
    queue_add-IsDistinct distinct = elim queue_add-cases [
      | inl (same, refused) ↦
          subst (λ c. IsDistinct (lit "name") (items_at c queues_key)) (sym same) distinct
      | inr (named, free, same, id) ↦
          let fields = queue_object-fields laws new_id name options in
          subst (λ c. IsDistinct (lit "name") (items_at c queues_key)) (sym same)
            (subst (IsDistinct (lit "name")) (sym with_queue-IsStored.1.items) (
              IsDistinct-append (lit "name") name (items_at config queues_key) new_queue distinct
                free fields.2 fields.0))
    ]

    resolved :
        is_empty name ≡ false
        → index_where (has_field (lit "name") name) (items_at config queues_key) ≡ none
        → queue_resolve_id with_queue.1 name true ≡ some new_id
    unfolding queue_resolve_id queue_find_index get_config_array_item_field object_at Option.bind
    resolved named free =
        let items = items_at config queues_key in
        let fields = queue_object-fields laws new_id name options in
        let holds : has_field (lit "name") name new_queue ≡ true =
          has_field-new (lit "name") name name new_queue fields.2 fields.0 ∙ str_eq_refl name in
        let place = index_where-last (has_field (lit "name") name) items new_queue free holds in
        let here : items_at with_queue.1 queues_key ≡ items ++ new_queue ∷ [] =
          with_queue-IsStored.1.items in
        ground (arith, named, place, here, length-get_elem? items new_queue, fields)

    -- After a successful queue_add, *id_out is the generated identifier and queue_resolve_id
    -- by the name gives it back, where cJSON is lawful and the document is an object in which
    -- dm.queues leads to an array or to nothing.
    pub queue_resolve_id-queue_add :
        (queue_add persists config time rand name options).0 ≡ no_error
        → let r = queue_add persists config time rand name options in
          (r.1.0 ≡ some new_id) × (queue_resolve_id r.1.1 name true ≡ some new_id)
    queue_resolve_id-queue_add ok = elim queue_add-cases [
      | inl (same, refused) ↦ absurd (refused ok)
      | inr (named, free, same, id) ↦
          (id ok, ap (λ c. queue_resolve_id c name true) same ∙ resolved named free)
    ]
