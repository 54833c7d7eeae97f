-- ===== src/Download/Upsert.antt =====
-- What storing an item leaves where the file cannot be written.
use mathlib.Core.Option.{some-injective}
use mathlib.Core.Path.{subst}
use avar.Config.{change, Config, split_key}
use avar.Base.{
  Bool, Bool-cases, List, Option-cases, [], ap, arith, false, get_elem?, if◌then◌else◌, inl, inr,
  some, suc, sym, true, ℕ, ◌++◌, ◌∙◌, ◌∷◌, ◌≡◌,
}
use avar.Queue.Detach.{array_there}
use avar.Config.Arrays.Laws.{IsArrayAt}
use avar.Config.Arrays.Operations.{IsStored, append_config_array_item-IsStored, change-IsStored}
use avar.Config.Arrays.{
  item_matches, items_at, parse_object, replace_first, update_config_array_item,
  append_config_array_item, update_array,
}
use avar.Queue.{items_key}
use avar.CString.{Text, lit}
use avar.Cjson.{Cjson, IsLawful}
use avar.Config.{Config, split_key, change}
use avar.Download.{store_item}

module _ ⦃cj : Cjson⦄ where
  open cj use {Json, print, parse, is_object}

  replace_first-get_elem? :
      (q : Json → Bool) (v : Json) (xs ys : List Json)
      → replace_first q v xs ≡ some ys
      → (i : ℕ) × (get_elem? ys i ≡ some v)
  unfolding replace_first
  replace_first-get_elem? q v [] ys h = absurd (ground (arith, h))
  replace_first-get_elem? q v (x ∷ xs) ys h = elim (Bool-cases (q x)) [
    | inl here ↦
        let e : v ∷ xs ≡ ys = some-injective (v ∷ xs) ys (ground (arith, here, h)) in
        (0, ap (λ zs. get_elem? zs 0) (sym e))
    | inr other ↦ elim (Option-cases (replace_first q v xs)) [
      | inl e ↦ absurd (ground (arith, other, e, h))
      | inr (zs, e) ↦
          let (i, at) = replace_first-get_elem? q v xs zs e in
          let same : x ∷ zs ≡ ys = some-injective (x ∷ zs) ys (ground (arith, other, e, h)) in
          (suc i, ap (λ l. get_elem? l (suc i)) (sym same) ∙ at)
    ]
  ]

  module _ (laws : IsLawful cj) (persists : ℕ → Bool) (config : Config) (item_id : Text) (v : Json)
      (ys : List Json) (p : Json) (leaf : Text)
      (there : IsArrayAt false config.root (split_key items_key) p leaf)
      (object : is_object v ≡ true)
      (found : replace_first (item_matches (lit "id") item_id) v (items_at config items_key)
        ≡ some ys) where
    open laws use {parse-print}

    abbrev updated : Bool × Config
    updated = update_config_array_item persists config items_key (lit "id") item_id (print v)

    updated-IsStored :
        (updated.0 ≡ persists config.writes) × IsStored config updated.1 updated.0 items_key ys
    unfolding update_config_array_item parse_object
    updated-IsStored =
        let f = replace_first (item_matches (lit "id") item_id) v in
        let r = change persists config (update_array false f config.root (split_key items_key)) in
        let same : updated ≡ r = ground (arith, parse-print v, object) in
        subst (λ x. (x.0 ≡ persists config.writes) × IsStored config x.1 x.0 items_key ys)
          (sym same) (change-IsStored persists laws false f config items_key p leaf ys there found)

    appended-items :
        items_at (append_config_array_item persists updated.1 items_key (print v)).1 items_key
        ≡ ys ++ v ∷ []
    appended-items =
        let stored = updated-IsStored.1 in
        let (i, at) =
          replace_first-get_elem? (item_matches (lit "id") item_id) v (items_at config items_key) ys
            found in
        let (q, last, again) =
          array_there true updated.1 items_key i v stored.still_object
            (ap (λ xs. get_elem? xs i) stored.items ∙ at) in
        (append_config_array_item-IsStored persists laws updated.1 items_key q last v object
          again).1.items
        ∙ ap (λ xs. xs ++ v ∷ []) stored.items

    -- Where an item of the identifier is in the list, the object that dm_item_upsert stores
    -- takes the place of the first one; but where the first write of the file fails, the
    -- object is also added a second time, at the end. cJSON is lawful, and the document is an
    -- object in which dm.items leads to an array.
    pub store_item-items :
        items_at (store_item persists config item_id (print v)).1 items_key
        ≡ (if persists config.writes then ys else ys ++ v ∷ [])
    unfolding store_item
    store_item-items = elim (Bool-cases (persists config.writes)) [
      | inl written ↦
          let done : updated.0 ≡ true = updated-IsStored.0 ∙ written in
          ground (arith, written, done, updated-IsStored.1.items)
      | inr failed ↦
          let undone : updated.0 ≡ false = updated-IsStored.0 ∙ failed in
          ground (arith, failed, undone, appended-items)
    ]
