-- ===== src/Config/Arrays/Laws.antt =====
-- The items of an array after a change to them.
use mathlib.Core.Option
use mathlib.Core.Option.{get_or}
use avar.Base.{
  Bool, List, Option, Option-cases, [], ap, arith, false, inl, inr, none, refl, some, sym, true,
  ◌∙◌, ◌≡◌, ◌⊎◌,
}
use avar.Config.Paths.Reach.{reach-is_object, reach-lookup}
use avar.Config.Paths.Frame.{update_parent-Keeps}
use avar.CString.{Text, str_eq}
use avar.Cjson.{Cjson, IsLawful}
use avar.Config.{find_parent, Config, split_key, update_parent}
use avar.Config.Paths.{lookup, reach, lookup-find_parent, Diverge, update_parent-IsUpdated}
use avar.Config.Arrays.{find_array, update_leaf, items_at, change_items, update_array}

module _ ⦃cj : Cjson⦄ where
  open cj use {Json, is_object, array_items, new_array, get_item, put_item, add_item}

  -- The items of a value, where it is an array.
  abbrev pub items_of : Option Json → List Json
  items_of o = get_or (Option.bind o array_items) []

  found_items :
      (o : Option (Json × Text))
      → (elim o as (λ x. Option (List Json)) [
        | none ↦ none
        | some found ↦ Option.bind (get_item found.0 found.1) array_items
      ])
        ≡ Option.bind (Option.bind o (λ found. get_item found.0 found.1)) array_items
  unfolding Option.bind
  found_items none = refl
  found_items (some found) = refl

  pub items_at-lookup :
      (config : Config) (key : Text)
      → items_at config key ≡ items_of (lookup config.root (split_key key))
  unfolding items_at find_array
  items_at-lookup config key =
      ap (λ o. get_or o [])
        (found_items (find_parent config.root (split_key key))
          ∙ ap (λ o. Option.bind o array_items) (lookup-find_parent config.root (split_key key)))

  -- An array is there, or the first item is to make it.
  pub record IsArrayAt (create : Bool) (root : Json) (segments : List Text) (p : Json) (leaf : Text)
      : Type 0 where
    pub reached : reach create root segments ≡ some (p, leaf)
    pub object : is_object root ≡ true
    pub array :
        ((xs : List Json) × (Option.bind (get_item p leaf) array_items ≡ some xs))
        ⊎ ((create ≡ true) × (get_item p leaf ≡ none))

  -- The items of an array after a change, and what other keys find.
  pub record IsRewritten (before after : Json) (segments : List Text) (ys : List Json)
      : Type 0 where
    pub items : items_of (lookup after segments) ≡ ys
    pub others :
        (other : List Text) → Diverge segments other → lookup after other ≡ lookup before other
    pub still_object : is_object after ≡ true

  module _ (laws : IsLawful cj) where
    open laws use {
      items-new, is_object-new, is_object-put, is_object-add, get-put, get-put_other, get-add,
      get-add_other,
    }

    module _ (create : Bool) (f : List Json → Option (List Json)) where
      change_items-is_object :
          (p : Json) (leaf : Text) (xs : List Json)
          → is_object (change_items f p leaf xs).1 ≡ is_object p
      unfolding change_items
      change_items-is_object p leaf xs = elim (Option-cases (f xs)) [
        | inl e ↦ ground (arith, e)
        | inr (ys, e) ↦ ground (arith, e, is_object-put p leaf (new_array ys))
      ]

      get-change_items_other :
          (p : Json) (leaf j : Text) (xs : List Json)
          → str_eq leaf j ≡ false
          → get_item (change_items f p leaf xs).1 j ≡ get_item p j
      unfolding change_items
      get-change_items_other p leaf j xs apart = elim (Option-cases (f xs)) [
        | inl e ↦ ground (arith, e)
        | inr (ys, e) ↦ ground (arith, e, get-put_other p leaf j (new_array ys) apart)
      ]

      update_leaf-is_object :
          (p : Json) (leaf : Text) → is_object (update_leaf create f p leaf).1 ≡ is_object p
      unfolding update_leaf
      update_leaf-is_object p leaf =
          let made = new_array (get_or (f []) []) in
          elim (Option-cases (get_item p leaf)) [
            | inl e ↦ ground (arith, e, is_object-add p leaf made)
            | inr (v, e) ↦ elim (Option-cases (array_items v)) [
              | inl n ↦ ground (arith, e, n, change_items-is_object p leaf [])
              | inr (xs, a) ↦ ground (arith, e, a, change_items-is_object p leaf xs)
            ]
          ]

      get-update_leaf_other :
          (p : Json) (leaf j : Text)
          → str_eq leaf j ≡ false
          → get_item (update_leaf create f p leaf).1 j ≡ get_item p j
      unfolding update_leaf
      get-update_leaf_other p leaf j apart =
          let made = new_array (get_or (f []) []) in
          elim (Option-cases (get_item p leaf)) [
            | inl e ↦ ground (arith, e, get-add_other p leaf j made apart)
            | inr (v, e) ↦ elim (Option-cases (array_items v)) [
              | inl n ↦ ground (arith, e, n, get-change_items_other p leaf j [] apart)
              | inr (xs, a) ↦ ground (arith, e, a, get-change_items_other p leaf j xs apart)
            ]
          ]

      -- What the changed leaf holds.
      items-update_leaf :
          (p : Json) (leaf : Text) (ys : List Json)
          → is_object p ≡ true
          → ((xs : List Json) × (Option.bind (get_item p leaf) array_items ≡ some xs))
            ⊎ ((create ≡ true) × (get_item p leaf ≡ none))
          → f (items_of (get_item p leaf)) ≡ some ys
          → ((update_leaf create f p leaf).0 ≡ true)
            × (items_of (get_item (update_leaf create f p leaf).1 leaf) ≡ ys)
      unfolding update_leaf change_items Option.bind
      items-update_leaf p leaf ys o (inl (xs, there)) h = elim (Option-cases (get_item p leaf)) [
        | inl e ↦ ground (arith, e, there)
        | inr (v, e) ↦
            let a : array_items v ≡ some xs = ground (arith, e, there) in
            let fx : f xs ≡ some ys = ground (arith, e, a, h) in
            ground (arith, e, a, fx, get-put p leaf (new_array ys) v e, items-new ys)
      ]
      items-update_leaf p leaf ys o (inr (made, missing)) h =
          let fx : f [] ≡ some ys = ground (arith, missing, h) in
          ground (arith, made, missing, fx, get-add p leaf (new_array ys) o missing, items-new ys)

      pub update_array-IsRewritten :
          (root : Json) (segments : List Text) (p : Json) (leaf : Text) (ys : List Json)
          → IsArrayAt create root segments p leaf
          → f (items_of (lookup root segments)) ≡ some ys
          → ((update_array create f root segments).0 ≡ true)
            × IsRewritten root (update_array create f root segments).1 segments ys
      unfolding update_array
      update_array-IsRewritten root segments p leaf ys v h =
          let g = update_leaf create f in
          let r = update_parent create g root segments in
          let o = reach-is_object create root segments (p, leaf) is_object-new v.object v.reached in
          let u =
            update_parent-IsUpdated laws create g root segments p leaf v.reached
              (update_leaf-is_object p leaf) in
          let fx : f (items_of (get_item p leaf)) ≡ some ys =
            ap (λ x. f (items_of x))
              (sym (reach-lookup laws create root segments (p, leaf) v.reached))
            ∙ h in
          let (done, items) = items-update_leaf p leaf ys o v.array fx in
          (
            u.result ∙ done,
            record {
              items = ap items_of u.value ∙ items;
              others =
                  update_parent-Keeps laws create g root segments p leaf v.reached
                    (update_leaf-is_object p leaf) (λ j. get-update_leaf_other p leaf j);
              still_object = u.object ∙ v.object;
            },
          )
