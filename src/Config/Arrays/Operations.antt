-- ===== src/Config/Arrays/Operations.antt =====
-- What the array operations of src/config.c leave in the configuration.
use mathlib.Core.Path.{subst}
use avar.Base.{
  Bool, Bool-cases, List, Option, [], ap, arith, false, if◌then◌else◌, inl, inr, length, none, refl,
  some, sym, true, ℕ, ◌++◌, ◌==◌, ◌||◌, ◌∙◌, ◌∷◌, ◌≡◌,
}
use avar.Config.Values.{change-root}
use avar.Config.Paths.{Diverge, lookup}
use avar.CString.{Text}
use avar.Cjson.{Cjson, IsLawful}
use avar.Config.{Config, change, split_key, persist_config}
use avar.Config.Arrays.{
  items_at, update_array, append_config_array_item, item_matches, remove_below,
  remove_config_array_items_where, replace_at, replace_config_array_item_at, parse_object,
}
use avar.Config.Arrays.Removal.{HasText, IsThinned, remove_below-IsThinned, IsThinned-none}
use avar.Config.Arrays.Laws.{IsArrayAt, items_at-lookup, items_of, update_array-IsRewritten}

module _ ⦃cj : Cjson⦄ where
  open cj use {Json, print, parse, is_object, new_array}

  -- The array under a key has these items, other keys find what they found, and the file agrees
  -- with the document where the operation reports success.
  pub record IsStored (before after : Config) (done : Bool) (key : Text) (ys : List Json)
      : Type 0 where
    pub items : items_at after key ≡ ys
    pub others :
        (other : Text)
        → Diverge (split_key key) (split_key other)
        → items_at after other ≡ items_at before other
    pub still_object : is_object after.root ≡ true
    pub stored : done ≡ true → after.disk ≡ after.root

  module _ (persists : ℕ → Bool) where
    pub change-disk :
        (config : Config) (r : Bool × Json)
        → (change persists config r).0 ≡ true
        → (change persists config r).1.disk ≡ (change persists config r).1.root
    unfolding change persist_config
    change-disk config (true, root) h = ground (arith, h)
    change-disk config (false, root) h = ground (arith, h)

    pub change-writes :
        (config : Config) (root : Json)
        → (change persists config (true, root)).0 ≡ persists config.writes
    unfolding change persist_config
    change-writes config root = ground arith

    module _ (laws : IsLawful cj) (create : Bool) (f : List Json → Option (List Json)) where
      pub change-IsStored :
          (config : Config) (key : Text) (p : Json) (leaf : Text) (ys : List Json)
          → IsArrayAt create config.root (split_key key) p leaf
          → f (items_at config key) ≡ some ys
          → let r = change persists config (update_array create f config.root (split_key key)) in
            (r.0 ≡ persists config.writes) × IsStored config r.1 r.0 key ys
      change-IsStored config key p leaf ys v h =
          let u = update_array create f config.root (split_key key) in
          let here : f (items_of (lookup config.root (split_key key))) ≡ some ys =
            ap f (sym (items_at-lookup config key)) ∙ h in
          let (done, r) =
            update_array-IsRewritten laws create f config.root (split_key key) p leaf ys v here in
          let after = (change persists config u).1 in
          let same : after.root ≡ u.1 = change-root persists config u in
          (
            ap (λ b. (change persists config (b, u.1)).0) done ∙ change-writes config u.1,
            record {
              items =
                  items_at-lookup after key
                  ∙ ap (λ root. items_of (lookup root (split_key key))) same
                  ∙ r.items;
              others = λ other apart.
                  items_at-lookup after other
                  ∙ ap (λ root. items_of (lookup root (split_key other))) same
                  ∙ ap items_of (r.others (split_key other) apart)
                  ∙ sym (items_at-lookup config other);
              still_object = ap is_object same ∙ r.still_object;
              stored = change-disk config u;
            },
          )

    module _ (laws : IsLawful cj) (config : Config) (key : Text) (p : Json) (leaf : Text) where
      open laws use {parse-print}

      parse_object-print : (v : Json) → is_object v ≡ true → parse_object (print v) ≡ some v
      unfolding parse_object
      parse_object-print v o = ground (arith, parse-print v, o)

      -- append_config_array_item of a printed object adds the object behind the items of the
      -- array, leaves the items of every array whose key parts from this one, and keeps the
      -- document an object; it succeeds exactly if the write does, and the file then holds the
      -- document. cJSON is lawful, and the document is an object in which the key leads to an
      -- array or to nothing.
      pub append_config_array_item-IsStored :
          (v : Json)
          → is_object v ≡ true
          → IsArrayAt true config.root (split_key key) p leaf
          → let r = append_config_array_item persists config key (print v) in
            (r.0 ≡ persists config.writes)
            × IsStored config r.1 r.0 key (items_at config key ++ v ∷ [])
      unfolding append_config_array_item
      append_config_array_item-IsStored v o there =
          let f : List Json → Option (List Json) = λ items. some (items ++ v ∷ []) in
          let r = change persists config (update_array true f config.root (split_key key)) in
          let same : append_config_array_item persists config key (print v) ≡ r =
            ground (arith, parse_object-print v o) in
          subst
            (λ x.
              (x.0 ≡ persists config.writes)
              × IsStored config x.1 x.0 key (items_at config key ++ v ∷ []))
            (sym same)
            (change-IsStored laws true f config key p leaf (items_at config key ++ v ∷ []) there
              refl)

      pub replace_config_array_item_at-IsStored :
          (index : ℕ) (v : Json) (ys : List Json)
          → is_object v ≡ true
          → replace_at index v (items_at config key) ≡ some ys
          → IsArrayAt false config.root (split_key key) p leaf
          → let r = replace_config_array_item_at persists config key index (print v) in
            (r.0 ≡ persists config.writes) × IsStored config r.1 r.0 key ys
      unfolding replace_config_array_item_at
      replace_config_array_item_at-IsStored index v ys o h there =
          let f = replace_at index v in
          let r = change persists config (update_array false f config.root (split_key key)) in
          let same : replace_config_array_item_at persists config key index (print v) ≡ r =
            ground (arith, parse_object-print v o) in
          subst (λ x. (x.0 ≡ persists config.writes) × IsStored config x.1 x.0 key ys) (sym same)
            (change-IsStored laws false f config key p leaf ys there h)

      -- The call of remove_config_array_items_where takes out of the array every object whose
      -- field is the given string and no other item, leaves the rest in their order, and
      -- returns how many are gone, or -1 where some are gone and the write fails. cJSON is
      -- lawful, and the document is an object in which the key leads to an array.
      pub remove_config_array_items_where-items :
          (field value : Text)
          → IsArrayAt false config.root (split_key key) p leaf
          → let r = remove_config_array_items_where persists config key field value in
            (gone : ℕ) × IsThinned
              (HasText field value)
              (items_at config key)
              (items_at r.1 key)
              gone
            × (r.0 ≡ (if gone == 0 || persists config.writes then some gone else none))
      unfolding remove_config_array_items_where
      remove_config_array_items_where-items field value there =
          let q = item_matches field value in
          let xs = items_at config key in
          let f : List Json → Option (List Json) = λ ys. some (remove_below q (length ys) ys 0).0 in
          let r = change persists config (update_array false f config.root (split_key key)) in
          let left = remove_below q (length xs) xs 0 in
          let stored = change-IsStored laws false f config key p leaf left.0 there refl in
          let (gone, counted, thinned) = remove_below-IsThinned field value xs 0 in
          let call = remove_config_array_items_where persists config key field value in
          let same : items_at call.1 key ≡ left.0 = elim (Bool-cases (left.1 == 0)) [
            | inl none_ ↦ ground (
              arith,
              none_,
              IsThinned-none (HasText field value) xs left.0 gone thinned
                  (ground (arith, counted, none_)),
            )
            | inr some_ ↦ elim (Bool-cases r.0) [
              | inl written ↦ ground (arith, some_, written, stored.1.items)
              | inr failed ↦ ground (arith, some_, failed, stored.1.items)
            ]
          ] in
          let result : call.0 ≡ (if gone == 0 || persists config.writes then some gone else none) =
            elim (Bool-cases (left.1 == 0)) [
              | inl none_ ↦ ground (arith, none_, counted)
              | inr some_ ↦ elim (Bool-cases r.0) [
                | inl written ↦ ground (arith, some_, written, stored.0, counted)
                | inr failed ↦ ground (arith, some_, failed, stored.0, counted)
              ]
            ] in
          (
            gone,
            subst (λ ys. IsThinned (HasText field value) xs ys gone) (sym same) thinned,
            result,
          )
