-- ===== src/Queue/Detach.antt =====
-- `queue_detach_items`: the downloads of a queue lose it, one after the other.
use mathlib.Core.Option
use mathlib.Core.Path.{subst}
use avar.Config.Paths.{lookup, Diverge}
use avar.CString.{Text, lit}
use avar.Base.{
  Bool, Bool-cases, List, Option-cases, [], ap, append_assoc, arith, false, get_elem?,
  if◌then◌else◌, inl, inr, length, length-append, map, refl, some, sym, true, ℕ, ◌++◌, ◌+◌, ◌∙◌,
  ◌∷◌, ◌≡◌,
}
use avar.Config.Arrays.Operations.{replace_config_array_item_at-IsStored}
use avar.Config.Paths.Reach.{reach_found}
use avar.Config.Arrays.Laws.{IsArrayAt, items_at-lookup, items_of}
use avar.Config.Paths.{Diverge, lookup}
use avar.Config.Arrays.{
  items_at, replace_at, get_config_array_item_field, get_config_array_item_json,
  get_config_array_size, object_at, parse_object, replace_config_array_item_at,
}
use avar.Queue.{
  detach_from, detach_item, has_field, items_key, no_error, rewrite_item, QueueError,
  queue_detach_items, text_is,
}
use avar.Cjson.{Cjson, IsLawful}
use avar.Config.{Config, split_key}

module _ ⦃cj : Cjson⦄ where
  open cj use {Json, print, parse, is_object, new_null, array_items, get_item, put_item}

  -- An array that has an item is there.
  pub array_there :
      (create : Bool) (config : Config) (key : Text) (i : ℕ) (x : Json)
      → is_object config.root ≡ true
      → get_elem? (items_at config key) i ≡ some x
      → (p : Json) × (leaf : Text) × IsArrayAt create config.root (split_key key) p leaf
  unfolding Option.bind
  array_there create config key i x o h =
      let here : get_elem? (items_of (lookup config.root (split_key key))) i ≡ some x =
        ap (λ xs. get_elem? xs i) (sym (items_at-lookup config key)) ∙ h in
      elim (Option-cases (lookup config.root (split_key key))) [
        | inl e ↦ absurd (ground (arith, here, e))
        | inr (v, e) ↦ elim (Option-cases (array_items v)) [
          | inl n ↦ absurd (ground (arith, here, e, n))
          | inr (ys, a) ↦
              let (found, reached, value) = reach_found create config.root (split_key key) v e in
              (
                found.0,
                found.1,
                record {
                  reached = reached;
                  object = o;
                  array = inl (ys, ground (arith, value, a));
                },
              )
        ]
      ]

  get_elem?-middle :
      (pre : List Json) (x : Json) (xs : List Json)
      → get_elem? (pre ++ x ∷ xs) (length pre) ≡ some x
  get_elem?-middle [] x xs = refl
  get_elem?-middle (y ∷ pre) x xs = get_elem?-middle pre x xs

  replace_at-middle :
      (pre : List Json) (x v : Json) (xs : List Json)
      → replace_at (length pre) v (pre ++ x ∷ xs) ≡ some (pre ++ v ∷ xs)
  unfolding replace_at
  replace_at-middle [] x v xs = refl
  replace_at-middle (y ∷ pre) x v xs = ground (arith, replace_at-middle pre x v xs)

  -- The item without the queue, where it is in it.
  abbrev pub detached : Text → Json → Json
  detached queue_id item =
      if has_field (lit "queueId") queue_id item
      then put_item item (lit "queueId") new_null
      else item

  -- The items of the list of downloads, and the arrays of other keys.
  pub record Rewritten (before after : Config) (ys : List Json) : Type 0 where
    pub items : items_at after items_key ≡ ys
    pub others :
        (other : Text)
        → Diverge (split_key items_key) (split_key other)
        → items_at after other ≡ items_at before other
    pub object : is_object after.root ≡ true

  module _ (laws : IsLawful cj) (persists : ℕ → Bool)
      (all_persist : (n : ℕ) → persists n ≡ true) where
    open laws use {parse-print, is_object-put}

    rewrite_item-Rewritten :
        (config : Config) (pre : List Json) (x : Json) (xs : List Json) (f : Json → Json)
        → is_object config.root ≡ true
        → items_at config items_key ≡ pre ++ x ∷ xs
        → is_object x ≡ true
        → is_object (f x) ≡ true
        → let r = rewrite_item persists config items_key (length pre) f in
          (r.0 ≡ no_error) × Rewritten config r.1 (pre ++ f x ∷ xs)
    unfolding rewrite_item get_config_array_item_json object_at parse_object
    rewrite_item-Rewritten config pre x xs f root_object here o o' =
        let i = length pre in
        let at : get_elem? (items_at config items_key) i ≡ some x =
          ap (λ l. get_elem? l i) here ∙ get_elem?-middle pre x xs in
        let (p, leaf, there) = array_there false config items_key i x root_object at in
        let replaced : replace_at i (f x) (items_at config items_key) ≡ some (pre ++ f x ∷ xs) =
          ap (replace_at i (f x)) here ∙ replace_at-middle pre x (f x) xs in
        let stored =
          replace_config_array_item_at-IsStored persists laws config items_key p leaf i (f x)
            (pre ++ f x ∷ xs) o' replaced there in
        let r = replace_config_array_item_at persists config items_key i (print (f x)) in
        let done : r.0 ≡ true = stored.0 ∙ all_persist config.writes in
        let same : rewrite_item persists config items_key i f ≡ (no_error, r.1) =
          ground (arith, at, o, parse-print x, done) in
        subst (λ y. (y.0 ≡ no_error) × Rewritten config y.1 (pre ++ f x ∷ xs)) (sym same)
          (
            refl,
            record {
              items = stored.1.items;
              others = stored.1.others;
              object = stored.1.still_object;
            },
          )

    detach_item-Rewritten :
        (config : Config) (queue_id : Text) (pre : List Json) (x : Json) (xs : List Json)
        → is_object config.root ≡ true
        → items_at config items_key ≡ pre ++ x ∷ xs
        → let r = detach_item persists config queue_id (length pre) in
          (r.0 ≡ no_error) × Rewritten config r.1 (pre ++ detached queue_id x ∷ xs)
    unfolding detach_item get_config_array_item_field object_at Option.bind has_field
    detach_item-Rewritten config queue_id pre x xs root_object here =
        let i = length pre in
        let at : get_elem? (items_at config items_key) i ≡ some x =
          ap (λ l. get_elem? l i) here ∙ get_elem?-middle pre x xs in
        let tested : text_is queue_id
              (get_config_array_item_field config items_key i (lit "queueId"))
            ≡ has_field (lit "queueId") queue_id x =
          ground (arith, at) in
        let f : Json → Json = λ obj. put_item obj (lit "queueId") new_null in
        elim (Bool-cases (has_field (lit "queueId") queue_id x)) [
          | inl inside ↦
              let o : is_object x ≡ true = ground (arith, inside) in
              let r =
                rewrite_item-Rewritten config pre x xs f root_object here o
                  (is_object-put x (lit "queueId") new_null ∙ o) in
              let same : detach_item persists config queue_id i
                  ≡ rewrite_item persists config items_key i f =
                ground (arith, tested, inside) in
              let item : detached queue_id x ≡ f x = ground (arith, inside) in
              subst (λ y. (y.0 ≡ no_error) × Rewritten config y.1 (pre ++ detached queue_id x ∷ xs))
                (sym same)
                (subst
                  (λ d.
                    let y = rewrite_item persists config items_key i f in
                    (y.0 ≡ no_error) × Rewritten config y.1 (pre ++ d ∷ xs))
                  (sym item) r)
          | inr outside ↦
              let same : detach_item persists config queue_id i ≡ (no_error, config) =
                ground (arith, tested, outside) in
              let item : detached queue_id x ≡ x = ground (arith, outside) in
              subst (λ y. (y.0 ≡ no_error) × Rewritten config y.1 (pre ++ detached queue_id x ∷ xs))
                (sym same)
                (
                  refl,
                  record {
                    items = here ∙ ap (λ d. pre ++ d ∷ xs) (sym item);
                    others = λ other d. refl;
                    object = root_object;
                  },
                )
        ]

    detach_from-Rewritten :
        (config : Config) (queue_id : Text) (pre xs : List Json)
        → is_object config.root ≡ true
        → items_at config items_key ≡ pre ++ xs
        → let r = detach_from persists (length xs) config queue_id (length pre) in
          (r.0 ≡ no_error) × Rewritten config r.1 (pre ++ map (detached queue_id) xs)
    unfolding detach_from
    detach_from-Rewritten config queue_id pre [] o here =
        (refl, record { items = here; others = λ other d. refl; object = o })
    detach_from-Rewritten config queue_id pre (x ∷ xs) o here =
        let d = detached queue_id x in
        let (done, w) = detach_item-Rewritten config queue_id pre x xs o here in
        let next = (detach_item persists config queue_id (length pre)).1 in
        let (ok, rest) =
          detach_from-Rewritten next queue_id (pre ++ d ∷ []) xs w.object
            (w.items ∙ sym (append_assoc pre (d ∷ []) xs)) in
        let index : length (pre ++ d ∷ []) ≡ length pre + 1 = length-append pre (d ∷ []) in
        let later = detach_from persists (length xs) next queue_id (length pre + 1) in
        let (ok', rest') : (later.0 ≡ no_error)
            × Rewritten next later.1 ((pre ++ d ∷ []) ++ map (detached queue_id) xs) =
          subst
            (λ i.
              let y = detach_from persists (length xs) next queue_id i in
              (y.0 ≡ no_error) × Rewritten next y.1 ((pre ++ d ∷ []) ++ map (detached queue_id) xs))
            index (ok, rest) in
        let same : detach_from persists (length (x ∷ xs)) config queue_id (length pre) ≡ later =
          ap
            (λ error. elim error as (λ y. QueueError × Config) [
              | no_error ↦ later
              | other ↦ (other, next)
            ])
            done in
        subst
          (λ y. (y.0 ≡ no_error) × Rewritten config y.1 (pre ++ map (detached queue_id) (x ∷ xs)))
          (sym same)
          (
            ok',
            record {
              items = rest'.items ∙ append_assoc pre (d ∷ []) (map (detached queue_id) xs);
              others = λ other apart. rest'.others other apart ∙ w.others other apart;
              object = rest'.object;
            },
          )

    -- Where every write succeeds, cJSON is lawful and the document is an object,
    -- queue_detach_items succeeds, makes the queueId of every item of the queue null, leaves
    -- the other items, all in their order, and leaves every array whose key parts from
    -- dm.items.
    pub queue_detach_items-Rewritten :
        (config : Config) (queue_id : Text)
        → is_object config.root ≡ true
        → let r = queue_detach_items persists config queue_id in
          (r.0 ≡ no_error)
          × Rewritten config r.1 (map (detached queue_id) (items_at config items_key))
    unfolding queue_detach_items get_config_array_size
    queue_detach_items-Rewritten config queue_id o =
        detach_from-Rewritten config queue_id [] (items_at config items_key) o refl
