-- ===== src/State/Saved/Members.antt =====
-- What a document holds that was made by adding members.
use avar.Base.{
  Bool, Bool-cases, List, Option, [], ap, arith, false, if◌then◌else◌, inl, inr, none, not, refl,
  some, sym, true, ◌&&◌, ◌||◌, ◌∙◌, ◌∷◌, ◌≡◌,
}
use avar.CString.{str_eq_refl, str_eq→eq}
use avar.CString.{Text, str_eq}
use avar.Cjson.{Cjson, IsLawful}
use avar.State.Saved.Writing.{add_each}

module _ ⦃cj : Cjson⦄ where
  open cj use {Json, new_object, is_object, get_item, add_item}

  abbrev pub find : List (Text × Option Json) → Text → Option Json
  find [] key = none
  find (m ∷ ms) key = let rest = find ms key in if str_eq m.0 key then m.1 else rest

  abbrev has_key : List (Text × Option Json) → Text → Bool
  has_key [] key = false
  has_key (m ∷ ms) key = str_eq m.0 key || has_key ms key

  -- No key is there twice.
  abbrev pub apart : List (Text × Option Json) → Bool
  apart [] = true
  apart (m ∷ ms) = not (has_key ms m.0) && apart ms

  module _ (laws : IsLawful cj) where
    open laws use {is_object-new, is_object-add, get-new, get-add, get-add_other}

    add_each-is_object :
        (o : Json) (ms : List (Text × Option Json)) → is_object (add_each o ms) ≡ is_object o
    add_each-is_object o [] = refl
    add_each-is_object o ((k, none) ∷ ms) = add_each-is_object o ms
    add_each-is_object o ((k, some v) ∷ ms) =
        add_each-is_object (add_item o k v) ms ∙ is_object-add o k v

    pub is_object-made :
        (ms : List (Text × Option Json)) → is_object (add_each new_object ms) ≡ true
    is_object-made ms = add_each-is_object new_object ms ∙ is_object-new

    get-add_each_other :
        (o : Json) (ms : List (Text × Option Json)) (key : Text)
        → has_key ms key ≡ false
        → get_item (add_each o ms) key ≡ get_item o key
    get-add_each_other o [] key h = refl
    get-add_each_other o ((k, none) ∷ ms) key h = get-add_each_other o ms key (ground (arith, h))
    get-add_each_other o ((k, some v) ∷ ms) key h =
        get-add_each_other (add_item o k v) ms key (ground (arith, h))
        ∙ get-add_other o k key v (ground (arith, h))

    -- A key that is not behind the first.
    not_first :
        (k key : Text) (ms : List (Text × Option Json))
        → has_key ms k ≡ false
        → has_key ms key ≡ true
        → str_eq k key ≡ false
    not_first k key ms out there = elim (Bool-cases (str_eq k key)) [
      | inr differ ↦ differ
      | inl same ↦
          let here : has_key ms key ≡ false = ap (has_key ms) (sym (str_eq→eq k key same)) ∙ out in
          absurd (ground (arith, here, there))
    ]

    not_behind :
        (k key : Text) (ms : List (Text × Option Json))
        → has_key ms k ≡ false
        → str_eq k key ≡ true
        → has_key ms key ≡ false
    not_behind k key ms out same = ap (has_key ms) (sym (str_eq→eq k key same)) ∙ out

    get-add_each :
        (o : Json) (ms : List (Text × Option Json)) (key : Text)
        → is_object o ≡ true
        → apart ms ≡ true
        → ((k : Text) → has_key ms k ≡ true → get_item o k ≡ none)
        → get_item (add_each o ms) key ≡ (if has_key ms key then find ms key else get_item o key)
    get-add_each o [] key object d fresh = refl
    get-add_each o ((k, none) ∷ ms) key object d fresh =
        let out : has_key ms k ≡ false = ground (arith, d) in
        elim (Bool-cases (str_eq k key)) [
          | inl same ↦
              let gone = get-add_each_other o ms key (not_behind k key ms out same) in
              ground (arith, same, gone, fresh key (ground (arith, same)))
          | inr differ ↦
              let rest =
                get-add_each o ms key object (ground (arith, d))
                  (λ j h. fresh j (ground (arith, h))) in
              ground (arith, differ, rest)
        ]
    get-add_each o ((k, some v) ∷ ms) key object d fresh =
        let out : has_key ms k ≡ false = ground (arith, d) in
        let o' = add_item o k v in
        let free : get_item o k ≡ none = fresh k (ground (arith, str_eq_refl k)) in
        elim (Bool-cases (str_eq k key)) [
          | inl same ↦
              let there : get_item o' key ≡ some v =
                ap (get_item o') (sym (str_eq→eq k key same)) ∙ get-add o k v object free in
              let kept = get-add_each_other o' ms key (not_behind k key ms out same) in
              ground (arith, same, kept, there)
          | inr differ ↦
              let rest =
                get-add_each o' ms key (is_object-add o k v ∙ object) (ground (arith, d)) (λ j h.
                  get-add_other o k j v (not_first k j ms out h) ∙ fresh j (ground (arith, h))) in
              ground (arith, differ, rest, get-add_other o k key v differ)
        ]

    -- A document that was made by adding members with different keys.
    pub get-made :
        (ms : List (Text × Option Json)) (key : Text)
        → apart ms ≡ true
        → get_item (add_each new_object ms) key ≡ find ms key
    get-made ms key d =
        get-add_each new_object ms key is_object-new d (λ k h. get-new k) ∙ missing ms
      where
        missing :
            (ns : List (Text × Option Json))
            → (if has_key ns key then find ns key else get_item new_object key) ≡ find ns key
        missing [] = get-new key
        missing (n ∷ ns) = ground (arith, missing ns)
