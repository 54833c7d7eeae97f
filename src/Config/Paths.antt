-- ===== src/Config/Paths.antt =====
-- What a dotted key finds before and after `update_parent`.
pub mod Reach
pub mod Frame
use mathlib.Core.Option
use mathlib.Core.Option.{some-injective}
use mathlib.Core.Path.{subst}
use avar.Base.{
  Bool, List, Option, Option-cases, [], arith, false, if◌then◌else◌, inl, inr, none, not, refl,
  some, sym, true, ◌||◌, ◌∷◌, ◌≡◌, ◌⊎◌,
}
use avar.CString.{Text, str_eq}
use avar.Proxy.{is_empty}
use avar.Cjson.{Cjson, IsLawful}
use avar.Config.{find_parent, update_parent}

pub if_some {ℓ} :
    {A : Type ℓ} (b : Bool) (x : Option A) (y : A)
    → (if b then none else x) ≡ some y
    → (b ≡ false) × (x ≡ some y)
if_some true x y h = ground (arith, h)
if_some false x y h = (refl, h)

module _ ⦃cj : Cjson⦄ where
  open cj use {Json, new_object, is_object, get_item, put_item, add_item, delete_item}

  -- The value at a key.
  abbrev pub lookup : Json → List Text → Option Json
  lookup root [] = none
  lookup root (segment ∷ []) = if is_empty segment then none else get_item root segment
  lookup root (segment ∷ next ∷ segments) = elim (get_item root segment) [
    | none ↦ none
    | some child ↦
        let rest = lookup child (next ∷ segments) in
        if is_empty segment || not (is_object child) then none else rest
  ]

  pub lookup-find_parent :
      (root : Json) (segments : List Text)
      → Option.bind (find_parent root segments) (λ found. get_item found.0 found.1)
        ≡ lookup root segments
  unfolding find_parent Option.bind
  lookup-find_parent root [] = refl
  lookup-find_parent root (segment ∷ []) = ground arith
  lookup-find_parent root (segment ∷ next ∷ segments) =
      elim (Option-cases (get_item root segment)) [
        | inl e ↦ ground (arith, e)
        | inr (child, e) ↦ ground (arith, e, lookup-find_parent child (next ∷ segments))
      ]

  -- The object that `update_parent` changes, with new objects where `create` makes them, and the leaf.
  -- There is none where it would have to drop a value that is no object.
  abbrev pub reach : Bool → Json → List Text → Option (Json × Text)
  reach create root [] = none
  reach create root (segment ∷ []) = if is_empty segment then none else some (root, segment)
  reach create root (segment ∷ next ∷ segments) =
      let fresh = reach create new_object (next ∷ segments) in
      elim (get_item root segment) [
        | none ↦ if is_empty segment || not create || not (is_object root) then none else fresh
        | some child ↦
            let rest = reach create child (next ∷ segments) in
            if is_empty segment || not (is_object child) then none else rest
      ]

  -- Two keys that part at some segment.
  abbrev pub Diverge : List Text → List Text → Type 0
  Diverge (s ∷ ss) (t ∷ ts) = (str_eq s t ≡ false) ⊎ ((s ≡ t) × Diverge ss ts)
  Diverge _ _ = ⊥

  module _ (laws : IsLawful cj) (create : Bool) (f : Json → Text → Bool × Json) where
    open laws use {
      is_object-new, is_object-put, is_object-add, get-new, get-put, get-put_other, get-add,
      get-add_other,
    }

    -- What is found at the key in the changed document.
    pub record IsUpdated (r : Bool × Json) (root : Json) (segments : List Text) (p : Json)
        (leaf : Text) : Type 0 where
      pub result : r.0 ≡ (f p leaf).0
      pub object : is_object r.1 ≡ is_object root
      pub value : lookup r.1 segments ≡ get_item (f p leaf).1 leaf

    at_leaf-IsUpdated :
        (root : Json) (segment : Text)
        → is_empty segment ≡ false
        → is_object (f root segment).1 ≡ is_object root
        → IsUpdated (f root segment) root (segment ∷ []) root segment
    at_leaf-IsUpdated root segment e k = record {
      result = refl;
      object = k;
      value = ground (arith, e);
    }

    added-IsUpdated :
        (root : Json) (segment next : Text) (segments : List Text) (p : Json) (leaf : Text)
        (r : Bool × Json)
        → get_item root segment ≡ none
        → is_empty segment ≡ false
        → is_object root ≡ true
        → IsUpdated r new_object (next ∷ segments) p leaf
        → IsUpdated (r.0, add_item root segment r.1) root (segment ∷ next ∷ segments) p leaf
    added-IsUpdated root segment next segments p leaf r e n o u = record {
      result = u.result;
      object = is_object-add root segment r.1;
      value = ground (arith, get-add root segment r.1 o e, u.object, is_object-new, n, u.value);
    }

    put-IsUpdated :
        (root child : Json) (segment next : Text) (segments : List Text) (p : Json) (leaf : Text)
        (r : Bool × Json)
        → get_item root segment ≡ some child
        → is_empty segment ≡ false
        → is_object child ≡ true
        → IsUpdated r child (next ∷ segments) p leaf
        → IsUpdated (r.0, put_item root segment r.1) root (segment ∷ next ∷ segments) p leaf
    put-IsUpdated root child segment next segments p leaf r e n o u = record {
      result = u.result;
      object = is_object-put root segment r.1;
      value = ground (arith, get-put root segment r.1 child e, u.object, o, n, u.value);
    }

    pub update_parent-IsUpdated :
        (root : Json) (segments : List Text) (p : Json) (leaf : Text)
        → reach create root segments ≡ some (p, leaf)
        → is_object (f p leaf).1 ≡ is_object p
        → IsUpdated (update_parent create f root segments) root segments p leaf
    unfolding update_parent
    update_parent-IsUpdated root [] p leaf h k = ground (arith, h)
    update_parent-IsUpdated root (segment ∷ []) p leaf h k =
        let (e, here) = if_some (is_empty segment) _ _ h in
        let place = some-injective (root, segment) (p, leaf) here in
        let updated : is_object (f p leaf).1 ≡ is_object p
            → IsUpdated (f root segment) root (segment ∷ []) p leaf =
          subst
            (λ x.
              is_object (f x.0 x.1).1 ≡ is_object x.0
              → IsUpdated (f root segment) root (segment ∷ []) x.0 x.1)
            place (at_leaf-IsUpdated root segment e) in
        subst
          (λ b. IsUpdated (if b then (false, root) else f root segment) root (segment ∷ []) p leaf)
          (sym e) (updated k)
    update_parent-IsUpdated root (segment ∷ next ∷ segments) p leaf h k =
        elim (Option-cases (get_item root segment)) [
          | inl e ↦
              let fresh = reach create new_object (next ∷ segments) in
              let h' : (if is_empty segment || not create || not (is_object root)
                    then none
                    else fresh)
                  ≡ some (p, leaf) =
                ground (arith, e, h) in
              let (flags, below) =
                if_some (is_empty segment || not create || not (is_object root)) _ _ h' in
              let r = update_parent create f new_object (next ∷ segments) in
              let eq : update_parent create f root (segment ∷ next ∷ segments)
                  ≡ (r.0, add_item root segment r.1) =
                ground (arith, e, flags) in
              subst (λ x. IsUpdated x root (segment ∷ next ∷ segments) p leaf) (sym eq)
                (added-IsUpdated root segment next segments p leaf r e (ground (arith, flags))
                  (ground (arith, flags))
                  (update_parent-IsUpdated new_object (next ∷ segments) p leaf below k))
          | inr (child, e) ↦
              let rest = reach create child (next ∷ segments) in
              let h' : (if is_empty segment || not (is_object child) then none else rest)
                  ≡ some (p, leaf) =
                ground (arith, e, h) in
              let (flags, below) = if_some (is_empty segment || not (is_object child)) _ _ h' in
              let r = update_parent create f child (next ∷ segments) in
              let eq : update_parent create f root (segment ∷ next ∷ segments)
                  ≡ (r.0, put_item root segment r.1) =
                ground (arith, e, flags) in
              subst (λ x. IsUpdated x root (segment ∷ next ∷ segments) p leaf) (sym eq)
                (put-IsUpdated root child segment next segments p leaf r e (ground (arith, flags))
                  (ground (arith, flags))
                  (update_parent-IsUpdated child (next ∷ segments) p leaf below k))
        ]
