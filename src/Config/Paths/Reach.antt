-- ===== src/Config/Paths/Reach.antt =====
-- Where `update_parent` makes its change.
use mathlib.Core.Option.{some-injective}
use mathlib.Core.Path.{subst}
use avar.Base.{
  Bool, List, Option-cases, [], arith, if◌then◌else◌, inl, inr, none, not, refl, some, sym, true,
  ◌||◌, ◌∙◌, ◌∷◌, ◌≡◌,
}
use avar.CString.{Text}
use avar.Proxy.{is_empty}
use avar.Cjson.{Cjson, IsLawful}
use avar.Config.Paths.{lookup, reach, if_some}

module _ ⦃cj : Cjson⦄ where
  open cj use {Json, new_object, is_object, get_item, put_item}

  -- The place of a value that is there.
  pub reach_found :
      (create : Bool) (root : Json) (segments : List Text) (v : Json)
      → lookup root segments ≡ some v
      → (found : Json × Text) × (reach create root segments ≡ some found)
        × (get_item found.0 found.1 ≡ some v)
  reach_found create root [] v h = ground (arith, h)
  reach_found create root (segment ∷ []) v h =
      let (e, here) = if_some (is_empty segment) _ _ h in ((root, segment), ground (arith, e), here)
  reach_found create root (segment ∷ next ∷ segments) v h =
      elim (Option-cases (get_item root segment)) [
        | inl e ↦ absurd (ground (arith, e, h))
        | inr (child, e) ↦
            let h' : (if is_empty segment || not (is_object child)
                  then none
                  else lookup child (next ∷ segments))
                ≡ some v =
              ground (arith, e, h) in
            let (flags, below) = if_some (is_empty segment || not (is_object child)) _ _ h' in
            let (found, reached, value) = reach_found create child (next ∷ segments) v below in
            (found, ground (arith, e, flags, reached), value)
      ]

  -- It is an object where the document is one.
  pub reach-is_object :
      (create : Bool) (root : Json) (segments : List Text) (found : Json × Text)
      → is_object new_object ≡ true
      → is_object root ≡ true
      → reach create root segments ≡ some found
      → is_object found.0 ≡ true
  reach-is_object create root [] found n o h = ground (arith, h)
  reach-is_object create root (segment ∷ []) found n o h =
      let (e, here) = if_some (is_empty segment) _ _ h in
      subst (λ x. is_object x.0 ≡ true) (some-injective (root, segment) found here) o
  reach-is_object create root (segment ∷ next ∷ segments) found n o h =
      elim (Option-cases (get_item root segment)) [
        | inl e ↦
            let h' : (if is_empty segment || not create || not (is_object root)
                  then none
                  else reach create new_object (next ∷ segments))
                ≡ some found =
              ground (arith, e, h) in
            reach-is_object create new_object (next ∷ segments) found n n
              (if_some (is_empty segment || not create || not (is_object root)) _ _ h').1
        | inr (child, e) ↦
            let h' : (if is_empty segment || not (is_object child)
                  then none
                  else reach create child (next ∷ segments))
                ≡ some found =
              ground (arith, e, h) in
            let (flags, below) = if_some (is_empty segment || not (is_object child)) _ _ h' in
            reach-is_object create child (next ∷ segments) found n (ground (arith, flags)) below
      ]

  module _ (laws : IsLawful cj) where
    open laws use {get-new}

    pub lookup-new : (ts : List Text) → lookup new_object ts ≡ none
    lookup-new [] = refl
    lookup-new (t ∷ []) = ground (arith, get-new t)
    lookup-new (t ∷ n ∷ ts) = ground (arith, get-new t)

    -- It holds what the key finds.
    pub reach-lookup :
        (create : Bool) (root : Json) (segments : List Text) (found : Json × Text)
        → reach create root segments ≡ some found
        → lookup root segments ≡ get_item found.0 found.1
    reach-lookup create root [] found h = ground (arith, h)
    reach-lookup create root (segment ∷ []) found h =
        let (e, here) = if_some (is_empty segment) _ _ h in
        subst (λ x. lookup root (segment ∷ []) ≡ get_item x.0 x.1)
          (some-injective (root, segment) found here) (ground (arith, e))
    reach-lookup create root (segment ∷ next ∷ segments) found h =
        elim (Option-cases (get_item root segment)) [
          | inl e ↦
              let h' : (if is_empty segment || not create || not (is_object root)
                    then none
                    else reach create new_object (next ∷ segments))
                  ≡ some found =
                ground (arith, e, h) in
              let below =
                (if_some (is_empty segment || not create || not (is_object root)) _ _ h').1 in
              let missing : lookup root (segment ∷ next ∷ segments) ≡ none = ground (arith, e) in
              missing
              ∙ sym (lookup-new (next ∷ segments))
              ∙ reach-lookup create new_object (next ∷ segments) found below
          | inr (child, e) ↦
              let h' : (if is_empty segment || not (is_object child)
                    then none
                    else reach create child (next ∷ segments))
                  ≡ some found =
                ground (arith, e, h) in
              let (flags, below) = if_some (is_empty segment || not (is_object child)) _ _ h' in
              ground (arith, e, flags, reach-lookup create child (next ∷ segments) found below)
        ]
