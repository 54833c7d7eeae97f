-- ===== src/Config/Paths/Frame.antt =====
-- A change at one key leaves what other keys find.
use mathlib.Core.Option.{some-injective}
use mathlib.Core.Path.{subst}
use avar.Base.{
  Bool, List, Option, Option-cases, [], ap, arith, false, if◌then◌else◌, inl, inr, none, not, some,
  sym, true, ◌||◌, ◌∙◌, ◌∷◌, ◌≡◌,
}
use avar.Config.Paths.Reach.{lookup-new}
use avar.CString.{Text, str_eq}
use avar.Proxy.{is_empty}
use avar.Cjson.{Cjson, IsLawful}
use avar.Config.{update_parent}
use avar.Config.Paths.{lookup, reach, Diverge, if_some, update_parent-IsUpdated}

module _ ⦃cj : Cjson⦄ where
  open cj use {Json, new_object, is_object, get_item, put_item, add_item, delete_item}

  lookup_same :
      (a b : Json) (t : Text) (ts : List Text)
      → get_item a t ≡ get_item b t
      → lookup a (t ∷ ts) ≡ lookup b (t ∷ ts)
  lookup_same a b t [] h = ground (arith, h)
  lookup_same a b t (n ∷ ts) h =
      ap
        (λ o. elim o as (λ x. Option Json) [
          | none ↦ none
          | some child ↦ if is_empty t || not (is_object child) then none else lookup child (n ∷ ts)
        ])
        h

  module _ (laws : IsLawful cj) where
    open laws use {
      is_object-new, is_object-put, is_object-add, get-new, get-put, get-put_other, get-add,
      get-add_other,
    }

    lookup_below :
        (a : Json) (t n : Text) (ts : List Text) (child : Json)
        → get_item a t ≡ some child
        → is_empty t ≡ false
        → is_object child ≡ true
        → lookup a (t ∷ n ∷ ts) ≡ lookup child (n ∷ ts)
    lookup_below a t n ts child h e o = ground (arith, h, e, o)

    module _ (create : Bool) (f : Json → Text → Bool × Json) where
      -- A change of a document leaves what other keys find.
      abbrev Keeps : List Text → Json → Json → Type 0
      Keeps segments after before =
          (other : List Text) → Diverge segments other → lookup after other ≡ lookup before other

      at_leaf-Keeps :
          (root : Json) (segment : Text)
          → ((j : Text)
              → str_eq segment j ≡ false
              → get_item (f root segment).1 j ≡ get_item root j)
          → Keeps (segment ∷ []) (f root segment).1 root
      at_leaf-Keeps root segment frame [] d = absurd d
      at_leaf-Keeps root segment frame (t ∷ ts) (inl apart) =
          lookup_same (f root segment).1 root t ts (frame t apart)
      at_leaf-Keeps root segment frame (t ∷ ts) (inr (same, d)) = absurd d

      added-Keeps :
          (root inner : Json) (segment next : Text) (segments : List Text)
          → get_item root segment ≡ none
          → is_empty segment ≡ false
          → is_object root ≡ true
          → is_object inner ≡ true
          → Keeps (next ∷ segments) inner new_object
          → Keeps (segment ∷ next ∷ segments) (add_item root segment inner) root
      added-Keeps root inner segment next segments e n o i keeps [] d = absurd d
      added-Keeps root inner segment next segments e n o i keeps (t ∷ ts) (inl apart) =
          lookup_same (add_item root segment inner) root t ts
            (get-add_other root segment t inner apart)
      added-Keeps root inner segment next segments e n o i keeps (t ∷ []) (inr (same, d)) = absurd d
      added-Keeps root inner segment next segments e n o i keeps (t ∷ u ∷ ts) (inr (same, d)) =
          subst (λ x. lookup (add_item root segment inner) (x ∷ u ∷ ts) ≡ lookup root (x ∷ u ∷ ts))
            same
            (lookup_below (add_item root segment inner) segment u ts inner
                (get-add root segment inner o e) n i
              ∙ keeps (u ∷ ts) d
              ∙ lookup-new laws (u ∷ ts)
              ∙ ground (arith, e))

      put-Keeps :
          (root child inner : Json) (segment next : Text) (segments : List Text)
          → get_item root segment ≡ some child
          → is_empty segment ≡ false
          → is_object child ≡ true
          → is_object inner ≡ true
          → Keeps (next ∷ segments) inner child
          → Keeps (segment ∷ next ∷ segments) (put_item root segment inner) root
      put-Keeps root child inner segment next segments e n o i keeps [] d = absurd d
      put-Keeps root child inner segment next segments e n o i keeps (t ∷ ts) (inl apart) =
          lookup_same (put_item root segment inner) root t ts
            (get-put_other root segment t inner apart)
      put-Keeps root child inner segment next segments e n o i keeps (t ∷ []) (inr (same, d)) =
          absurd d
      put-Keeps root child inner segment next segments e n o i keeps (t ∷ u ∷ ts) (inr (same, d)) =
          subst (λ x. lookup (put_item root segment inner) (x ∷ u ∷ ts) ≡ lookup root (x ∷ u ∷ ts))
            same
            (lookup_below (put_item root segment inner) segment u ts inner
                (get-put root segment inner child e) n i
              ∙ keeps (u ∷ ts) d
              ∙ sym (lookup_below root segment u ts child e n o))

      pub update_parent-Keeps :
          (root : Json) (segments : List Text) (p : Json) (leaf : Text)
          → reach create root segments ≡ some (p, leaf)
          → is_object (f p leaf).1 ≡ is_object p
          → ((j : Text) → str_eq leaf j ≡ false → get_item (f p leaf).1 j ≡ get_item p j)
          → Keeps segments (update_parent create f root segments).1 root
      unfolding update_parent
      update_parent-Keeps root [] p leaf h k frame = λ other d. absurd d
      update_parent-Keeps root (segment ∷ []) p leaf h k frame =
          let (e, here) = if_some (is_empty segment) _ _ h in
          let place = some-injective (root, segment) (p, leaf) here in
          subst (λ b. Keeps (segment ∷ []) (if b then (false, root) else f root segment).1 root)
            (sym e)
            (at_leaf-Keeps root segment (
              subst
                (λ x. (j : Text) → str_eq x.1 j ≡ false → get_item (f x.0 x.1).1 j ≡ get_item x.0 j)
                (sym place) frame))
      update_parent-Keeps root (segment ∷ next ∷ segments) p leaf h k frame =
          elim (Option-cases (get_item root segment)) [
            | inl e ↦
                let fresh = reach create new_object (next ∷ segments) in
                let h' : (if is_empty segment || not create || not (is_object root)
                      then none
                      else fresh)
                    ≡ some (p, leaf) =
                  ground (arith, e, h) in
                let (flags, below) =
                  if_some (is_empty segment || not create || not (is_object root)) _ _ h' in
                let r = update_parent create f new_object (next ∷ segments) in
                let u =
                  update_parent-IsUpdated laws create f new_object (next ∷ segments) p leaf below
                    k in
                let eq : (update_parent create f root (segment ∷ next ∷ segments)).1
                    ≡ add_item root segment r.1 =
                  ground (arith, e, flags) in
                subst (λ x. Keeps (segment ∷ next ∷ segments) x root) (sym eq)
                  (added-Keeps root r.1 segment next segments e (ground (arith, flags))
                    (ground (arith, flags)) (u.object ∙ is_object-new)
                    (update_parent-Keeps new_object (next ∷ segments) p leaf below k frame))
            | inr (child, e) ↦
                let rest = reach create child (next ∷ segments) in
                let h' : (if is_empty segment || not (is_object child) then none else rest)
                    ≡ some (p, leaf) =
                  ground (arith, e, h) in
                let (flags, below) = if_some (is_empty segment || not (is_object child)) _ _ h' in
                let o : is_object child ≡ true = ground (arith, flags) in
                let r = update_parent create f child (next ∷ segments) in
                let u =
                  update_parent-IsUpdated laws create f child (next ∷ segments) p leaf below k in
                let eq : (update_parent create f root (segment ∷ next ∷ segments)).1
                    ≡ put_item root segment r.1 =
                  ground (arith, e, flags) in
                subst (λ x. Keeps (segment ∷ next ∷ segments) x root) (sym eq)
                  (put-Keeps root child r.1 segment next segments e (ground (arith, flags)) o
                    (u.object ∙ o)
                    (update_parent-Keeps child (next ∷ segments) p leaf below k frame))
          ]
