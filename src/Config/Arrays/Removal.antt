-- ===== src/Config/Arrays/Removal.antt =====
-- What the loop of `remove_config_array_items_where`, in src/config.c, leaves of the items.
use mathlib.Core.Bool.{false≢true}
use mathlib.Core.Option
use mathlib.Core.Path.{subst}
use avar.Base.{
  Bool, Bool-cases, List, Option-cases, [], ap, arith, get_elem?, if◌then◌else◌, inl, inr, length,
  refl, some, suc, sym, true, zero, ℕ, ◌+◌, ◌∙◌, ◌∷◌, ◌≡◌,
}
use avar.CString.{Text, str_eq_refl, str_eq→eq}
use avar.Cjson.{Cjson}
use avar.Config.Arrays.{delete_at, item_matches, remove_below, remove_round}

-- The second list is the first without the elements that have the property, whose number is the
-- third.
pub data IsThinned {A : Type 0} (P : A → Type 0) : List A → List A → ℕ → Type 0 where
  thin_nil : IsThinned P [] [] 0
  thin_drop :
      {x : A} {xs ys : List A} {n : ℕ} → P x → IsThinned P xs ys n → IsThinned P (x ∷ xs) ys (n + 1)
  thin_keep :
      {x : A} {xs ys : List A} {n : ℕ}
      → ¬ (P x)
      → IsThinned P xs ys n
      → IsThinned P (x ∷ xs) (x ∷ ys) n

-- Where none has the property, nothing changes.
pub IsThinned-none :
    {A : Type 0} (P : A → Type 0) (xs ys : List A) (n : ℕ) → IsThinned P xs ys n → n ≡ 0 → ys ≡ xs
IsThinned-none P _ _ _ thin_nil e = refl
IsThinned-none P _ _ _ (thin_drop h t) e = absurd (omega (arith, e))
IsThinned-none P _ _ _ (thin_keep {x} h t) e = ap (λ zs. x ∷ zs) (IsThinned-none P _ _ _ t e)

module _ ⦃cj : Cjson⦄ where
  open cj use {Json, is_object, string_value, get_item}

  -- An object in which the member of this name is this string.
  pub HasText : Text → Text → Json → Type 0
  HasText field value item =
      (is_object item ≡ true)
      × ((v : Json) × (get_item item field ≡ some v) × (string_value v ≡ some value))

  item_matches-HasText :
      (field value : Text) (item : Json)
      → item_matches field value item ≡ true
      → HasText field value item
  unfolding item_matches Option.bind HasText
  item_matches-HasText field value item h = elim (Option-cases (get_item item field)) [
    | inl e ↦ absurd (ground (arith, e, h))
    | inr (v, e) ↦ elim (Option-cases (string_value v)) [
      | inl e' ↦ absurd (ground (arith, e, e', h))
      | inr (text, e') ↦
          let same : text ≡ value = str_eq→eq text value (ground (arith, e, e', h)) in
          (ground (arith, h), (v, e, e' ∙ ap some same))
    ]
  ]

  HasText-item_matches :
      (field value : Text) (item : Json)
      → HasText field value item
      → item_matches field value item ≡ true
  unfolding item_matches Option.bind HasText
  HasText-item_matches field value item (o, (v, member, text)) =
      ground (arith, o, member, text, str_eq_refl value)

  -- A round at a higher index leaves the first item.
  remove_round-suc :
      (p : Json → Bool) (i : ℕ) (x : Json) (items : List Json) (removed : ℕ)
      → remove_round p (suc i) (x ∷ items) removed
        ≡ (x ∷ (remove_round p i items removed).0, (remove_round p i items removed).1)
  unfolding remove_round delete_at
  remove_round-suc p i x items removed = elim (Option-cases (get_elem? items i)) [
    | inl e ↦ ground (arith, e)
    | inr (item, e) ↦ elim (Bool-cases (p item)) [
      | inl yes_ ↦ ground (arith, e, yes_)
      | inr no_ ↦ ground (arith, e, no_)
    ]
  ]

  remove_below-suc :
      (p : Json → Bool) (i : ℕ) (x : Json) (items : List Json) (removed : ℕ)
      → let r = remove_below p i items removed in
        remove_below p (suc i) (x ∷ items) removed
        ≡ (if p x then (r.0, r.1 + 1) else (x ∷ r.0, r.1))
  unfolding remove_below remove_round delete_at
  remove_below-suc p zero x items removed = elim (Bool-cases (p x)) [
    | inl yes_ ↦ ground (arith, yes_)
    | inr no_ ↦ ground (arith, no_)
  ]
  remove_below-suc p (suc i) x items removed =
      let r = remove_round p i items removed in
      ap (λ (s : List Json × ℕ). remove_below p (suc i) s.0 s.1)
        (remove_round-suc p i x items removed)
      ∙ remove_below-suc p i x r.0 r.1

  -- The whole loop thins the items by the property that the test decides.
  pub remove_below-IsThinned :
      (field value : Text) (items : List Json) (removed : ℕ)
      → let r = remove_below (item_matches field value) (length items) items removed in
        (n : ℕ) × (r.1 ≡ removed + n) × IsThinned (HasText field value) items r.0 n
  unfolding remove_below
  remove_below-IsThinned field value [] removed = (0, omega arith, thin_nil)
  remove_below-IsThinned field value (x ∷ items) removed =
      let p = item_matches field value in
      let r = remove_below p (length items) items removed in
      let (n, counted, thinned) = remove_below-IsThinned field value items removed in
      let Good : List Json × ℕ → Type 0 =
        λ s. (m : ℕ) × (s.1 ≡ removed + m) × IsThinned (HasText field value) (x ∷ items) s.0 m in
      let pick : Bool → List Json × ℕ = λ b. if b then (r.0, r.1 + 1) else (x ∷ r.0, r.1) in
      subst Good (sym (remove_below-suc p (length items) x items removed))
        (elim (Bool-cases (p x)) [
          | inl out ↦
              subst (λ b. Good (pick b)) (sym out)
                (
                  n + 1,
                  omega (arith, counted),
                  thin_drop (item_matches-HasText field value x out) thinned,
                )
          | inr stays ↦
              subst (λ b. Good (pick b)) (sym stays)
                (
                  n,
                  counted,
                  thin_keep (λ t. false≢true (sym stays ∙ HasText-item_matches field value x t))
                      thinned,
                )
        ])
