-- ===== src/Config/Values.antt =====
-- `set_config` and `get_config`.
use mathlib.Core.Option
use avar.Base.{
  Bool, Option, Option-cases, ap, arith, false, inl, inr, none, refl, some, sym, true, ℕ, ◌∙◌, ◌≡◌,
}
use avar.Config.Paths.Reach.{reach-is_object}
use avar.Config.Paths.Frame.{update_parent-Keeps}
use avar.CString.{Text, str_eq}
use avar.Cjson.{Cjson, IsLawful}
use avar.Config.{
  get_config, Config, change, set_leaf, config_scalar_to_string, get_config_from_env,
  persist_config, split_key, find_parent, set_config, update_parent,
}
use avar.Config.Paths.{lookup, Diverge, lookup-find_parent, reach, update_parent-IsUpdated}

module _ ⦃cj : Cjson⦄ where
  open cj use {Json, new_object, new_string, is_object, string_value, get_item, put_item, add_item}

  bound_twice :
      (o : Option (Json × Text))
      → (elim o as (λ x. Option Text) [
        | none ↦ none
        | some found ↦ Option.bind (get_item found.0 found.1) config_scalar_to_string
      ])
        ≡ Option.bind (Option.bind o (λ found. get_item found.0 found.1)) config_scalar_to_string
  unfolding Option.bind
  bound_twice none = refl
  bound_twice (some found) = refl

  get_config-lookup :
      (getenv : Text → Option Text) (config : Config) (key : Text)
      → get_config getenv config key
        ≡ (elim (get_config_from_env getenv key) as (λ x. Option Text) [
          | some value ↦ some value
          | none ↦ Option.bind (lookup config.root (split_key key)) config_scalar_to_string
        ])
  unfolding get_config
  get_config-lookup getenv config key =
      ap
        (λ o. elim (get_config_from_env getenv key) as (λ x. Option Text) [
          | some value ↦ some value
          | none ↦ o
        ])
        (bound_twice (find_parent config.root (split_key key))
          ∙ ap (λ o. Option.bind o config_scalar_to_string)
              (lookup-find_parent config.root (split_key key)))

  pub change-root :
      (persists : ℕ → Bool) (config : Config) (r : Bool × Json)
      → (change persists config r).1.root ≡ r.1
  unfolding change persist_config
  change-root persists config (true, root) = ground arith
  change-root persists config (false, root) = refl

  module _ (laws : IsLawful cj) where
    open laws use {
      string-new, is_object-new, is_object-put, is_object-add, get-put, get-put_other, get-add,
      get-add_other,
    }

    set_leaf-is_object :
        (value : Text) (p : Json) (leaf : Text) → is_object (set_leaf value p leaf).1 ≡ is_object p
    unfolding set_leaf
    set_leaf-is_object value p leaf =
        ground
          (arith, is_object-put p leaf (new_string value), is_object-add p leaf (new_string value))

    get-set_leaf :
        (value : Text) (p : Json) (leaf : Text)
        → is_object p ≡ true
        → get_item (set_leaf value p leaf).1 leaf ≡ some (new_string value)
    unfolding set_leaf
    get-set_leaf value p leaf o = elim (Option-cases (get_item p leaf)) [
      | inl e ↦ ground (arith, e, get-add p leaf (new_string value) o e)
      | inr (w, e) ↦ ground (arith, e, get-put p leaf (new_string value) w e)
    ]

    get-set_leaf_other :
        (value : Text) (p : Json) (leaf j : Text)
        → str_eq leaf j ≡ false
        → get_item (set_leaf value p leaf).1 j ≡ get_item p j
    unfolding set_leaf
    get-set_leaf_other value p leaf j apart = elim (Option-cases (get_item p leaf)) [
      | inl e ↦ ground (arith, e, get-add_other p leaf j (new_string value) apart)
      | inr (w, e) ↦ ground (arith, e, get-put_other p leaf j (new_string value) apart)
    ]

    scalar-new_string : (value : Text) → config_scalar_to_string (new_string value) ≡ some value
    unfolding config_scalar_to_string
    scalar-new_string value = ground (arith, string-new value)

    set_config-root :
        (persists : ℕ → Bool) (config : Config) (key value : Text)
        → (set_config persists config key value).1.root
          ≡ (update_parent true (set_leaf value) config.root (split_key key)).1
    unfolding set_config
    set_config-root persists config key value = change-root persists config _

    module _ (persists : ℕ → Bool) (getenv : Text → Option Text) (config : Config)
        (key value : Text) (p : Json) (leaf : Text) (object : is_object config.root ≡ true)
        (open_path : reach true config.root (split_key key) ≡ some (p, leaf)) where
      -- After set_config the function get_config returns the value that was set, whatever the
      -- write of the file does, where the document is an object, the environment does not have
      -- the key, no segment of the key is empty, and none of its segments but the last names a
      -- value that is no object. cJSON is taken to be lawful: it reads back what it creates
      -- and changes only the member that is named.
      pub get_config-set_config :
          get_config_from_env getenv key ≡ none
          → get_config getenv (set_config persists config key value).1 key ≡ some value
      unfolding Option.bind
      get_config-set_config unset =
          let root' = (set_config persists config key value).1.root in
          let u =
            update_parent-IsUpdated laws true (set_leaf value) config.root (split_key key) p leaf
              open_path (set_leaf-is_object value p leaf) in
          let found : lookup root' (split_key key) ≡ some (new_string value) =
            ap (λ r. lookup r (split_key key)) (set_config-root persists config key value)
            ∙ u.value
            ∙ get-set_leaf value p leaf (
                reach-is_object true config.root (split_key key) (p, leaf) is_object-new object
                  open_path) in
          get_config-lookup getenv (set_config persists config key value).1 key
          ∙ ground (arith, unset, found, scalar-new_string value)

      -- set_config leaves what get_config returns for every key that parts from its own at
      -- some segment, where the document is an object, no segment of its key is empty, none
      -- but the last names a value that is no object, and cJSON is lawful.
      pub get_config-set_config_other :
          (other : Text)
          → Diverge (split_key key) (split_key other)
          → get_config getenv (set_config persists config key value).1 other
            ≡ get_config getenv config other
      get_config-set_config_other other apart =
          let same : lookup (set_config persists config key value).1.root (split_key other)
              ≡ lookup config.root (split_key other) =
            ap (λ r. lookup r (split_key other)) (set_config-root persists config key value)
            ∙ update_parent-Keeps laws true (set_leaf value) config.root (split_key key) p leaf
                open_path (set_leaf-is_object value p leaf) (get-set_leaf_other value p leaf)
                (split_key other) apart in
          get_config-lookup getenv (set_config persists config key value).1 other
          ∙ ap
              (λ o. elim (get_config_from_env getenv other) as (λ x. Option Text) [
                | some v ↦ some v
                | none ↦ Option.bind o config_scalar_to_string
              ])
              same
          ∙ sym (get_config-lookup getenv config other)
