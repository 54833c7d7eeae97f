-- ===== src/Proxy/Resolve.antt =====
-- `proxy_resolve_for_target`: the override, then the environment, then the configuration.
use mathlib.Core.Option.{get_or}
use avar.Base.{
  Bool, Bool-cases, Option, [], arith, false, if◌then◌else◌, inl, inr, ltb, none, not, refl, some,
  true, ℕ, ◌&&◌, ◌==◌, ◌||◌, ◌∷◌, ◌≡◌,
}
use avar.CString.{Text, is_some, lit, str_str}
use avar.CString.Search.{str_str-is_some}
use avar.Proxy.{
  Environment, is_empty, proxy_get_no_proxy_list, proxy_load_from_environment,
  proxy_load_global_url, proxy_normalize_url, proxy_build_url, scheme_of, config_port, env_get_any,
  parse_config_bool_local,
}
use avar.Proxy.Bypass.{proxy_should_bypass}

module _ (env : Environment) where
  unfoldable pub env_or_global : Text → Option Text
  env_or_global target_url = elim (proxy_load_from_environment env target_url) [
    | some url ↦ some url
    | none ↦ proxy_load_global_url env
  ]

  unfoldable pub proxy_resolve_for_target : Text → Option Text → Option Text
  unfolding env_or_global
  proxy_resolve_for_target target_url override_url =
      let resolved : Option Text =
        (if is_empty (get_or override_url [])
          then env_or_global target_url
          else proxy_normalize_url override_url) in
      if proxy_should_bypass env target_url (proxy_get_no_proxy_list env) then none else resolved

-- A URL, where there is one, with `://` in it.
abbrev pub has_scheme : Option Text → Bool
has_scheme none = true
has_scheme (some url) = is_some (str_str url (lit "://"))

normalize-scheme : (url : Option Text) → has_scheme (proxy_normalize_url url) ≡ true
unfolding proxy_normalize_url
normalize-scheme none = refl
normalize-scheme (some []) = refl
normalize-scheme (some (c ∷ cs)) = elim (Bool-cases (is_some (str_str (c ∷ cs) (lit "://")))) [
  | inl e ↦ ground (arith, e)
  | inr e ↦ ground (arith, e, str_str-is_some (lit "http") (c ∷ cs) (lit "://"))
]

if-scheme :
    (b : Bool) (url : Text)
    → is_some (str_str url (lit "://")) ≡ true
    → has_scheme (if b then none else some url) ≡ true
if-scheme true url h = refl
if-scheme false url h = h

either-scheme :
    (b : Bool) (x y : Option Text)
    → has_scheme x ≡ true
    → has_scheme y ≡ true
    → has_scheme (if b then x else y) ≡ true
either-scheme true x y h k = h
either-scheme false x y h k = k

named-scheme :
    (value : Option Text)
    → has_scheme
        (elim value as (λ v. Option Text) [ none ↦ none | some v ↦ proxy_normalize_url (some v) ])
      ≡ true
named-scheme none = refl
named-scheme (some v) = normalize-scheme (some v)

module _ (env : Environment) where
  build-scheme :
      (type : Option Text) (host : Text) (port : ℕ) (user pass : Option Text)
      → has_scheme (proxy_build_url env type host port user pass) ≡ true
  unfolding proxy_build_url
  build-scheme type host port user pass =
      if-scheme (is_empty host || port == 0) _ (str_str-is_some (scheme_of type) _ (lit "://"))

  environment-scheme :
      (target_url : Text) → has_scheme (proxy_load_from_environment env target_url) ≡ true
  unfolding proxy_load_from_environment
  environment-scheme target_url = named-scheme (env_get_any env.getenv _)

  host-scheme :
      (host : Option Text) (port : ℕ) (type user pass : Option Text)
      → has_scheme (elim host as (λ h. Option Text) [
        | none ↦ none
        | some h ↦
            if not (is_empty h) && ltb 0 port
            then proxy_build_url env type h port user pass
            else none
      ])
        ≡ true
  host-scheme none port type user pass = refl
  host-scheme (some h) port type user pass =
      either-scheme (not (is_empty h) && ltb 0 port) _ none (build-scheme type h port user pass)
        refl

  global-scheme : has_scheme (proxy_load_global_url env) ≡ true
  unfolding proxy_load_global_url
  global-scheme =
      either-scheme (parse_config_bool_local env (lit "dm.proxy.enabled") false) _ none
        (host-scheme (env.get_config (lit "dm.proxy.host"))
          (config_port (env.get_config (lit "dm.proxy.port")))
          (some (get_or (env.get_config (lit "dm.proxy.type")) (lit "http")))
          (env.get_config (lit "dm.proxy.username")) (env.get_config (lit "dm.proxy.password")))
        refl

  first-scheme :
      (x y : Option Text)
      → has_scheme x ≡ true
      → has_scheme y ≡ true
      → has_scheme (elim x as (λ o. Option Text) [ some url ↦ some url | none ↦ y ]) ≡ true
  first-scheme none y h k = k
  first-scheme (some url) y h k = h

  -- Every proxy URL that proxy_resolve_for_target returns contains ://, from whichever of the
  -- override, the environment and the configuration it comes.
  pub resolve-scheme :
      (target_url : Text) (override_url : Option Text)
      → has_scheme (proxy_resolve_for_target env target_url override_url) ≡ true
  unfolding proxy_resolve_for_target env_or_global
  resolve-scheme target_url override_url =
      either-scheme (proxy_should_bypass env target_url (proxy_get_no_proxy_list env)) none _ refl (
        either-scheme (is_empty (get_or override_url [])) _ _
          (first-scheme _ _ (environment-scheme target_url) global-scheme)
          (normalize-scheme override_url))
