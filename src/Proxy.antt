-- ===== src/Proxy.antt =====
-- src/http_proxy.c: which proxy a target goes through, and how its address is written.
-- mongoose, the process environment and the configuration are the record `Environment`.
pub mod Credentials
pub mod Base64
pub mod Socks
pub mod Bypass
pub mod Resolve
use mathlib.Core.Option.{get_or}
use avar.Base.{
  Bool, List, Option, [], false, if◌then◌else◌, ltb, none, not, some, true, ℕ, ◌%◌, ◌&&◌, ◌++◌,
  ◌==◌, ◌^◌, ◌||◌, ◌∷◌,
}
use avar.CString.{Text, lit, str_eq, has_prefix, str_str, decimal, is_some, str_case_eq, str_to_ul}

pub record Environment : Type 0 where
  -- `mg_url_host`, `mg_url_port`, and `mg_url_encode` with its buffer of 512 bytes (`none` where it
  -- returns 0).
  pub url_host : Text → Text
  pub url_port : Text → ℕ
  pub url_encode : Text → Option Text
  pub getenv : Text → Option Text
  -- `get_config_or_default(key, NULL)`
  pub get_config : Text → Option Text

pub data ProxyKind : Type 0 where
  kind_none http https socks5 : ProxyKind

unfoldable pub proxy_kind_from_url : Option Text → ProxyKind
proxy_kind_from_url none = kind_none
proxy_kind_from_url (some []) = kind_none
proxy_kind_from_url (some (c ∷ cs)) =
    let url = c ∷ cs in
    if has_prefix url (lit "socks5://") || has_prefix url (lit "socks5h://")
    then socks5
    else if has_prefix url (lit "https://") || has_prefix url (lit "HTTPS://")
    then https
    else if has_prefix url (lit "http://") || has_prefix url (lit "HTTP://")
    then http
    else http

unfoldable pub proxy_normalize_url : Option Text → Option Text
proxy_normalize_url none = none
proxy_normalize_url (some []) = none
proxy_normalize_url (some (c ∷ cs)) =
    if is_some (str_str (c ∷ cs) (lit "://"))
    then some (c ∷ cs)
    else some (lit "http://" ++ (c ∷ cs))

unfoldable pub proxy_target_is_https : Text → Bool
proxy_target_is_https url = has_prefix url (lit "https://") || has_prefix url (lit "HTTPS://")

unfoldable pub proxy_uses_http_forward : Text → Text → Bool
unfolding proxy_kind_from_url proxy_target_is_https
proxy_uses_http_forward proxy_url target_url = elim (proxy_kind_from_url (some proxy_url)) [
  | socks5 ↦ false
  | _ ↦ not (proxy_target_is_https target_url)
]

abbrev pub is_empty : Text → Bool
is_empty [] = true
is_empty (c ∷ cs) = false

-- The first variable of the list that is set to a text that is not empty.
unfoldable pub env_get_any : (Text → Option Text) → List Text → Option Text
env_get_any getenv [] = none
env_get_any getenv (name ∷ names) =
    let rest = env_get_any getenv names in
    elim (getenv name) [ none ↦ rest | some value ↦ if is_empty value then rest else some value ]

-- `user:pass@`, `user@` or nothing.
abbrev pub authority_prefix : Option Text → Option Text → Text
authority_prefix none pass = []
authority_prefix (some user) none = user ++ b'@' ∷ []
authority_prefix (some user) (some pass) = user ++ (b':' ∷ (pass ++ b'@' ∷ []))

abbrev pub scheme_of : Option Text → Text
scheme_of none = lit "http"
scheme_of (some []) = lit "http"
scheme_of (some (c ∷ cs)) = c ∷ cs

-- `(unsigned)strtoul(port_str, NULL, 10)`, 0 for NULL.
abbrev pub config_port : Option Text → ℕ
config_port none = 0
config_port (some text) = elim (str_to_ul text) [ none ↦ 0 | some (value, _) ↦ value % 2 ^ 32 ]

module _ (env : Environment) where
  -- `scheme://host:port` with the default port where the URL names none.
  abbrev pub connect_to : Text → Text → Text → Option Text
  connect_to scheme default_port proxy_url =
      let host = env.url_host proxy_url in
      let port = env.url_port proxy_url in
      if is_empty host
      then none
      else some (scheme ++ host ++ (b':' ∷ (if port == 0 then default_port else decimal port)))

  unfoldable pub proxy_connect_url : Option Text → Option Text
  proxy_connect_url none = none
  proxy_connect_url (some []) = none
  proxy_connect_url (some (c ∷ cs)) =
      let url = c ∷ cs in
      elim (proxy_kind_from_url (some url)) [
        | socks5 ↦ connect_to (lit "tcp://") (lit "1080") url
        | https ↦ some url
        | _ ↦ connect_to (lit "http://") (lit "8080") url
      ]

  unfoldable pub url_encode_credentials : Option Text → Option Text
  url_encode_credentials none = none
  url_encode_credentials (some []) = none
  url_encode_credentials (some (c ∷ cs)) = elim (env.url_encode (c ∷ cs)) [
    | none ↦ some (c ∷ cs)
    | some encoded ↦ some encoded
  ]

  unfoldable pub proxy_build_url : Option Text → Text → ℕ → Option Text → Option Text → Option Text
  unfolding url_encode_credentials
  proxy_build_url type host port username password =
      if is_empty host || port == 0
      then none
      else some (
          scheme_of type
          ++ (lit "://"
              ++ (authority_prefix (url_encode_credentials username)
                    (url_encode_credentials password)
                  ++ (host ++ (b':' ∷ decimal port)))))

  -- `parse_config_bool_local`
  unfoldable pub parse_config_bool_local : Text → Bool → Bool
  parse_config_bool_local key default_value = elim (env.get_config key) [
    | none ↦ default_value
    | some value ↦
        str_eq value (lit "1") || str_case_eq value (lit "true") || str_case_eq value (lit "yes")
  ]

  unfoldable pub proxy_get_no_proxy_list : Option Text
  proxy_get_no_proxy_list = elim (env_get_any env.getenv (lit "NO_PROXY" ∷ lit "no_proxy" ∷ [])) [
    | some value ↦ some value
    | none ↦ env.get_config (lit "dm.proxy.noProxy")
  ]

  unfoldable pub proxy_load_from_environment : Text → Option Text
  proxy_load_from_environment target_url =
      let plain = lit "HTTP_PROXY" ∷ lit "http_proxy" ∷ lit "ALL_PROXY" ∷ lit "all_proxy" ∷ [] in
      let names =
        if proxy_target_is_https target_url
        then lit "HTTPS_PROXY" ∷ lit "https_proxy" ∷ plain
        else plain in
      elim (env_get_any env.getenv names) [
        | none ↦ none
        | some value ↦ proxy_normalize_url (some value)
      ]

  unfoldable pub proxy_load_global_url : Option Text
  unfolding proxy_build_url
  proxy_load_global_url =
      let type = get_or (env.get_config (lit "dm.proxy.type")) (lit "http") in
      let port = config_port (env.get_config (lit "dm.proxy.port")) in
      if parse_config_bool_local (lit "dm.proxy.enabled") false
      then elim (env.get_config (lit "dm.proxy.host")) [
        | none ↦ none
        | some host ↦
            if not (is_empty host) && ltb 0 port
            then proxy_build_url (some type) host port (env.get_config (lit "dm.proxy.username"))
                (env.get_config (lit "dm.proxy.password"))
            else none
      ]
      else none
