-- ===== src/Proxy/Credentials.antt =====
-- The credentials of a proxy URL: `extract_proxy_credentials`, and that it undoes `proxy_build_url`.
use mathlib.Core.Path.{ap₂}
use avar.Base.{
  Option, [], ap, append_assoc, arith, drop, drop_past-length, false, if◌then◌else◌, leb, length,
  length-append, none, refl, some, suc, sym, take, take-length, true, ℕ, ◌++◌, ◌+◌, ◌<◌, ◌==◌, ◌||◌,
  ◌∙◌, ◌∷◌, ◌≡◌,
}
use avar.CString.Search.{free_of, str_chr-append, str_str-append, free_of-append}
use avar.CString.{Text, copy_truncated, lit, str_chr, str_str, decimal}
use avar.Proxy.{
  proxy_build_url, scheme_of, Environment, url_encode_credentials, is_empty, proxy_build_url,
  scheme_of, authority_prefix,
}

-- The part of the URL that `auth_start` points to.
unfoldable pub after_scheme : Text → Text
after_scheme url = elim (str_str url (lit "://")) [ none ↦ url | some i ↦ drop (i + 3) url ]

-- `user_out` and `pass_out`, once the text before the `@` is known.
unfoldable pub split_credentials : ℕ → ℕ → Text → Text × Text
split_credentials user_cap pass_cap auth = elim (str_chr auth b':') [
  | none ↦ (copy_truncated user_cap auth, [])
  | some colon ↦
      (copy_truncated user_cap (take colon auth), copy_truncated pass_cap (drop (suc colon) auth))
]

abbrev pub unless_empty : Text × Text → Option (Text × Text)
unless_empty (user, pass) = if is_empty user then none else some (user, pass)

-- The rest of the function, once `at` and once `auth_start` is known.
unfoldable pub from_at : ℕ → ℕ → Text → Option ℕ → Option (Text × Text)
unfolding split_credentials
from_at user_cap pass_cap start none = none
from_at user_cap pass_cap start (some auth_len) =
    if auth_len == 0 || leb 512 auth_len
    then none
    else unless_empty (split_credentials user_cap pass_cap (take auth_len start))

unfoldable pub from_start : ℕ → ℕ → Text → Option (Text × Text)
unfolding from_at
from_start user_cap pass_cap start = from_at user_cap pass_cap start (str_chr start b'@')

-- `none` stands for the result false.
unfoldable pub extract_proxy_credentials : Option Text → ℕ → ℕ → Option (Text × Text)
unfolding after_scheme from_start
extract_proxy_credentials none user_cap pass_cap = none
extract_proxy_credentials (some url) user_cap pass_cap =
    if user_cap == 0 || pass_cap == 0 then none else from_start user_cap pass_cap (after_scheme url)

after_scheme-append :
    (scheme rest : Text)
    → free_of b':' scheme ≡ true
    → after_scheme (scheme ++ (lit "://" ++ rest)) ≡ rest
unfolding after_scheme
after_scheme-append scheme rest free =
    let url = scheme ++ (lit "://" ++ rest) in
    ap (λ o. elim o as (λ x. Text) [ none ↦ url | some i ↦ drop (i + 3) url ])
      (str_str-append scheme rest (lit "//") b':' free)
    ∙ drop_past-length scheme (lit "://" ++ rest) 3

split_credentials-append :
    (user_cap pass_cap : ℕ) (user pass : Text)
    → free_of b':' user ≡ true
    → split_credentials user_cap pass_cap (user ++ (b':' ∷ pass))
      ≡ (copy_truncated user_cap user, copy_truncated pass_cap pass)
unfolding split_credentials
split_credentials-append user_cap pass_cap user pass free =
    let auth = user ++ (b':' ∷ pass) in
    let next : suc (length user) ≡ length user + 1 = omega arith in
    let after : drop (suc (length user)) auth ≡ pass =
      ap (λ k. drop k auth) next ∙ drop_past-length user (b':' ∷ pass) 1 in
    ap
      (λ o. elim o as (λ x. Text × Text) [
        | none ↦ (copy_truncated user_cap auth, [])
        | some colon ↦ (
          copy_truncated user_cap (take colon auth),
          copy_truncated pass_cap (drop (suc colon) auth),
        )
      ])
      (str_chr-append user pass b':' free)
    ∙ ap₂ (λ u p. (copy_truncated user_cap u, copy_truncated pass_cap p))
        (take-length user (b':' ∷ pass)) after

within-unless_empty :
    (user pass : Text)
    → 0 < length user
    → unless_empty (copy_truncated 256 user, copy_truncated 256 pass)
      ≡ some (take 255 user, take 255 pass)
within-unless_empty [] pass l = absurd (omega arith)
within-unless_empty (c ∷ user) pass l = refl

admitted_length : (n : ℕ) → 0 < n → n < 512 → (n == 0 || leb 512 n) ≡ false
admitted_length n l u = ground arith

length-auth : (user pass : Text) → length (user ++ (b':' ∷ pass)) ≡ length user + suc (length pass)
length-auth user pass = length-append user (b':' ∷ pass)

extract-authority :
    (scheme user pass tail : Text)
    → free_of b':' scheme ≡ true
    → free_of b':' user ≡ true
    → free_of b'@' (user ++ (b':' ∷ pass)) ≡ true
    → 0 < length user
    → length (user ++ (b':' ∷ pass)) < 512
    → extract_proxy_credentials
        (some (scheme ++ (lit "://" ++ ((user ++ (b':' ∷ pass)) ++ (b'@' ∷ tail)))))
        256
        256
      ≡ some (take 255 user, take 255 pass)
unfolding extract_proxy_credentials
extract-authority scheme user pass tail fs fu fa ul len =
    let auth = user ++ (b':' ∷ pass) in
    let start = auth ++ (b'@' ∷ tail) in
    ap (from_start 256 256) (after_scheme-append scheme start fs)
    ∙ ap (from_at 256 256 start) (str_chr-append auth tail b'@' fa)
    ∙ ap
        (λ b.
          if b then none else unless_empty (split_credentials 256 256 (take (length auth) start)))
        (admitted_length (length auth) (omega (arith, length-auth user pass)) len)
    ∙ ap (λ a. unless_empty (split_credentials 256 256 a)) (take-length auth (b'@' ∷ tail))
    ∙ ap unless_empty (split_credentials-append 256 256 user pass fu)
    ∙ within-unless_empty user pass ul

buildable :
    (host : Text) (port : ℕ) → 0 < length host → 0 < port → (is_empty host || port == 0) ≡ false
buildable [] port hl pl = absurd (omega arith)
buildable (c ∷ host) port hl pl = ground arith

module _ (env : Environment) where
  -- proxy_build_url with a user name and a password gives a URL from which
  -- extract_proxy_credentials reads back the URL-encoded user name and password, each cut to
  -- 255 bytes. The encoded texts have no @ and the user name no colon, the user name is not
  -- empty, both together are below 511 bytes, the host and the port are given, and the scheme
  -- has no colon.
  pub extract-proxy_build_url :
      (type host user pass user' pass' : Text) (port : ℕ)
      → free_of b':' (scheme_of (some type)) ≡ true
      → url_encode_credentials env (some user) ≡ some user'
      → url_encode_credentials env (some pass) ≡ some pass'
      → free_of b':' user' ≡ true
      → free_of b'@' user' ≡ true
      → free_of b'@' pass' ≡ true
      → 0 < length user'
      → length user' + length pass' < 511
      → 0 < length host
      → 0 < port
      → (url : Text) × (proxy_build_url env (some type) host port (some user) (some pass)
          ≡ some url)
        × (extract_proxy_credentials (some url) 256 256 ≡ some (take 255 user', take 255 pass'))
  unfolding proxy_build_url
  extract-proxy_build_url type host user pass user' pass' port s eu ep uc ua pa ul len hl pl =
      let scheme = scheme_of (some type) in
      let rest = host ++ (b':' ∷ decimal port) in
      let auth = user' ++ (b':' ∷ pass') in
      let build : Option Text → Option Text → Option Text = λ u p.
        if is_empty host || port == 0
        then none
        else some (scheme ++ (lit "://" ++ (authority_prefix u p ++ rest))) in
      let joined : authority_prefix (some user') (some pass') ++ rest ≡ auth ++ (b'@' ∷ rest) =
        append_assoc user' (b':' ∷ (pass' ++ b'@' ∷ [])) rest
        ∙ ap (λ z. user' ++ (b':' ∷ z)) (append_assoc pass' (b'@' ∷ []) rest)
        ∙ sym (append_assoc user' (b':' ∷ pass') (b'@' ∷ rest)) in
      let url = scheme ++ (lit "://" ++ (auth ++ (b'@' ∷ rest))) in
      (
        url,
        ap₂ build eu ep
            ∙ ap
                (λ b.
                  if b
                  then none
                  else some (
                      scheme
                      ++ (lit "://" ++ (authority_prefix (some user') (some pass') ++ rest))))
                (buildable host port hl pl)
            ∙ ap (λ z. some (scheme ++ (lit "://" ++ z))) joined,
        extract-authority scheme user' pass' rest s uc
            (ground (arith, free_of-append user' (b':' ∷ pass') b'@')) ul
            (omega (arith, length-auth user' pass')),
      )
