-- ===== src/Proxy/Bypass/Casing.antt =====
-- NO_PROXY entries and the case of a host's letters.
use mathlib.Core.Path.{ap₂}
use avar.Base.{
  [], ap, arith, drop, false, if◌then◌else◌, leb, length, ltb, not, refl, suc, true, zero, ℕ, ◌&&◌,
  ◌-◌, ◌==◌, ◌||◌, ◌∙◌, ◌∷◌, ◌≡◌,
}
use avar.CString.{Text, lit, has_prefix, str_case_eq, to_lower, copy_truncated, str_eq}
use avar.Proxy.{is_empty}
use avar.Proxy.Bypass.{
  host_matches_no_proxy_entry, host_matches_pattern, tail_eq, below_domain, dot_before,
  exact_after_dot, split_entry_port, trim_entry, wildcard,
}

abbrev pub lower : Text → Text
lower [] = []
lower (c ∷ cs) = to_lower c ∷ lower cs

to_lower_idem : (c : ℕ) → to_lower (to_lower c) ≡ to_lower c
unfolding to_lower
to_lower_idem c = ground arith

to_lower-dot : (c : ℕ) → (to_lower c == b'.') ≡ (c == b'.')
unfolding to_lower
to_lower-dot c = ground arith

length-lower : (host : Text) → length (lower host) ≡ length host
length-lower [] = refl
length-lower (c ∷ cs) = ap suc (length-lower cs)

drop-lower : (n : ℕ) (host : Text) → drop n (lower host) ≡ lower (drop n host)
drop-lower zero host = refl
drop-lower (suc n) [] = refl
drop-lower (suc n) (c ∷ cs) = drop-lower n cs

str_case_eq-lower :
    (host pattern : Text) → str_case_eq (lower host) pattern ≡ str_case_eq host pattern
unfolding str_case_eq
str_case_eq-lower [] [] = refl
str_case_eq-lower [] (p ∷ ps) = refl
str_case_eq-lower (c ∷ cs) [] = refl
str_case_eq-lower (c ∷ cs) (p ∷ ps) =
    ap₂ (λ d b. d == to_lower p && b) (to_lower_idem c) (str_case_eq-lower cs ps)

dot-lower : (host : Text) → has_prefix (lower host) (lit ".") ≡ has_prefix host (lit ".")
dot-lower [] = refl
dot-lower (c ∷ cs) = ap (λ b. b && true) (to_lower-dot c)

tail_eq-lower : (host suffix : Text) → tail_eq (lower host) suffix ≡ tail_eq host suffix
tail_eq-lower host suffix =
    ap (λ n. str_case_eq (drop (n - length suffix) (lower host)) suffix) (length-lower host)
    ∙ ap (λ t. str_case_eq t suffix) (drop-lower (length host - length suffix) host)
    ∙ str_case_eq-lower (drop (length host - length suffix) host) suffix

dot_before-lower : (host pattern : Text) → dot_before (lower host) pattern ≡ dot_before host pattern
dot_before-lower host pattern =
    ap (λ n. has_prefix (drop (n - length pattern - 1) (lower host)) (lit ".")) (length-lower host)
    ∙ ap (λ t. has_prefix t (lit ".")) (drop-lower (length host - length pattern - 1) host)
    ∙ dot-lower (drop (length host - length pattern - 1) host)

exact_after_dot-lower :
    (host pattern : Text) → exact_after_dot (lower host) pattern ≡ exact_after_dot host pattern
exact_after_dot-lower host [] = refl
exact_after_dot-lower host (c ∷ rest) =
    ap (λ b. c == b'.' && not (is_empty rest) && b) (str_case_eq-lower host rest)

wildcard-lower : (host pattern : Text) → wildcard (lower host) pattern ≡ wildcard host pattern
wildcard-lower host [] = refl
wildcard-lower host (c ∷ []) = refl
wildcard-lower host (c ∷ d ∷ []) = refl
wildcard-lower host (c ∷ d ∷ e ∷ rest) =
    let suffix = d ∷ e ∷ rest in
    ap₂ (λ n b. c == b'*' && d == b'.' && leb (length suffix) n && b) (length-lower host)
      (tail_eq-lower host suffix)

below_domain-lower :
    (host pattern : Text) → below_domain (lower host) pattern ≡ below_domain host pattern
below_domain-lower host [] = refl
below_domain-lower host (c ∷ rest) =
    let pattern = c ∷ rest in
    ap
      (λ n.
        not (c == b'.')
        && not (c == b'*')
        && ltb (length pattern) n
        && dot_before (lower host) pattern
        && tail_eq (lower host) pattern)
      (length-lower host)
    ∙ ap₂
        (λ a b. not (c == b'.') && not (c == b'*') && ltb (length pattern) (length host) && a && b)
        (dot_before-lower host pattern) (tail_eq-lower host pattern)

host_matches_pattern-lower :
    (host pattern : Text)
    → host_matches_pattern (lower host) pattern ≡ host_matches_pattern host pattern
unfolding host_matches_pattern
host_matches_pattern-lower host pattern =
    ap₂
      (λ a b.
        str_eq pattern (lit "*")
        || a
        || b
        || wildcard (lower host) pattern
        || below_domain (lower host) pattern)
      (str_case_eq-lower host pattern) (exact_after_dot-lower host pattern)
    ∙ ap₂
        (λ a b.
          str_eq pattern (lit "*")
          || str_case_eq host pattern
          || exact_after_dot host pattern
          || a
          || b)
        (wildcard-lower host pattern) (below_domain-lower host pattern)

-- host_matches_no_proxy_entry answers the same for a host and for the host with its letters in
-- lower case, whatever the port and the form of the entry.
pub host_matches_no_proxy_entry-lower :
    (host : Text) (port : ℕ) (entry : Text)
    → host_matches_no_proxy_entry (lower host) port entry
      ≡ host_matches_no_proxy_entry host port entry
unfolding host_matches_no_proxy_entry
host_matches_no_proxy_entry-lower host port entry =
    let trimmed = trim_entry (copy_truncated 320 entry) in
    let entry_port = (split_entry_port trimmed).1 in
    ap
      (λ b.
        if is_empty entry || is_empty trimmed
        then false
        else if not (entry_port == 0) && not (port == 0) && not (entry_port == port)
        then false
        else b)
      (host_matches_pattern-lower host (split_entry_port trimmed).0)
