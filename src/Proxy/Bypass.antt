-- ===== src/Proxy/Bypass.antt =====
-- NO_PROXY: `trim_entry`, `host_matches_no_proxy_entry` and `proxy_should_bypass` of
-- src/http_proxy.c.
pub mod Casing
use avar.Base.{
  All, Bool, List, Option, [], ap, append_assoc, append_nil, arith, drop, false, if◌then◌else◌, leb,
  length, ltb, none, not, refl, some, suc, sym, take, true, ℕ, ◌%◌, ◌&&◌, ◌++◌, ◌-◌, ◌==◌, ◌^◌,
  ◌||◌, ◌∙◌, ◌∷◌, ◌≡◌,
}
use avar.CString.Search.{free_of}
use avar.CString.{
  Text, copy_truncated, drop_end, drop_while, has_prefix, lit, str_case_eq, str_eq, str_rchr,
  str_to_ul,
}
use avar.Proxy.{Environment, is_empty}

unfoldable pub trim_entry : Text → Text
unfolding drop_while drop_end
trim_entry entry =
    let blank : ℕ → Bool = λ c. c == 32 || c == 9 in drop_end blank (drop_while blank entry)

-- The number that `strtoul` reads where it reads all of the text, and something of it.
abbrev pub whole_number : Option (ℕ × Text) → Option ℕ
whole_number none = none
whole_number (some (value, [])) = some (value % 2 ^ 32)
whole_number (some (value, c ∷ cs)) = none

-- The pattern and `entry_port`, 0 where the entry names no port. No `:` follows the last one, so the
-- test for another is always passed.
unfoldable pub split_entry_port : Text → Text × ℕ
split_entry_port pattern = elim (str_rchr pattern b':') [
  | none ↦ (pattern, 0)
  | some colon ↦ elim (whole_number (str_to_ul (drop (suc colon) pattern))) [
    | none ↦ (pattern, 0)
    | some port ↦ (take colon pattern, port)
  ]
]

-- The last characters of the host, as many as the suffix has.
abbrev pub tail_eq : Text → Text → Bool
tail_eq host suffix = str_case_eq (drop (length host - length suffix) host) suffix

abbrev pub dot_before : Text → Text → Bool
dot_before host pattern = has_prefix (drop (length host - length pattern - 1) host) (lit ".")

abbrev pub exact_after_dot : Text → Text → Bool
exact_after_dot host [] = false
exact_after_dot host (c ∷ rest) = c == b'.' && not (is_empty rest) && str_case_eq host rest

abbrev pub wildcard : Text → Text → Bool
wildcard host (c ∷ d ∷ e ∷ rest) =
    let suffix = d ∷ e ∷ rest in
    c == b'*' && d == b'.' && leb (length suffix) (length host) && tail_eq host suffix
wildcard host _ = false

abbrev pub below_domain : Text → Text → Bool
below_domain host [] = false
below_domain host (c ∷ rest) =
    let pattern = c ∷ rest in
    not (c == b'.')
    && not (c == b'*')
    && ltb (length pattern) (length host)
    && dot_before host pattern
    && tail_eq host pattern

unfoldable pub host_matches_pattern : Text → Text → Bool
unfolding str_case_eq
host_matches_pattern host pattern =
    str_eq pattern (lit "*")
    || str_case_eq host pattern
    || exact_after_dot host pattern
    || wildcard host pattern
    || below_domain host pattern

unfoldable pub host_matches_no_proxy_entry : Text → ℕ → Text → Bool
unfolding host_matches_pattern split_entry_port trim_entry
host_matches_no_proxy_entry host port entry =
    let trimmed = trim_entry (copy_truncated 320 entry) in
    let pattern = (split_entry_port trimmed).0 in
    let entry_port = (split_entry_port trimmed).1 in
    if is_empty entry || is_empty trimmed
    then false
    else if not (entry_port == 0) && not (port == 0) && not (entry_port == port)
    then false
    else host_matches_pattern host pattern

-- The entries of the list up to the end or to an empty rest, the entry so far in front.
unfoldable pub any_entry : (Text → Bool) → Text → Text → Bool
any_entry p entry [] = if is_empty entry then false else p entry
any_entry p entry (c ∷ cs) =
    let rest = any_entry p [] cs in
    let longer = any_entry p (entry ++ c ∷ []) cs in if c == b',' then p entry || rest else longer

module _ (env : Environment) where
  unfoldable pub proxy_should_bypass : Text → Option Text → Bool
  unfolding any_entry
  proxy_should_bypass target_url none = false
  proxy_should_bypass target_url (some no_proxy_list) =
      let host = env.url_host target_url in
      let port = env.url_port target_url in
      if is_empty no_proxy_list || is_empty host
      then false
      else any_entry (host_matches_no_proxy_entry (take 319 host) port) [] no_proxy_list

-- The entries with a comma behind each but the last.
abbrev pub join_comma : List Text → Text
join_comma [] = []
join_comma (entry ∷ []) = entry
join_comma (entry ∷ e ∷ entries) = entry ++ (b',' ∷ join_comma (e ∷ entries))

abbrev pub any_of : (Text → Bool) → List Text → Bool
any_of p [] = false
any_of p (entry ∷ entries) = p entry || any_of p entries

last-empty :
    (p : Text → Bool) (before : Text)
    → p [] ≡ false
    → (if is_empty before then false else p before) ≡ p (before ++ [])
last-empty p [] e = sym e
last-empty p (c ∷ before) e = ap p (sym (append_nil (c ∷ before)))

any_entry-last :
    (p : Text → Bool) (before entry : Text)
    → p [] ≡ false
    → free_of b',' entry ≡ true
    → any_entry p before entry ≡ p (before ++ entry)
unfolding any_entry
any_entry-last p before [] e free = last-empty p before e
any_entry-last p before (c ∷ cs) e free = ground (
  arith,
  any_entry-last p (before ++ c ∷ []) cs e (ground arith),
  append_assoc before (c ∷ []) cs,
)

any_entry-comma :
    (p : Text → Bool) (before entry rest : Text)
    → free_of b',' entry ≡ true
    → any_entry p before (entry ++ (b',' ∷ rest)) ≡ (p (before ++ entry) || any_entry p [] rest)
unfolding any_entry
any_entry-comma p before [] rest free =
    ap (λ z. p z || any_entry p [] rest) (sym (append_nil before))
any_entry-comma p before (c ∷ cs) rest free = ground (
  arith,
  any_entry-comma p (before ++ c ∷ []) cs rest (ground arith),
  append_assoc before (c ∷ []) cs,
)

any_entry-join_comma :
    (p : Text → Bool) (entries : List Text)
    → p [] ≡ false
    → All (λ entry. free_of b',' entry ≡ true) entries
    → any_entry p [] (join_comma entries) ≡ any_of p entries
unfolding any_entry
any_entry-join_comma p [] e free = refl
any_entry-join_comma p (entry ∷ []) e free = ground (arith, any_entry-last p [] entry e free.0)
any_entry-join_comma p (entry ∷ f ∷ entries) e free =
    any_entry-comma p [] entry (join_comma (f ∷ entries)) free.0
    ∙ ap (λ b. p entry || b) (any_entry-join_comma p (f ∷ entries) e free.1)

guarded-entries :
    (q : Text → Bool) (no_host : Bool) (list : Text)
    → (if is_empty list || no_host then false else any_entry q [] list)
      ≡ (not no_host && any_entry q [] list)
unfolding any_entry
guarded-entries q true [] = refl
guarded-entries q false [] = refl
guarded-entries q true (c ∷ cs) = refl
guarded-entries q false (c ∷ cs) = refl

no_entry : (host : Text) (port : ℕ) → host_matches_no_proxy_entry host port [] ≡ false
unfolding host_matches_no_proxy_entry
no_entry host port = refl

module _ (env : Environment) where
  -- On a list of entries joined by commas, none of which contains a comma, proxy_should_bypass
  -- answers true exactly if the target has a host and host_matches_no_proxy_entry holds of one
  -- of the entries, for the first 319 bytes of the host.
  pub proxy_should_bypass-join_comma :
      (target_url : Text) (entries : List Text)
      → All (λ entry. free_of b',' entry ≡ true) entries
      → proxy_should_bypass env target_url (some (join_comma entries)) ≡ (
          not (is_empty (env.url_host target_url))
          && any_of
              (host_matches_no_proxy_entry
                (take 319 (env.url_host target_url))
                (env.url_port target_url))
              entries)
  unfolding proxy_should_bypass
  proxy_should_bypass-join_comma target_url entries free =
      let q =
        host_matches_no_proxy_entry (take 319 (env.url_host target_url))
          (env.url_port target_url) in
      let no_host = is_empty (env.url_host target_url) in
      guarded-entries q no_host (join_comma entries)
      ∙ ap (λ b. not no_host && b) (any_entry-join_comma q entries (no_entry _ _) free)
