-- ===== src/Http.antt =====
-- src/http.c: names of files and addresses out of URLs and header fields. The decoder of URLs and
-- the host of a URL are mongoose's, and parameters.
pub mod Resolving
use mathlib.Core.Option
use mathlib.Core.Option.{get_or}
use avar.Base.{
  Bool, Option, [], drop, false, if◌then◌else◌, leb, length, ltb, map, none, some, suc, take, true,
  ℕ, ◌&&◌, ◌++◌, ◌+◌, ◌==◌, ◌||◌, ◌∷◌,
}
use avar.CString.{
  Text, lit, has_prefix, drop_while, drop_end, is_space, str_chr, str_rchr, str_str, to_lower,
}

-- `strncasecmp_local(text, part, strlen(part)) == 0`
unfoldable pub strncasecmp_local : Text → Text → Bool
unfolding to_lower
strncasecmp_local text [] = true
strncasecmp_local [] (y ∷ ys) = false
strncasecmp_local (x ∷ xs) (y ∷ ys) = to_lower x == to_lower y && strncasecmp_local xs ys

abbrev pub quotes : ℕ → ℕ → Bool
quotes first last = (first == b'"' && last == b'"') || (first == b'\'' && last == b'\'')

-- The last character and those before it.
abbrev pub split_last : ℕ → Text → Text × ℕ
split_last x [] = ([], x)
split_last x (y ∷ ys) = (x ∷ (split_last y ys).0, (split_last y ys).1)

unfoldable pub trim_quotes : Text → Text
trim_quotes (x ∷ y ∷ rest) =
    let (inner, last) = split_last y rest in if quotes x last then inner else x ∷ y ∷ rest
trim_quotes value = value

unfoldable pub trim_whitespace : Text → Text
unfolding drop_while drop_end is_space
trim_whitespace value = drop_end is_space (drop_while is_space value)

-- The characters in front for which the test fails.
abbrev pub until : (ℕ → Bool) → Text → Text
until p [] = []
until p (x ∷ xs) = if p x then [] else x ∷ until p xs

-- What follows the last `/`.
unfoldable pub after_last_slash : Text → Text
after_last_slash path = elim (str_rchr path b'/') [ none ↦ path | some i ↦ drop (suc i) path ]

-- `path`: what follows the first `/` behind the host; `none` where there is nothing.
unfoldable pub url_path : Text → Option Text
url_path url = elim (str_str url (lit "://")) [
  | none ↦ some url
  | some i ↦
      let authority = drop (i + 3) url in
      elim (str_chr authority b'/') [
        | none ↦ none
        | some slash ↦
            let path = drop (suc slash) authority in
            elim path [ [] ↦ none | c ∷ cs ↦ some (c ∷ cs) ]
      ]
]

module _ (url_decode : Text → Option Text) where
  abbrev pub basename_of : Text → Option Text
  basename_of path =
      let name = after_last_slash (until (λ c. c == b'?' || c == b'#') path) in
      elim name [ [] ↦ none | x ∷ xs ↦ url_decode (x ∷ xs) ]

  unfoldable pub http_url_basename : Text → Option Text
  unfolding url_path
  http_url_basename url = elim (url_path url) [ none ↦ none | some path ↦ basename_of path ]

  -- The name behind the `=` of a parameter.
  unfoldable pub filename_value : Bool → Text → Text
  unfolding strncasecmp_local trim_quotes
  filename_value rfc5987 value =
      let name = drop_while is_space value in
      let plain =
        if rfc5987 && ltb 7 (length name) && strncasecmp_local name (lit "utf-8''")
        then drop 7 name
        else name in
      trim_quotes (drop_end is_space (until (λ c. c == b';') plain))

  abbrev pub is_filename : Text → Bool
  is_filename text =
      (ltb 8 (length text) && strncasecmp_local text (lit "filename"))
      || (ltb 16 (length text) && strncasecmp_local text (lit "filename*"))

  -- The parameter that begins at a place of the field, decoded where it is `filename*`.
  unfoldable pub filename_at : Text → Option Text
  unfolding filename_value
  filename_at text = elim (str_chr text b'=') [
    | none ↦ none
    | some eq ↦
        let rfc5987 = strncasecmp_local text (lit "filename*") in
        let filename = filename_value rfc5987 (drop (suc eq) text) in
        if rfc5987 then some (get_or (url_decode filename) filename) else some filename
  ]

  unfoldable pub http_parse_content_disposition_filename : Text → Option Text
  unfolding filename_at
  http_parse_content_disposition_filename [] = none
  http_parse_content_disposition_filename (c ∷ cs) =
      let rest = http_parse_content_disposition_filename cs in
      if is_filename (c ∷ cs)
      then elim (filename_at (c ∷ cs)) [ some filename ↦ some filename | none ↦ rest ]
      else rest

module _ (url_host : Text → Text) where
  -- The base up to its last slash behind the host, with a slash where it has none there.
  unfoldable pub directory_of : Text → ℕ → Text
  directory_of base_url scheme_end = elim (str_chr (drop (scheme_end + 3) base_url) b'/') [
    | none ↦ base_url ++ b'/' ∷ []
    | some path_start ↦ elim (str_rchr base_url b'/') [
      | none ↦ base_url
      | some last_slash ↦
          if leb (scheme_end + 3 + path_start) last_slash
          then take (suc last_slash) base_url
          else base_url
    ]
  ]

  -- A location that is not absolute, below the base.
  unfoldable pub resolve_below : Text → Text → ℕ → Text
  unfolding directory_of
  resolve_below base_url loc scheme_end =
      let scheme = take scheme_end base_url in
      if has_prefix loc (lit "//")
      then scheme ++ (b':' ∷ loc)
      else if has_prefix loc (lit "/")
      then scheme ++ (lit "://" ++ (url_host base_url ++ loc))
      else directory_of base_url scheme_end ++ loc

  unfoldable pub http_resolve_url : Text → Text → Option Text
  unfolding resolve_below trim_whitespace
  http_resolve_url base_url [] = none
  http_resolve_url base_url (c ∷ location) =
      let loc = trim_whitespace (c ∷ location) in
      if has_prefix loc (lit "http://") || has_prefix loc (lit "https://")
      then some loc
      else Option.map (resolve_below base_url loc) (str_str base_url (lit "://"))

unfoldable pub http_is_redirect : ℕ → Bool
http_is_redirect status =
    status == 301 || status == 302 || status == 303 || status == 307 || status == 308
