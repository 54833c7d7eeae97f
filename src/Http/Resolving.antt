-- ===== src/Http/Resolving.antt =====
-- `http_resolve_url` on a location that is relative to the directory of the base.
use mathlib.Core.Option
use mathlib.Core.Path.{ap₂}
use avar.Base.{
  Option, [], ap, append_assoc, arith, drop_past-length, false, if◌then◌else◌, leb, length,
  length-append, le→leb, none, refl, some, suc, sym, take, take_past-length, true, ℕ, ◌++◌, ◌+◌,
  ◌<◌, ◌||◌, ◌∙◌, ◌∷◌, ◌≡◌,
}
use avar.CString.{Text, lit, has_prefix, str_chr, str_rchr, str_str}
use avar.CString.Search.{free_of, str_chr_within, str_rchr-append, str_str-append}
use avar.Http.{http_resolve_url, trim_whitespace, directory_of, resolve_below}

-- Not absolute, not empty, and without white space around it.
pub record IsRelative (loc : Text) : Type 0 where
  pub trimmed : trim_whitespace loc ≡ loc
  pub no_http : has_prefix loc (lit "http://") ≡ false
  pub no_https : has_prefix loc (lit "https://") ≡ false
  pub no_slash : has_prefix loc (lit "/") ≡ false
  pub some_text : 0 < length loc

no_slashes : (loc : Text) → has_prefix loc (lit "/") ≡ false → has_prefix loc (lit "//") ≡ false
no_slashes [] h = refl
no_slashes (c ∷ []) h = ground arith
no_slashes (c ∷ d ∷ rest) h = ground arith

module _ (url_host : Text → Text) where
  directory_lem :
      (scheme rest file : Text)
      → free_of b'/' file ≡ true
      → directory_of url_host (scheme ++ (lit "://" ++ (rest ++ (b'/' ∷ file)))) (length scheme)
        ≡ scheme ++ (lit "://" ++ (rest ++ b'/' ∷ []))
  unfolding directory_of
  directory_lem scheme rest file free =
      let base = scheme ++ (lit "://" ++ (rest ++ (b'/' ∷ file))) in
      let before = scheme ++ (lit "://" ++ rest) in
      let split : base ≡ before ++ (b'/' ∷ file) =
        sym (append_assoc scheme (lit "://" ++ rest) (b'/' ∷ file)) in
      let (i, found, within) = str_chr_within rest file b'/' in
      let pick : Option ℕ → Option ℕ → Text = λ path_start last_slash. elim path_start [
        | none ↦ base ++ b'/' ∷ []
        | some p ↦ elim last_slash [
          | none ↦ base
          | some l ↦ if leb (length scheme + 3 + p) l then take (suc l) base else base
        ]
      ] in
      let inside : leb (length scheme + 3 + i) (length before) ≡ true =
        le→leb (length scheme + 3 + i) (length before)
          (omega (arith, length-append scheme (lit "://" ++ rest), within)) in
      ap (λ t. pick (str_chr t b'/') (str_rchr base b'/'))
        (drop_past-length scheme (lit "://" ++ (rest ++ (b'/' ∷ file))) 3)
      ∙ ap₂ pick found (ap (λ t. str_rchr t b'/') split ∙ str_rchr-append before file b'/' free)
      ∙ ap (λ b. if b then take (suc (length before)) base else base) inside
      ∙ ap (take (suc (length before))) split
      ∙ take_past-length before b'/' file
      ∙ append_assoc scheme (lit "://" ++ rest) (b'/' ∷ [])

  below_lem :
      (base loc : Text) (i : ℕ)
      → IsRelative loc
      → resolve_below url_host base loc i ≡ directory_of url_host base i ++ loc
  unfolding resolve_below
  below_lem base loc i r = ground (arith, r.no_slash, no_slashes loc r.no_slash)

  -- For a base scheme://rest/file, where the scheme has no colon and file no slash, and a
  -- relative location (not empty, no white space around it, no leading slash, not http:// or
  -- https://), http_resolve_url gives scheme://rest/ followed by the location.
  pub http_resolve_url-relative :
      (scheme rest file loc : Text)
      → free_of b':' scheme ≡ true
      → free_of b'/' file ≡ true
      → IsRelative loc
      → http_resolve_url url_host (scheme ++ (lit "://" ++ (rest ++ (b'/' ∷ file)))) loc
        ≡ some (scheme ++ (lit "://" ++ (rest ++ (b'/' ∷ loc))))
  unfolding http_resolve_url
  http_resolve_url-relative scheme rest file [] fs ff r = absurd (omega (arith, r.some_text))
  http_resolve_url-relative scheme rest file (c ∷ loc) fs ff r =
      let location = c ∷ loc in
      let base = scheme ++ (lit "://" ++ (rest ++ (b'/' ∷ file))) in
      let choose : Text → Option Text = λ l.
        if has_prefix l (lit "http://") || has_prefix l (lit "https://")
        then some l
        else Option.map (resolve_below url_host base l) (str_str base (lit "://")) in
      let relative : (has_prefix location (lit "http://") || has_prefix location (lit "https://"))
          ≡ false =
        ap₂ (λ a b. a || b) r.no_http r.no_https in
      ap choose r.trimmed
      ∙ ap
          (λ b.
            if b
            then some location
            else Option.map (resolve_below url_host base location) (str_str base (lit "://")))
          relative
      ∙ ap (Option.map (resolve_below url_host base location))
          (str_str-append scheme (rest ++ (b'/' ∷ file)) (lit "//") b':' fs)
      ∙ ap some (
          below_lem base location (length scheme) r
          ∙ ap (λ d. d ++ location) (directory_lem scheme rest file ff)
          ∙ append_assoc scheme (lit "://" ++ (rest ++ b'/' ∷ [])) location
          ∙ ap (λ z. scheme ++ (lit "://" ++ z)) (append_assoc rest (b'/' ∷ []) location))
