-- ===== src/Hls.antt =====
-- src/stream_hls.c: HTTP Live Streaming. Playlists, the choice of a variant, keys and segments.
-- `sscanf(text, "%2x", &byte)`, the host of a URL, AES and the fetching of a URL are parameters.
pub mod Media
pub mod Segments
use mathlib.Core.Option
use mathlib.Core.Option.{get_or}
use avar.Base.{
  Bool, List, Option, [], drop, false, if◌then◌else◌, leb, length, none, not, some, suc, take, true,
  zero, ℕ, ◌%◌, ◌++◌, ◌-◌, ◌==◌, ◌||◌, ◌∷◌,
}
use avar.CString.{
  Text, lit, has_prefix, drop_while, drop_end, is_space, str_str, is_some, str_case_eq, str_to_ul,
  str_chr,
}
use avar.Proxy.{is_empty}
use avar.Http.{until, http_resolve_url}

pub record HlsSegment : Type 0 where
  pub uri : Text
  pub key_uri : Option Text
  -- `iv`, where `iv_set` holds.
  pub iv : Option (List ℕ)
  pub encrypted : Bool

unfoldable pub stream_url_is_hls : Text → Option Text → Bool
stream_url_is_hls url stream_kind =
    str_case_eq (get_or stream_kind []) (lit "hls")
    || is_some (str_str url (lit ".m3u8"))
    || is_some (str_str url (lit ".M3U8"))

unfoldable pub trim_line : Text → Text
unfolding drop_while drop_end is_space
trim_line line = drop_while is_space (drop_end (λ c. c == 13 || c == 10 || is_space c) line)

-- The lines that `strtok(copy, "\n")` yields: none is empty.
unfoldable pub lines_onto : Text → Text → List Text
lines_onto line [] = if is_empty line then [] else line ∷ []
lines_onto line (c ∷ cs) =
    let rest = lines_onto [] cs in
    let longer = lines_onto (line ++ c ∷ []) cs in
    if c == 10 then if is_empty line then rest else line ∷ rest else longer

module _ (scan_hex : Text → Option ℕ) where
  unfoldable pub hex_bytes : ℕ → Text → Option (List ℕ)
  hex_bytes zero text = some []
  hex_bytes (suc n) text =
      let rest = hex_bytes n (drop 2 text) in
      elim (scan_hex text) [
        | none ↦ none
        | some byte ↦ Option.map (λ bytes. byte % 256 ∷ bytes) rest
      ]

  unfoldable pub parse_hex_iv : Text → Option (List ℕ)
  unfolding hex_bytes
  parse_hex_iv value =
      let digits =
        if has_prefix value (lit "0x") || has_prefix value (lit "0X")
        then drop 2 value
        else value in
      if length digits == 32 then hex_bytes 16 digits else none

-- The value behind the `=`: up to the closing quote, or up to a comma or white space.
unfoldable pub attr_text : Text → Option Text
unfolding is_space
attr_text [] = some []
attr_text (c ∷ cs) =
    if c == b'"'
    then Option.map (λ end. take end cs) (str_chr cs b'"')
    else some (until (λ d. d == b',' || is_space d) (c ∷ cs))

-- The loop over the places of the key, which is not empty; `skip` characters are to be passed over.
unfoldable pub attr_from : Text → ℕ → Text → Option Text
unfolding attr_text
attr_from key skip [] = none
attr_from key (suc skip) (c ∷ cs) = attr_from key skip cs
attr_from key zero (c ∷ cs) =
    let next = attr_from key zero cs in
    let past = attr_from key (length key - 1) cs in
    let after = drop (length key) (c ∷ cs) in
    if has_prefix (c ∷ cs) key
    then if has_prefix after (lit "=") then attr_text (drop 1 after) else past
    else next

unfoldable pub hls_attr_value : Text → Text → Option Text
unfolding attr_from
hls_attr_value line key = attr_from key 0 line

unfoldable pub playlist_is_master : Text → Bool
playlist_is_master text = is_some (str_str text (lit "#EXT-X-STREAM-INF"))

-- `strtoul(text, NULL, 10)`
abbrev pub number_of : Text → ℕ
number_of text = elim (str_to_ul text) [ none ↦ 0 | some (value, rest) ↦ value ]

-- `best_uri` with `best_bw`, `pending_bw` and `have_inf`.
pub record Variants : Type 0 where
  pub best : Option (Text × ℕ)
  pub pending_bw : ℕ
  pub have_inf : Bool

module _ (resolve : Text → Option Text) where
  unfoldable pub offer : Variants → Text → Variants
  offer v url = elim v.best [
    | none ↦ record { best = some (url, v.pending_bw); pending_bw = v.pending_bw; have_inf = false }
    | some (best, bw) ↦ record {
      best = if leb bw v.pending_bw then some (url, v.pending_bw) else some (best, bw);
      pending_bw = v.pending_bw;
      have_inf = false;
    }
  ]

  unfoldable pub variant_line : Variants → Text → Variants
  unfolding offer hls_attr_value
  variant_line v line =
      if has_prefix line (lit "#EXT-X-STREAM-INF:")
      then record v {
        pending_bw = number_of (get_or (hls_attr_value line (lit "BANDWIDTH")) []);
        have_inf = true;
      }
      else if is_empty line || has_prefix line (lit "#") || not v.have_inf
      then v
      else elim (resolve line) [ none ↦ record v { have_inf = false } | some url ↦ offer v url ]

  unfoldable pub variant_lines : Variants → List Text → Variants
  unfolding variant_line trim_line
  variant_lines v [] = v
  variant_lines v (line ∷ lines) = variant_lines (variant_line v (trim_line line)) lines

abbrev pub no_variant : Variants
no_variant = record { best = none; pending_bw = 0; have_inf = false }

unfoldable pub pick_variant_url : (url_host : Text → Text) → Text → Text → Option Text
unfolding variant_lines lines_onto http_resolve_url
pick_variant_url url_host playlist base_url =
    let v =
      variant_lines (http_resolve_url url_host base_url) no_variant (lines_onto [] playlist) in
    Option.map (λ best. best.0) v.best
