-- ===== src/Hls/Media.antt =====
-- src/stream_hls.c: `hls_parse_media_playlist`.
pub mod Ivs
pub mod Outcome
pub mod Steps
pub mod Reading
use mathlib.Core.Option
use mathlib.Core.Option.{get_or}
use avar.Base.{
  Bool, List, Option, [], add64, drop, false, if◌then◌else◌, none, some, ℕ, ◌%◌, ◌++◌, ◌+◌, ◌/◌,
  ◌^◌, ◌∷◌,
}
use avar.CString.{Text, lit, has_prefix, str_case_eq}
use avar.Proxy.{is_empty}
use avar.Http.{http_resolve_url}
use avar.Hls.{HlsSegment, hls_attr_value, lines_onto, number_of, parse_hex_iv, trim_line}

-- `current_method`, `current_key_uri`, `current_iv`, `media_sequence`, `segment_index` and the
-- playlist.
pub record Parse : Type 0 where
  pub method : Option Text
  pub key_uri : Option Text
  pub iv : Option (List ℕ)
  pub media_sequence : Option ℕ
  pub segment_index : ℕ
  pub items : List HlsSegment

-- The low 32 bits of a number, the highest byte first, behind twelve zeros.
unfoldable pub sequence_iv : ℕ → List ℕ
sequence_iv seq =
    0
    ∷ 0
    ∷ 0
    ∷ 0
    ∷ 0
    ∷ 0
    ∷ 0
    ∷ 0
    ∷ 0
    ∷ 0
    ∷ 0
    ∷ 0
    ∷ seq / 2 ^ 24 % 256
    ∷ seq / 2 ^ 16 % 256
    ∷ seq / 2 ^ 8 % 256
    ∷ seq % 256
    ∷ []

abbrev pub is_encrypted : Parse → Bool
is_encrypted p = elim p.method [ none ↦ false | some method ↦ str_case_eq method (lit "AES-128") ]

unfoldable pub segment_iv : Parse → Option (List ℕ)
unfolding sequence_iv
segment_iv p = elim p.iv [
  | some iv ↦ some iv
  | none ↦
      if is_encrypted p
      then some (sequence_iv (add64 (get_or p.media_sequence 0) p.segment_index))
      else none
]

module _ (scan_hex : Text → Option ℕ) (resolve : Text → Option Text) where
  unfoldable pub key_line : Parse → Text → Parse
  unfolding hls_attr_value parse_hex_iv
  key_line p line = record p {
    method = hls_attr_value line (lit "METHOD");
    key_uri = Option.bind (hls_attr_value line (lit "URI")) resolve;
    iv = Option.bind (hls_attr_value line (lit "IV")) (parse_hex_iv scan_hex);
  }

  unfoldable pub segment_line : Parse → Text → Option Parse
  unfolding segment_iv
  segment_line p line = elim (resolve line) [
    | none ↦ none
    | some url ↦ some (record p {
      segment_index = p.segment_index + 1;
      items =
          p.items
          ++ record {
            uri = url;
            key_uri = p.key_uri;
            iv = segment_iv p;
            encrypted = is_encrypted p;
          }
            ∷ [];
    })
  ]

  -- `none` where the result is -1.
  unfoldable pub media_line : Parse → Text → Option Parse
  unfolding key_line segment_line
  media_line p line =
      if is_empty line
      then some p
      else if has_prefix line (lit "#EXT-X-MEDIA-SEQUENCE:")
      then some (record p { media_sequence = some (number_of (drop 22 line)) })
      else if has_prefix line (lit "#EXT-X-KEY:")
      then some (key_line p line)
      else if has_prefix line (lit "#")
      then some p
      else segment_line p line

  unfoldable pub media_lines : Parse → List Text → Option Parse
  unfolding media_line trim_line
  media_lines p [] = some p
  media_lines p (line ∷ lines) = elim (media_line p (trim_line line)) [
    | none ↦ none
    | some p' ↦ media_lines p' lines
  ]

abbrev pub no_segments : Parse
no_segments = record {
  method = none;
  key_uri = none;
  iv = none;
  media_sequence = none;
  segment_index = 0;
  items = [];
}

unfoldable pub hls_parse_media_playlist :
    (scan_hex : Text → Option ℕ) (url_host : Text → Text) → Text → Text → Option (List HlsSegment)
unfolding media_lines lines_onto http_resolve_url
hls_parse_media_playlist scan_hex url_host playlist base_url =
    Option.map (λ p. p.items)
      (media_lines scan_hex (http_resolve_url url_host base_url) no_segments
        (lines_onto [] playlist))
