-- ===== src/Tests/StreamRuns.antt =====
-- Addresses and playlists at sample inputs.
use mathlib.Core.Option
use avar.Base.{List, Option, [], arith, none, refl, some, true, ℕ, ◌++◌, ◌∷◌, ◌≡◌}
use avar.CString.{
  Text, lit, digits_value, str_case_eq, str_chr, str_rchr, str_str, str_to_ul, to_lower,
}
use avar.Http.{http_resolve_url, trim_whitespace}
use avar.Http.Resolving.{http_resolve_url-relative}
use avar.Hls.{HlsSegment, pick_variant_url}
use avar.Hls.Media.{hls_parse_media_playlist}
use avar.Hls.Segments.{pad, aes128_cbc_decrypt, aes128_cbc_decrypt-pad}

abbrev no_host : Text → Text
no_host url = []

abbrev no_hex : Text → Option ℕ
no_hex text = none

abbrev base : Text
base = lit "http://h/v/index.m3u8"

abbrev keyed_playlist : Text
keyed_playlist =
    lit "#EXTM3U"
    ++ (10 ∷ lit "#EXT-X-MEDIA-SEQUENCE:7")
    ++ (10 ∷ lit "#EXT-X-KEY:METHOD=AES-128,URI=k")
    ++ (10 ∷ lit "a.ts")
    ++ (10 ∷ lit "b.ts")

abbrev keyed : Text → ℕ → HlsSegment
keyed name sequence = record {
  uri = lit "http://h/v/" ++ name;
  key_uri = some (lit "http://h/v/k");
  iv = some (0 ∷ 0 ∷ 0 ∷ 0 ∷ 0 ∷ 0 ∷ 0 ∷ 0 ∷ 0 ∷ 0 ∷ 0 ∷ 0 ∷ 0 ∷ 0 ∷ 0 ∷ sequence ∷ []);
  encrypted = true;
}

parse_run :
    hls_parse_media_playlist no_hex no_host keyed_playlist base
    ≡ some (keyed (lit "a.ts") 7 ∷ keyed (lit "b.ts") 8 ∷ [])
unfolding hls_parse_media_playlist str_str str_chr Option.bind str_case_eq str_rchr to_lower
    str_to_ul digits_value
parse_run = refl

variant_run :
    pick_variant_url no_host
      (lit "#EXT-X-STREAM-INF:BANDWIDTH=5"
        ++ (10 ∷ lit "low.m3u8")
        ++ (10 ∷ lit "#EXT-X-STREAM-INF:BANDWIDTH=9")
        ++ (10 ∷ lit "high.m3u8"))
      base
    ≡ some (lit "http://h/v/high.m3u8")
unfolding pick_variant_url str_str str_to_ul digits_value str_chr str_rchr
variant_run = refl

http_resolve_url-relative_example :
    http_resolve_url no_host (lit "http://h/v/index.m3u8") (lit "a.ts")
    ≡ some (lit "http://h/v/a.ts")
unfolding trim_whitespace
http_resolve_url-relative_example =
    http_resolve_url-relative no_host (lit "http") (lit "h/v") (lit "index.m3u8") (lit "a.ts") refl
      refl
      (record {
        trimmed = refl;
        no_http = refl;
        no_https = refl;
        no_slash = refl;
        some_text = omega arith;
      })

-- A library that leaves its input.
abbrev plain_text : List ℕ
plain_text = 1 ∷ 2 ∷ 3 ∷ []

aes128_cbc_decrypt-pad_example :
    aes128_cbc_decrypt (λ key iv input. some input) (λ url. none) (pad plain_text) [] []
    ≡ some plain_text
aes128_cbc_decrypt-pad_example =
    aes128_cbc_decrypt-pad (λ key iv input. some input) (λ url. none) (pad plain_text) [] []
      plain_text (omega arith) refl refl
