-- ===== src/Hls/Media/Reading.antt =====
-- src/stream_hls.c: what `hls_parse_media_playlist` reads, line by line.
use mathlib.Core.Option
use avar.Base.{List, Option, none, some, ℕ}
use avar.CString.{Text}
use avar.Hls.{HlsSegment}
use avar.Hls.Media.{Parse, media_lines}

module _ (scan_hex : Text → Option ℕ) (resolve : Text → Option Text) where
  -- What is read of the lines behind one that the parser took.
  abbrev read_on : List Text → Option Parse → Option (List HlsSegment)
  read_on lines m =
      Option.map (λ (p : Parse). p.items)
        (elim m as (λ x. Option Parse) [
          | none ↦ none
          | some q ↦ media_lines scan_hex resolve q lines
        ])
