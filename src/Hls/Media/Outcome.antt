-- ===== src/Hls/Media/Outcome.antt =====
-- What `hls_parse_media_playlist`, in src/stream_hls.c, is to read of the lines of a playlist.
use mathlib.Core.Option
use avar.Base.{
  Bool, List, Option, [], drop, false, if◌then◌else◌, length, none, not, some, true, ℕ, ◌%◌, ◌&&◌,
  ◌*◌, ◌+◌, ◌<◌, ◌^◌, ◌∷◌, ◌≡◌,
}
use avar.CString.{Text, lit, has_prefix, str_case_eq}
use avar.Proxy.{is_empty}
use avar.Hls.{HlsSegment, hls_attr_value, number_of, parse_hex_iv, trim_line}

-- Of lines in backward order, the first that begins so.
abbrev pub latest : Text → List Text → Option Text
latest start [] = none
latest start (line ∷ before) = if has_prefix line start then some line else latest start before

-- An attribute of the key that is in force.
abbrev pub attribute : Text → List Text → Option Text
attribute name before =
    Option.bind (latest (lit "#EXT-X-KEY:") before) (λ line. hls_attr_value line name)

-- The number of the first segment.
abbrev pub first_number : List Text → ℕ
first_number before = elim (latest (lit "#EXT-X-MEDIA-SEQUENCE:") before) [
  | none ↦ 0
  | some line ↦ number_of (drop 22 line)
]

abbrev pub is_aes : Option Text → Bool
is_aes none = false
is_aes (some method) = str_case_eq method (lit "AES-128")

-- A line that is neither empty nor a comment or a tag.
abbrev pub names_uri : Text → Bool
names_uri line = not (is_empty line) && not (has_prefix line (lit "#"))

-- The number that bytes write, the highest byte first.
abbrev pub big_endian : ℕ → List ℕ → ℕ
big_endian high [] = high
big_endian high (byte ∷ bytes) = big_endian (high * 256 + byte) bytes

abbrev pub AreBytes : List ℕ → Type 0
AreBytes [] = Unit
AreBytes (byte ∷ bytes) = (byte < 256) × AreBytes bytes

-- The vector of a segment: the given one, else the low 32 bits of the number of the segment, for a
-- segment that is to be decrypted.
unfoldable pub IvIs :
    (given : Option (List ℕ)) (encrypted : Bool) (number : ℕ) → Option (List ℕ) → Type 0
IvIs (some iv) encrypted number actual = (actual ≡ some iv) × (length iv ≡ 16)
IvIs none true number actual =
    (iv : List ℕ) × (actual ≡ some iv)
    × (length iv ≡ 16)
    × AreBytes iv
    × (big_endian 0 iv ≡ number % 2 ^ 32)
IvIs none false number actual = actual ≡ none

module _ (scan_hex : Text → Option ℕ) (resolve : Text → Option Text) where
  abbrev pub given_iv : List Text → Option (List ℕ)
  given_iv before = Option.bind (attribute (lit "IV") before) (parse_hex_iv scan_hex)

  -- The segment of a line, with so many segments and these lines before it.
  pub record IsSegment (before : List Text) (k : ℕ) (line : Text) (s : HlsSegment) : Type 0 where
    pub uri : resolve line ≡ some s.uri
    pub key_uri : s.key_uri ≡ Option.bind (attribute (lit "URI") before) resolve
    pub encrypted : s.encrypted ≡ is_aes (attribute (lit "METHOD") before)
    pub iv : IvIs (given_iv before) s.encrypted (first_number before + k) s.iv

  -- The segments of the lines that follow, one for each line that names one.
  pub data AreRead : List Text → ℕ → List Text → List HlsSegment → Type 0 where
    no_line : {before : List Text} {k : ℕ} → AreRead before k [] []
    other_line :
        {before lines : List Text} {k : ℕ} {line : Text} {segments : List HlsSegment}
        → names_uri (trim_line line) ≡ false
        → AreRead (trim_line line ∷ before) k lines segments
        → AreRead before k (line ∷ lines) segments
    uri_line :
        {before lines : List Text} {k : ℕ} {line : Text} {s : HlsSegment}
        {segments : List HlsSegment}
        → names_uri (trim_line line) ≡ true
        → IsSegment before k (trim_line line) s
        → AreRead (trim_line line ∷ before) (k + 1) lines segments
        → AreRead before k (line ∷ lines) (s ∷ segments)

  -- Some line names an address that does not resolve.
  pub data HasUnresolved : List Text → Type 0 where
    this_line :
        {line : Text} {lines : List Text}
        → names_uri (trim_line line) ≡ true
        → resolve (trim_line line) ≡ none
        → HasUnresolved (line ∷ lines)
    later_line :
        {line : Text} {lines : List Text} → HasUnresolved lines → HasUnresolved (line ∷ lines)

  unfoldable pub IsOutcome : List Text → ℕ → List Text → Option (List HlsSegment) → Type 0
  IsOutcome before k lines none = HasUnresolved lines
  IsOutcome before k lines (some segments) = AreRead before k lines segments
