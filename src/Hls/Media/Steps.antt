-- ===== src/Hls/Media/Steps.antt =====
-- src/stream_hls.c: what one line of a media playlist does to the parser.
use mathlib.Core.Option
use mathlib.Core.Option.{get_or}
use mathlib.Core.Path.{subst}
use avar.Base.{
  Bool, Bool-cases, List, Option, [], add64, arith, drop, false, if◌then◌else◌, inl, inr, none, not,
  refl, some, true, ℕ, ◌++◌, ◌+◌, ◌==◌, ◌||◌, ◌∷◌, ◌≡◌,
}
use avar.Hls.Media.Outcome.{latest, attribute, is_aes, names_uri, IvIs, given_iv, IsSegment}
use avar.Hls.Media.Ivs.{OfLength, bound-OfLength, parse_hex_iv-OfLength}
use avar.CString.{Text, lit, has_prefix, str_case_eq}
use avar.Proxy.{is_empty}
use avar.Hls.{HlsSegment, hls_attr_value, number_of, parse_hex_iv}
use avar.Hls.Media.{
  Parse, key_line, media_line, is_encrypted, segment_iv, segment_line, sequence_iv,
}

module _ (scan_hex : Text → Option ℕ) (resolve : Text → Option Text) where
  -- What the parser keeps, from the lines of the key and of the number.
  abbrev state_from : Option Text → Option Text → ℕ → List HlsSegment → Parse
  state_from key sequence k items = record {
    method = Option.bind key (λ line. hls_attr_value line (lit "METHOD"));
    key_uri = Option.bind (Option.bind key (λ line. hls_attr_value line (lit "URI"))) resolve;
    iv =
        Option.bind (Option.bind key (λ line. hls_attr_value line (lit "IV")))
          (parse_hex_iv scan_hex);
    media_sequence = Option.map (λ line. number_of (drop 22 line)) sequence;
    segment_index = k;
    items = items;
  }

  abbrev pub state_of : List Text → ℕ → List HlsSegment → Parse
  state_of before =
      state_from (latest (lit "#EXT-X-KEY:") before) (latest (lit "#EXT-X-MEDIA-SEQUENCE:") before)

  empty-has_prefix :
      (line : Text) (c : ℕ) (cs : Text) → is_empty line ≡ true → has_prefix line (c ∷ cs) ≡ false
  empty-has_prefix [] c cs h = refl
  empty-has_prefix (x ∷ xs) c cs h = absurd (ground (arith, h))

  hash-has_prefix :
      (line : Text) (cs : Text)
      → has_prefix line (lit "#") ≡ false
      → has_prefix line (b'#' ∷ cs) ≡ false
  hash-has_prefix [] cs h = refl
  hash-has_prefix (x ∷ xs) cs h = ground (arith, h)

  abbrev clash : Text → Text → Bool
  clash (x ∷ xs) (y ∷ ys) = not (x == y) || clash xs ys
  clash _ _ = false

  clash-has_prefix :
      (line a b : Text) → clash a b ≡ true → has_prefix line a ≡ true → has_prefix line b ≡ false
  clash-has_prefix line [] b c h = absurd (ground (arith, c))
  clash-has_prefix line (x ∷ xs) [] c h = absurd (ground (arith, c))
  clash-has_prefix [] (x ∷ xs) (y ∷ ys) c h = refl
  clash-has_prefix (z ∷ zs) (x ∷ xs) (y ∷ ys) c h = ground (arith, c, h, clash-has_prefix zs xs ys)

  pub other_line-step :
      (before : List Text) (k : ℕ) (items : List HlsSegment) (line : Text)
      → names_uri line ≡ false
      → media_line scan_hex resolve (state_of before k items) line
        ≡ some (state_of (line ∷ before) k items)
  unfolding media_line key_line Option.bind
  other_line-step before k items line h =
      let keyed : Text = lit "#EXT-X-KEY:" in
      let numbered : Text = lit "#EXT-X-MEDIA-SEQUENCE:" in
      elim (Bool-cases (is_empty line)) [
        | inl e ↦ rw (e, empty-has_prefix line _ _ e, empty-has_prefix line _ _ e) refl
        | inr e ↦ elim (Bool-cases (has_prefix line numbered)) [
          | inl n ↦ rw (e, n, clash-has_prefix line numbered keyed refl n) refl
          | inr n ↦ elim (Bool-cases (has_prefix line keyed)) [
            | inl y ↦ rw (e, n, y) refl
            | inr y ↦
                let hashed : has_prefix line (lit "#") ≡ true = ground (arith, e, h) in
                rw (e, n, y, hashed) refl
          ]
        ]
      ]

  -- The segment that the parser adds.
  abbrev pub segment_of : List Text → ℕ → Text → HlsSegment
  segment_of before k url = record {
    uri = url;
    key_uri = (state_of before k []).key_uri;
    iv = segment_iv (state_of before k []);
    encrypted = is_encrypted (state_of before k []);
  }

  pub uri_line-step :
      (before : List Text) (k : ℕ) (items : List HlsSegment) (line : Text)
      → names_uri line ≡ true
      → media_line scan_hex resolve (state_of before k items) line
        ≡ Option.map
            (λ url. state_of (line ∷ before) (k + 1) (items ++ segment_of before k url ∷ []))
            (resolve line)
  unfolding media_line segment_line segment_iv
  uri_line-step before k items line h =
      let plain : is_empty line ≡ false = ground (arith, h) in
      let no_hash : has_prefix line (lit "#") ≡ false = ground (arith, h) in
      let added : Text → Parse = λ url.
        state_from (latest (lit "#EXT-X-KEY:") before)
          (latest (lit "#EXT-X-MEDIA-SEQUENCE:") before) (k + 1)
          (items ++ segment_of before k url ∷ []) in
      rw (plain, no_hash, hash-has_prefix line _ no_hash, hash-has_prefix line _ no_hash)
        (elim (resolve line)
          as (λ o.
            (elim o as (λ x. Option Parse) [ none ↦ none | some url ↦ some (added url) ])
            ≡ Option.map added o) [ none ↦ refl | some url ↦ refl ])

  first_number-map :
      (o : Option Text)
      → get_or (Option.map (λ line. number_of (drop 22 line)) o) 0
        ≡ (elim o as (λ x. ℕ) [ none ↦ 0 | some line ↦ number_of (drop 22 line) ])
  first_number-map none = refl
  first_number-map (some line) = refl

  is_aes-elim :
      (o : Option Text)
      → (elim o as (λ x. Bool) [ none ↦ false | some method ↦ str_case_eq method (lit "AES-128") ])
        ≡ is_aes o
  is_aes-elim none = refl
  is_aes-elim (some method) = refl

  numbered-IvIs :
      (given : Option (List ℕ)) (encrypted : Bool) (m k : ℕ)
      → OfLength 16 given
      → IvIs given encrypted (m + k) (elim given as (λ x. Option (List ℕ)) [
        | some iv ↦ some iv
        | none ↦ if encrypted then some (sequence_iv (add64 m k)) else none
      ])
  unfolding IvIs sequence_iv
  numbered-IvIs (some iv) encrypted m k h = (refl, h)
  numbered-IvIs none false m k h = refl
  numbered-IvIs none true m k h =
      (sequence_iv (add64 m k), refl, omega arith, ground arith, omega arith)

  pub segment_of-IsSegment :
      (before : List Text) (k : ℕ) (line url : Text)
      → resolve line ≡ some url
      → IsSegment scan_hex resolve before k line (segment_of before k url)
  unfolding segment_iv
  segment_of-IsSegment before k line url e = record {
    uri = e;
    key_uri = refl;
    encrypted = is_aes-elim (attribute (lit "METHOD") before);
    iv =
        let st = state_of before k [] in
        subst
          (λ m. IvIs (given_iv scan_hex resolve before) (is_encrypted st) (m + k) (segment_iv st))
          (first_number-map (latest (lit "#EXT-X-MEDIA-SEQUENCE:") before))
          (numbered-IvIs (given_iv scan_hex resolve before) (is_encrypted st)
            (get_or st.media_sequence 0) k
            (bound-OfLength _ (parse_hex_iv scan_hex) (parse_hex_iv-OfLength scan_hex)));
  }
