-- ===== src/State/Saved/RoundTrip.antt =====
-- A state that is saved and loaded.
use mathlib.Core.Option
use mathlib.Core.Option.{get_or}
use avar.Base.{
  List, Option, Option-cases, [], ap, arith, inl, inr, map, none, refl, some, true, ℕ, ◌&&◌, ◌<◌,
  ◌^◌, ◌∙◌, ◌∷◌, ◌≡◌, ◌≤◌,
}
use avar.State.Saved.Loading.{Storable}
use avar.State.Progress.{IsWellFormed}
use avar.State.Saved.Writing.{segments_json, state_members, state_object}
use avar.State.Saved.{
  json_get_string, load_ts_segments, string_or_null, texts_of, chunk_size_of, json_get_u64,
  read_fields, total_size_of, valid_status,
}
use avar.CString.{Text, is_some, lit}
use avar.Cjson.{Cjson, IsLawful}
use avar.State.{DownloadState, Text}
use avar.State.Saved.Members.{find, get-made}

module _ ⦃cj : Cjson⦄ where
  open cj use {
    Json, JsonText, new_bool, new_number, new_string, new_array, get_item, string_value,
    number_value, bool_value, array_items,
  }

  module _ (laws : IsLawful cj) where
    open laws use {string-new, string-null, number-new, bool-new, items-new}

    string-or_null : (o : Option Text) → string_value (string_or_null o) ≡ o
    string-or_null none = string-null
    string-or_null (some t) = string-new t

    string-given : (o : Option Text) → Option.bind (Option.map new_string o) string_value ≡ o
    unfolding Option.bind
    string-given none = refl
    string-given (some t) = string-new t

    texts_of-map : (ts : List Text) → texts_of (map new_string ts) ≡ ts
    texts_of-map [] = refl
    texts_of-map (t ∷ ts) = ground (arith, string-new t, texts_of-map ts)

    pub load-segments_json : (ts : List Text) → load_ts_segments (segments_json ts) ≡ some ts
    unfolding load_ts_segments
    load-segments_json [] = refl
    load-segments_json (t ∷ ts) =
        ground (arith, items-new (map new_string (t ∷ ts)), string-new t, texts_of-map ts)

    module _ (s : DownloadState) where
      pub get_state : (key : Text) → get_item (state_object s) key ≡ find (state_members s) key
      unfolding state_object
      get_state key = get-made laws (state_members s) key refl

      text_at :
          (key : Text) (o : Option Text)
          → find (state_members s) key ≡ some (string_or_null o)
          → json_get_string (state_object s) key ≡ o
      unfolding json_get_string Option.bind
      text_at key o h = ground (arith, get_state key, h, string-or_null o)

      given_at :
          (key : Text) (o : Option Text)
          → find (state_members s) key ≡ Option.map new_string o
          → json_get_string (state_object s) key ≡ o
      unfolding json_get_string
      given_at key o h = ap (λ x. Option.bind x string_value) (get_state key ∙ h) ∙ string-given o

      number_at :
          (key : Text) (n : ℕ)
          → find (state_members s) key ≡ some (new_number n)
          → n ≤ 2 ^ 53
          → Option.bind (get_item (state_object s) key) number_value ≡ some n
      unfolding Option.bind
      number_at key n h fits = ground (arith, get_state key, h, number-new n fits)

      -- What the document can hold: whole numbers up to 2 ^ 53, and a state that download_state_load accepts.
      pub record IsSavable : Type 0 where
        pub well_formed : IsWellFormed s
        pub storable : Storable s.done_ranges
        pub named : (is_some s.url && is_some s.filename && is_some s.dest_path) ≡ true
        pub added : is_some s.added_through ≡ true
        pub known_status : valid_status s.status ≡ s.status
        pub total_fits : s.total_size ≤ 2 ^ 53
        pub bytes_fit : s.bytes_downloaded ≤ 2 ^ 53
        pub chunk_given : 0 < s.chunk_size
        pub chunk_fits : s.chunk_size ≤ 2 ^ 53

      total_size_read : IsSavable → total_size_of (state_object s) ≡ s.total_size
      unfolding json_get_u64 Option.bind
      total_size_read v =
          let none_there : get_item (state_object s) (lit "total_size") ≡ none =
            get_state (lit "total_size") in
          ground (arith, none_there, number_at (lit "totalBytes") s.total_size refl v.total_fits)

      chunk_size_read : IsSavable → chunk_size_of (state_object s) ≡ s.chunk_size
      chunk_size_read v =
          ground (arith, number_at (lit "chunk_size") s.chunk_size refl v.chunk_fits, v.chunk_given)

      inferred_read :
          get_or (Option.bind (get_item (state_object s) (lit "filenameInferred")) bool_value) true
          ≡ s.filename_inferred
      unfolding Option.bind
      inferred_read =
          ground (arith, get_state (lit "filenameInferred"), bool-new s.filename_inferred)

      added_read :
          IsSavable → json_get_string (state_object s) (lit "addedThrough") ≡ s.added_through
      unfolding json_get_string Option.bind
      added_read v = elim (Option-cases s.added_through) [
        | inl e ↦ absurd (ground (arith, e, v.added))
        | inr (t, e) ↦ ground (arith, e, get_state (lit "addedThrough"), string-new t)
      ]

      pub read_fields-state :
          IsSavable
          → read_fields (state_object s) s.ts_segments
            ≡ record s { done_ranges = []; done_range_capacity = 0 }
      unfolding read_fields json_get_u64
      read_fields-state v = rw (
        text_at (lit "id") s.id refl,
        text_at (lit "url") s.url refl,
        text_at (lit "filename") s.filename refl,
        inferred_read,
        given_at (lit "temp_path") s.temp_path refl,
        given_at (lit "dest_path") s.dest_path refl,
        text_at (lit "status") s.status refl,
        v.known_status,
        text_at (lit "proxy") s.proxy refl,
        text_at (lit "queuedAt") s.queued_at refl,
        text_at (lit "lastTryAt") s.last_try_at refl,
        text_at (lit "description") s.description refl,
        text_at (lit "originalPage") s.original_page refl,
        text_at (lit "referer") s.referer refl,
        text_at (lit "streamKind") s.stream_kind refl,
        added_read v,
        text_at (lit "queueId") s.queue_id refl,
        given_at (lit "etag") s.etag refl,
        given_at (lit "lastModified") s.last_modified refl,
        total_size_read v,
        number_at (lit "bytesDownloaded") s.bytes_downloaded refl v.bytes_fit,
        chunk_size_read v,
      )
