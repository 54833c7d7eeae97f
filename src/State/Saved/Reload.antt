-- ===== src/State/Saved/Reload.antt =====
-- `download_state_load` of a file that `download_state_save` has written.
use mathlib.Core.Option
use mathlib.Core.Option.{get_or}
use mathlib.Core.Path.{subst}
use avar.Ranges.Coverage.{covers}
use avar.Base.{
  Bool, List, Option, [], ap, arith, if◌then◌else◌, map, none, refl, some, sym, true, ℕ, ◌&&◌, ◌∙◌,
  ◌∷◌, ◌≡◌,
}
use avar.State.Saved.Members.{is_object-made}
use avar.Ranges.Clipping.{IsGapped-IsSorted, clipped-normal}
use avar.Ranges.Extent.{IsGapped-ext}
use avar.State.Saved.Loading.{Loaded, load_done_ranges-Loaded}
use avar.State.Saved.Writing.{
  StateFiles, Writable, download_state_save, range_pair, state_object, state_members,
}
use avar.State.Progress.{IsWellFormed}
use avar.State.Saved.{
  download_state_load, finish_load, load_done_ranges, read_ranges, restore, load_ts_segments,
  read_fields,
}
use avar.Ranges.{clip_ranges, coalesce, ByteRange}
use avar.CString.{lit, Text, is_some}
use avar.Cjson.{Cjson, IsLawful}
use avar.State.{DownloadState, clip_done_ranges, Text}
use avar.State.Saved.RoundTrip.{IsSavable, get_state, load-segments_json, read_fields-state}

-- The result of clipping where coalescing gives back the ranges.
clipped_same :
    (s : DownloadState) (rs : List ByteRange)
    → s.done_ranges ≡ rs
    → coalesce (clip_ranges s.total_size rs) ≡ rs
    → (elim rs as (λ x. DownloadState) [
      | [] ↦ s
      | r ∷ more ↦ record s { done_ranges = coalesce (clip_ranges s.total_size (r ∷ more)) }
    ])
      ≡ s
clipped_same s [] e same = refl
clipped_same s (r ∷ more) e same = ap (λ xs. record s { done_ranges = xs }) (same ∙ sym e)

-- Completed ranges that are in order stay as they are.
clip_done_ranges-IsWellFormed : (s : DownloadState) → IsWellFormed s → clip_done_ranges s ≡ s
unfolding clip_done_ranges
clip_done_ranges-IsWellFormed s v =
    let (gapped, covered) =
      clipped-normal s.total_size s.done_ranges (IsGapped-IsSorted 0 s.done_ranges v.gapped) in
    clipped_same s s.done_ranges refl (
      IsGapped-ext 0 (coalesce (clip_ranges s.total_size s.done_ranges)) s.done_ranges gapped
        v.gapped (λ x. covered x ∙ ground (arith, v.in_size x)))

kept_or : (o : Option Text) (d : Text) → is_some o ≡ true → some (get_or o d) ≡ o
kept_or none d h = ground (arith, h)
kept_or (some t) d h = refl

module _ ⦃cj : Cjson⦄ where
  open cj use {Json, JsonText, print, parse, get_item, array_items, new_array, is_object}

  module _ (laws : IsLawful cj) (realloc : ℕ → Bool) (given : (n : ℕ) → realloc n ≡ true)
      (s : DownloadState) (v : IsSavable laws s) where
    open laws use {parse-print, items-new}

    abbrev fields : DownloadState
    fields = record s { done_ranges = []; done_range_capacity = 0 }

    fields-IsWellFormed : IsWellFormed fields
    unfolding covers
    fields-IsWellFormed = record {
      gapped = tt;
      in_size = λ x h. absurd (ground (arith, h));
      room = omega arith;
      size_fits = omega (arith, v.total_fits);
    }

    loaded :
        (result : DownloadState) × (load_done_ranges realloc fields (map range_pair s.done_ranges)
          ≡ some result)
        × Loaded fields s.done_ranges result
    loaded =
        load_done_ranges-Loaded laws realloc given fields s.done_ranges fields-IsWellFormed
          v.storable

    ranges_read : read_ranges realloc fields (state_object s) ≡ some loaded.0
    unfolding read_ranges Option.bind
    ranges_read = ground (
      arith,
      get_state laws s (lit "done_ranges"),
      items-new (map range_pair s.done_ranges),
      loaded.1,
    )

    same_ranges : loaded.0.done_ranges ≡ s.done_ranges
    unfolding covers
    same_ranges =
        let l = loaded.2 in
        IsGapped-ext 0 loaded.0.done_ranges s.done_ranges l.valid.gapped v.well_formed.gapped
          (λ x. ground (arith, l.added x, v.well_formed.in_size x))

    state_read : loaded.0 ≡ record s { done_range_capacity = loaded.0.done_range_capacity }
    state_read =
        loaded.2.frame
        ∙ ap
            (λ rs. record s {
              done_ranges = rs;
              done_range_capacity = loaded.0.done_range_capacity;
            })
            same_ranges

    finish_load-same :
        (r : DownloadState)
        → IsWellFormed r
        → (is_some r.url && is_some r.filename && is_some r.dest_path) ≡ true
        → is_some r.added_through ≡ true
        → finish_load r ≡ some r
    unfolding finish_load
    finish_load-same r w named added =
        ap
          (λ b.
            if b
            then some (record (clip_done_ranges r) {
              added_through = some (get_or r.added_through (lit "direct"));
            })
            else none)
          named
        ∙ ap
            (λ (x : DownloadState).
              some (record x { added_through = some (get_or r.added_through (lit "direct")) }))
            (clip_done_ranges-IsWellFormed r w)
        ∙ ap (λ a. some (record r { added_through = a }))
            (kept_or r.added_through (lit "direct") added)

    finished :
        finish_load loaded.0
        ≡ some (record s { done_range_capacity = loaded.0.done_range_capacity })
    finished =
        ap finish_load state_read
        ∙ finish_load-same (record s { done_range_capacity = loaded.0.done_range_capacity })
            (subst IsWellFormed state_read loaded.2.valid) v.named v.added

    restored :
        restore realloc (state_object s)
        ≡ some (record s { done_range_capacity = loaded.0.done_range_capacity })
    unfolding restore Option.bind
    restored =
        let root = state_object s in
        let segments : load_ts_segments (get_item root (lit "tsSegments")) ≡ some s.ts_segments =
          ap load_ts_segments (get_state laws s (lit "tsSegments"))
          ∙ load-segments_json laws s.ts_segments in
        ap
          (λ o. elim o as (λ x. Option DownloadState) [
            | none ↦ none
            | some urls ↦ Option.bind (read_ranges realloc (read_fields root urls) root) finish_load
          ])
          segments
        ∙ ap (λ f. Option.bind (read_ranges realloc f root) finish_load)
            (read_fields-state laws s v)
        ∙ ap (λ o. Option.bind o finish_load) ranges_read
        ∙ finished

    loaded_print :
        download_state_load realloc (some (print (state_object s)))
        ≡ restore realloc (state_object s)
    unfolding download_state_load state_object
    loaded_print =
        ground (arith, parse-print (state_object s), is_object-made laws (state_members s))

    -- After a successful download_state_save, download_state_load of the file gives the state
    -- back, but for the capacity of its array of ranges. The state is well-formed, its numbers
    -- are at most 2^53, its chunk size is positive, it has a URL, a file name and a
    -- destination, the way it was added and a valid status or none; the allocator always
    -- succeeds and cJSON is lawful.
    pub download_state_load-save :
        (system : Writable) (files : StateFiles)
        → (download_state_save system s files).0 ≡ true
        → (cap : ℕ) × (download_state_load realloc (download_state_save system s files).1.saved
            ≡ some (record s { done_range_capacity = cap }))
    unfolding download_state_save
    download_state_load-save system files done =
        let saved : (download_state_save system s files).1.saved ≡ some (print (state_object s)) =
          ground (arith, done) in
        (
          loaded.0.done_range_capacity,
          ap (download_state_load realloc) saved ∙ loaded_print ∙ restored,
        )
