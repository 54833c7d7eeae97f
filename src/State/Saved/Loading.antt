-- ===== src/State/Saved/Loading.antt =====
-- Reading the completed ranges back: what marking a list of ranges leaves.
use avar.Base.{
  All, Bool, List, Option-cases, [], ap, arith, inl, inr, map, refl, some, true, ℕ, ◌&&◌, ◌+◌, ◌<◌,
  ◌^◌, ◌||◌, ◌∙◌, ◌∷◌, ◌≡◌, ◌≤◌,
}
use avar.State.Marking.{download_state_mark_range_done-Marked, download_state_mark_range_done_fails}
use avar.State.Saved.Writing.{range_pair}
use avar.Cjson.{Cjson, IsLawful}
use avar.Ranges.{ByteRange}
use avar.Ranges.Coverage.{covers}
use avar.State.{DownloadState, download_state_mark_range_done}
use avar.State.Progress.{in_file, is_done, IsWellFormed}
use avar.State.Saved.{pair_of, load_done_ranges}

module _ ⦃cj : Cjson⦄ where
  open cj use {Json, number_value, array_items, new_number, new_array}

  -- Ranges that are not inverted and that a `double` can hold.
  abbrev pub Storable : List ByteRange → Type 0
  Storable rs = All (λ r. (r.start ≤ r.end) × (r.end ≤ 2 ^ 53)) rs

  -- What the state is once the ranges are marked.
  pub record Loaded (state : DownloadState) (rs : List ByteRange) (result : DownloadState)
      : Type 0 where
    pub valid : IsWellFormed result
    pub added :
        (x : ℕ) → is_done result x ≡ (is_done state x || covers rs x && in_file state.total_size x)
    pub frame : result ≡ record state {
      done_ranges = result.done_ranges;
      done_range_capacity = result.done_range_capacity;
    }

  module _ (laws : IsLawful cj) (realloc : ℕ → Bool) (given : (n : ℕ) → realloc n ≡ true) where
    open laws use {number-new, items-new}

    pair_of-range_pair :
        (r : ByteRange)
        → r.start ≤ r.end
        → r.end ≤ 2 ^ 53
        → pair_of (range_pair r) ≡ some (r.start, r.end)
    pair_of-range_pair r le fits = ground (
      arith,
      items-new (new_number r.start ∷ new_number r.end ∷ []),
      number-new r.start (omega arith),
      number-new r.end fits,
    )

    pub load_done_ranges-Loaded :
        (state : DownloadState) (rs : List ByteRange)
        → IsWellFormed state
        → Storable rs
        → (result : DownloadState) × (load_done_ranges realloc state (map range_pair rs)
            ≡ some result)
          × Loaded state rs result
    unfolding load_done_ranges covers
    load_done_ranges-Loaded state [] v s =
        (state, refl, record { valid = v; added = λ x. ground arith; frame = refl })
    load_done_ranges-Loaded state (r ∷ rs) v s =
        elim (Option-cases (download_state_mark_range_done realloc state r.start r.end)) [
          | inl failed ↦ absurd (
              omega (
                arith,
                (download_state_mark_range_done_fails realloc state r.start r.end given).0 failed,
                s.0.0,
              ))
          | inr (marked, e) ↦
              let fits : r.end + 1 < 2 ^ 64 = omega (arith, s.0.1) in
              let m =
                download_state_mark_range_done-Marked realloc state r.start r.end v s.0.0 (inr fits)
                  e in
              let (result, loaded, l) = load_done_ranges-Loaded marked rs m.valid s.1 in
              let size : marked.total_size ≡ state.total_size =
                ap (λ (x : DownloadState). x.total_size) m.frame in
              let pair = pair_of-range_pair r s.0.0 s.0.1 in
              (
                result,
                ground (arith, pair, e, loaded),
                record {
                  valid = l.valid;
                  added = λ x. ground (arith, l.added x, m.added x, size);
                  frame =
                      l.frame
                      ∙ ap
                          (λ (y : DownloadState). record y {
                            done_ranges = result.done_ranges;
                            done_range_capacity = result.done_range_capacity;
                          })
                          m.frame;
                },
              )
        ]
