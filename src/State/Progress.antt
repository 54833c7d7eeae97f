-- ===== src/State/Progress.antt =====
-- What the operations on `done_ranges` mean for the set of completed bytes of a download.
use avar.Base.{
  Bool, Bool-cases, List, Option-cases, add64, ap, arith, drop, inl, inr, leb, length, ltb, refl,
  some, sym, true, ℕ, ◌&&◌, ◌+◌, ◌<◌, ◌==◌, ◌^◌, ◌||◌, ◌∙◌, ◌≡◌, ◌≤◌, ◌⊎◌,
}
use avar.Ranges.Marking.{
  found-merged, mark_range-IsGapped, mark_range_inserted, mark_range_spliced, splice_shrinks,
  mark_range-covers,
}
use avar.State.Growth.{
  grown, Grown, ensure_range_capacity-Grown, length-insert_sorted, none_ne_some, some_eq,
  length-IsGapped,
}
use avar.State.{
  DownloadState, ensure_range_capacity, insert_sorted_range, insert_range, store_merged,
}
use avar.Ranges.{mark_range, insert_sorted, ByteRange, Merge, absorb, lower_index}
use avar.Ranges.Coverage.{covers, IsGapped}

-- The size is unknown, or `x` lies in the file.
abbrev pub in_file : ℕ → ℕ → Bool
in_file total_size x = total_size == 0 || ltb x total_size

-- A byte of the file that is durably on disk.
abbrev pub is_done : DownloadState → ℕ → Bool
is_done state x = covers state.done_ranges x

pub record IsWellFormed (state : DownloadState) : Type 0 where
  pub gapped : IsGapped 0 state.done_ranges
  pub in_size : (x : ℕ) → is_done state x ≡ true → in_file state.total_size x ≡ true
  pub room : length state.done_ranges ≤ state.done_range_capacity
  pub size_fits : state.total_size < 2 ^ 64

-- What a successful `download_state_mark_range_done` has done: exactly the bytes of the interval that
-- lie in the file are added, and no other field changes.
pub record Marked (state : DownloadState) (start end : ℕ) (result : DownloadState) : Type 0 where
  pub valid : IsWellFormed result
  pub added :
      (x : ℕ)
      → is_done result x
        ≡ (is_done state x || (leb start x && leb x end) && in_file state.total_size x)
  pub frame : result ≡ record state {
    done_ranges = result.done_ranges;
    done_range_capacity = result.done_range_capacity;
  }

-- The array is stored: it is that of `mark_range`, and fits.
pub data Stored (state : DownloadState) (start last : ℕ) (result : DownloadState) : Type 0 where
  stored :
      (cap : ℕ)
      → result ≡ record state {
        done_ranges = mark_range state.done_ranges start last;
        done_range_capacity = cap;
      }
      → length (mark_range state.done_ranges start last) ≤ cap
      → Stored state start last result

abbrev pub interval : ℕ → ℕ → ByteRange
interval start last = record { start = start; end = last }

Grown-Stored :
    (state g result : DownloadState) (start last : ℕ)
    → Grown state (length state.done_ranges + 1) g
    → insert_range (interval start last) g ≡ result
    → insert_sorted state.done_ranges (interval start last)
      ≡ mark_range state.done_ranges start last
    → Stored state start last result
unfolding insert_range
Grown-Stored state g result start last (grown n eq enough) r same =
    stored n
      (sym r
        ∙ ap (insert_range (interval start last)) eq
        ∙ ap (λ (l : List ByteRange). record state { done_ranges = l; done_range_capacity = n })
            same)
      (omega (
        arith,
        ap length same,
        length-insert_sorted state.done_ranges (interval start last),
        enough,
      ))

insert_sorted_range-Stored :
    (realloc : ℕ → Bool) (state : DownloadState) (start last : ℕ) {result : DownloadState}
    → length state.done_ranges + 1 ≤ 2 ^ 63
    → insert_sorted state.done_ranges (interval start last)
      ≡ mark_range state.done_ranges start last
    → insert_sorted_range realloc state (interval start last) ≡ some result
    → Stored state start last result
unfolding insert_sorted_range
insert_sorted_range-Stored realloc state start last b same e =
    let exact : add64 (length state.done_ranges) 1 ≡ length state.done_ranges + 1 = omega arith in
    elim (Option-cases (ensure_range_capacity realloc state (length state.done_ranges + 1))) [
      | inl failed ↦ absurd (none_ne_some (rw (exact, failed) at e))
      | inr (g, got) ↦
          Grown-Stored state g _ start last (ensure_range_capacity-Grown realloc state _ b got)
            (sym (some_eq (rw (exact, got) at e))) same
    ]

-- `lo` and the loop of `hi`, at `state`.
abbrev pub merge_of : DownloadState → ℕ → ℕ → Merge
merge_of state start last =
    let lo = lower_index state.done_ranges start in absorb (drop lo state.done_ranges) lo start last

pub store_merged-Stored :
    (realloc : ℕ → Bool) (state : DownloadState) (start last : ℕ) {result : DownloadState}
    → IsWellFormed state
    → start ≤ last
    → last + 1 < 2 ^ 64
    → store_merged realloc state (lower_index state.done_ranges start) (merge_of state start last)
      ≡ some result
    → Stored state start last result
unfolding store_merged
store_merged-Stored realloc state start last v le lt e =
    elim (Bool-cases (ltb (lower_index rs start) (merge_of state start last).hi)) [
      | inl merges ↦
          let same = mark_range_spliced rs start last merges in
          stored state.done_range_capacity
            (some_eq (rw merges at e)
              ∙ ap (λ (l : List ByteRange). record state { done_ranges = l }) (sym same))
            (omega (
              arith,
              ap length same,
              splice_shrinks rs start last (merge_of state start last) refl (ground arith),
              v.room,
            ))
      | inr inserts ↦
          let same = mark_range_inserted rs start last inserts in
          insert_sorted_range-Stored realloc state start last
            (omega (
              arith,
              length-IsGapped 0 _ (mark_range-IsGapped rs start last v.gapped le lt),
              ap length same,
              length-insert_sorted rs (interval start last),
            ))
            same (rw (inserts, found-merged rs start last inserts) at e)
    ]
  where
    rs : List ByteRange
    rs = state.done_ranges

pub Stored-Marked :
    (state result : DownloadState) (start last : ℕ)
    → IsWellFormed state
    → start ≤ last
    → last + 1 < 2 ^ 64
    → (state.total_size ≡ 0) ⊎ (last < state.total_size)
    → Stored state start last result
    → Marked state start last result
Stored-Marked state result start last v le lt inside (stored n eq fits) = record {
  valid = record {
    gapped = rw ranges (mark_range-IsGapped state.done_ranges start last v.gapped le lt);
    in_size = λ x h. rw size (covered_in_size x (sym (covered x) ∙ h));
    room =
        omega (arith, ap length ranges, ap (λ (r : DownloadState). r.done_range_capacity) eq, fits);
    size_fits = rw size v.size_fits;
  };
  added = λ x. covered x ∙ covered_clipped x;
  frame = ground arith;
}
  where
    ranges : result.done_ranges ≡ mark_range state.done_ranges start last
    ranges = ap (λ (r : DownloadState). r.done_ranges) eq

    size : result.total_size ≡ state.total_size
    size = ap (λ (r : DownloadState). r.total_size) eq

    covered : (x : ℕ) → is_done result x ≡ (leb start x && leb x last || covers state.done_ranges x)
    covered x = rw ranges (mark_range-covers state.done_ranges start last x v.gapped le lt)

    covered_clipped :
        (x : ℕ)
        → (leb start x && leb x last || covers state.done_ranges x)
          ≡ (is_done state x || (leb start x && leb x last) && in_file state.total_size x)
    covered_clipped x = ground (arith, v.in_size x)

    covered_in_size :
        (x : ℕ)
        → (leb start x && leb x last || covers state.done_ranges x) ≡ true
        → in_file state.total_size x ≡ true
    covered_in_size x h = ground (arith, v.in_size x)
