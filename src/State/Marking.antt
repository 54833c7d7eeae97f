-- ===== src/State/Marking.antt =====
-- `download_state_mark_range_done` as a whole: its early returns, and when it fails.
use mathlib.Core.Path.{subst}
use avar.Base.{
  Bool, Bool-cases, Option, add64, arith, if◌then◌else◌, inl, inr, leb, length, ltb, mul64, none,
  refl, some, sym, true, ℕ, ◌&&◌, ◌+◌, ◌<◌, ◌==◌, ◌^◌, ◌||◌, ◌↔◌, ◌∙◌, ◌≡◌, ◌≢◌, ◌≤◌, ◌⊎◌,
}
use avar.Ranges.Lookup.{is_range_done_iff}
use avar.State.Growth.{some_eq}
use avar.Ranges.{is_range_done, lower_index, ByteRange, Merge}
use avar.State.{
  DownloadState, clamp_end, download_state_mark_range_done, store_merged, ensure_range_capacity,
  insert_sorted_range, grow,
}
use avar.State.Progress.{
  Marked, IsWellFormed, in_file, is_done, Stored-Marked, merge_of, store_merged-Stored,
}
use avar.Ranges

Marked-done :
    (state : DownloadState) (start end : ℕ)
    → IsWellFormed state
    → ((x : ℕ)
        → ((leb start x && leb x end) && in_file state.total_size x) ≡ true
        → is_done state x ≡ true)
    → Marked state start end state
Marked-done state start end v h = record {
  valid = v;
  added = λ x. ground (arith, h x);
  frame = refl;
}

-- Marking up to the last byte of the file is marking up to any later byte.
Marked-clamp :
    (state result : DownloadState) (start end : ℕ)
    → Marked state start (clamp_end state.total_size end) result
    → Marked state start end result
Marked-clamp state result start end m = record {
  valid = m.valid;
  added = λ x. m.added x ∙ same x;
  frame = m.frame;
}
  where
    same :
        (x : ℕ)
        → (is_done state x
            || (leb start x && leb x (clamp_end state.total_size end))
              && in_file state.total_size x)
          ≡ (is_done state x || (leb start x && leb x end) && in_file state.total_size x)
    same x = ground arith

module _ (realloc : ℕ → Bool) (state : DownloadState) (start end : ℕ) where
  abbrev last : ℕ
  last = clamp_end state.total_size end

  past : Bool
  past = ltb 0 state.total_size && leb state.total_size start

  -- What the call comes to when the interval begins in the file.
  mark_inside : Option DownloadState
  mark_inside =
      if Ranges.is_range_done state.done_ranges start last
      then some state
      else store_merged realloc state (lower_index state.done_ranges start)
          (merge_of state start last)

  mark_cases :
      start ≤ end
      → download_state_mark_range_done realloc state start end
        ≡ (if past then some state else mark_inside)
  unfolding download_state_mark_range_done past mark_inside
  mark_cases le = ground arith

  mark_inside-Marked :
      {result : DownloadState}
      → IsWellFormed state
      → start ≤ last
      → last + 1 < 2 ^ 64
      → (state.total_size ≡ 0) ⊎ (last < state.total_size)
      → mark_inside ≡ some result
      → Marked state start last result
  unfolding mark_inside
  mark_inside-Marked v le lt inside e =
      elim (Bool-cases (Ranges.is_range_done state.done_ranges start last)) [
        | inl done ↦ subst (Marked state start last) (sym (some_eq (rw done at e))) (
            Marked-done state start last v λ x h.
              (is_range_done_iff 0 state.done_ranges start last v.gapped le).0 done x (ground arith)
                (ground arith))
        | inr open_ ↦
            Stored-Marked state _ start last v le lt inside
              (store_merged-Stored realloc state start last v le lt (rw open_ at e))
      ]

-- A successful download_state_mark_range_done on a well-formed state (completed ranges sorted,
-- disjoint, not touching and inside the file; no more of them than the capacity; the size in
-- 64 bits) leaves a well-formed state in which a byte is completed exactly if it was completed
-- before or lies both in [start, end] and in the file; of the other fields only the capacity
-- may change. The interval is not inverted, and either the size is known or end is not
-- UINT64_MAX.
pub download_state_mark_range_done-Marked :
    (realloc : ℕ → Bool) (state : DownloadState) (start end : ℕ) {result : DownloadState}
    → IsWellFormed state
    → start ≤ end
    → (0 < state.total_size) ⊎ (end + 1 < 2 ^ 64)
    → download_state_mark_range_done realloc state start end ≡ some result
    → Marked state start end result
download_state_mark_range_done-Marked realloc state start end {result} v le fits e =
    elim (Bool-cases (past realloc state start end)) [
      | inl beyond ↦
          subst (Marked state start end) (sym (some_eq (rw beyond at call)))
            (Marked-done state start end v λ x h. unfold past in ground arith)
      | inr inside ↦ Marked-clamp state _ start end (
          mark_inside-Marked realloc state start end v (unfold past in ground arith)
            (unfold past in ground (arith, v.size_fits)) (unfold past in ground arith)
            (rw inside at call))
    ]
  where
    call :
        (if past realloc state start end then some state else mark_inside realloc state start end)
        ≡ some result
    call = sym (mark_cases realloc state start end le) ∙ e

room_for : DownloadState → ℕ → ℕ
room_for state needed =
    grow 64 (if state.done_range_capacity == 0 then 4 else mul64 state.done_range_capacity 2) needed

insert_sorted_range-ne-none :
    (realloc : ℕ → Bool) (state : DownloadState) (range : ByteRange)
    → ((n : ℕ) → realloc n ≡ true)
    → insert_sorted_range realloc state range ≢ none
unfolding insert_sorted_range ensure_range_capacity room_for
insert_sorted_range-ne-none realloc state range given =
    ground (arith, given (mul64 (room_for state (add64 (length state.done_ranges) 1)) 16))

store_merged-ne-none :
    (realloc : ℕ → Bool) (state : DownloadState) (lo : ℕ) (m : Merge)
    → ((n : ℕ) → realloc n ≡ true)
    → store_merged realloc state lo m ≢ none
unfolding store_merged
store_merged-ne-none realloc state lo m given =
    ground (arith, insert_sorted_range-ne-none realloc state m.merged given)

-- If every realloc succeeds, download_state_mark_range_done fails exactly on an interval with
-- end before start.
pub download_state_mark_range_done_fails :
    (realloc : ℕ → Bool) (state : DownloadState) (start end : ℕ)
    → ((n : ℕ) → realloc n ≡ true)
    → (download_state_mark_range_done realloc state start end ≡ none) ↔ (end < start)
unfolding download_state_mark_range_done
download_state_mark_range_done_fails realloc state start end given = ground (
  arith,
  store_merged-ne-none realloc state (lower_index state.done_ranges start)
      (merge_of state start (clamp_end state.total_size end)) given,
)
