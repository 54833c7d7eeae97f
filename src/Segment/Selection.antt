-- ===== src/Segment/Selection.antt =====
-- What a selection is: candidates only, none twice, at most as many as asked for, and all of them
-- where fewer are returned.
use avar.Base.{
  All, Bool, List, [], arith, false, if◌then◌else◌, length, none, not, refl, some, true, ℕ, ◌&&◌,
  ◌++◌, ◌<◌, ◌||◌, ◌∙◌, ◌∷◌, ◌≡◌, ◌≤◌,
}
use avar.Ranges.{ByteRange}
use avar.State.{DownloadState, download_state_is_segment_done, download_state_segment_count}
use avar.Segment.{Predicate, range_selected, segment_chunk_range, admits, try_select_segment}

-- The segment may be fetched: it is not done, and the predicate admits it.
abbrev pub is_eligible : DownloadState → Predicate → ℕ → Bool
is_eligible state predicate i =
    not (download_state_is_segment_done state i) && admits predicate (segment_chunk_range state i)

-- The range is that of an eligible segment of the file.
abbrev pub IsCandidate : DownloadState → Predicate → ByteRange → Type 0
IsCandidate state predicate r =
    (i : ℕ) × (i < download_state_segment_count state)
    × (is_eligible state predicate i ≡ true)
    × (r ≡ segment_chunk_range state i)

-- No range stands in the list twice.
abbrev pub NoRepeat : List ByteRange → Type 0
NoRepeat [] = Unit {0}
NoRepeat (r ∷ rs) = (range_selected rs r.start r.end ≡ false) × NoRepeat rs

pub record IsSelection (state : DownloadState) (predicate : Predicate) (max_count : ℕ)
    (out : List ByteRange) : Type 0 where
  pub candidates : All (IsCandidate state predicate) out
  pub no_repeat : NoRepeat out
  pub bounded : length out ≤ max_count
  pub complete :
      length out < max_count
      → (i : ℕ) → i < download_state_segment_count state
      → is_eligible state predicate i ≡ true
      → range_selected out (segment_chunk_range state i).start (segment_chunk_range state i).end
        ≡ true

pub range_selected-append :
    (xs ys : List ByteRange) (start end : ℕ)
    → range_selected (xs ++ ys) start end
      ≡ (range_selected xs start end || range_selected ys start end)
unfolding range_selected
range_selected-append [] ys start end = refl
range_selected-append (x ∷ xs) ys start end = ground (arith, range_selected-append xs ys start end)

pub range_selected_last :
    (xs : List ByteRange) (r : ByteRange) → range_selected (xs ++ r ∷ []) r.start r.end ≡ true
range_selected_last xs r =
    range_selected-append xs (r ∷ []) r.start r.end ∙ unfold range_selected in ground arith

pub NoRepeat-concat :
    (xs : List ByteRange) (r : ByteRange)
    → NoRepeat xs
    → range_selected xs r.start r.end ≡ false
    → NoRepeat (xs ++ r ∷ [])
unfolding range_selected
NoRepeat-concat [] r n h = (refl, tt)
NoRepeat-concat (x ∷ xs) r n h =
    ground (arith, range_selected-append xs (r ∷ []) x.start x.end, NoRepeat-concat xs r n.1)

-- A range that starts behind all of them is not among them.
pub range_selected_behind :
    (xs : List ByteRange) (start end : ℕ)
    → All (λ x. x.start < start) xs
    → range_selected xs start end ≡ false
unfolding range_selected
range_selected_behind [] start end h = refl
range_selected_behind (x ∷ xs) start end h = ground (arith, range_selected_behind xs start end h.1)

pub All-weaken :
    (xs : List ByteRange) (m n : ℕ) → m ≤ n → All (λ x. x.start < m) xs → All (λ x. x.start < n) xs
All-weaken [] m n h a = tt
All-weaken (x ∷ xs) m n h a = (omega arith, All-weaken xs m n h a.1)

-- `try_select_segment` adds the segment exactly when it is eligible.
pub try_select_segment_lem :
    (state : DownloadState) (i : ℕ) (predicate : Predicate) (out : List ByteRange)
    → try_select_segment state i predicate out ≡ (
        if is_eligible state predicate i
        then some (out ++ segment_chunk_range state i ∷ [])
        else none)
unfolding try_select_segment
try_select_segment_lem state i predicate out = ground arith
