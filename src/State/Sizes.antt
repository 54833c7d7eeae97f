-- ===== src/State/Sizes.antt =====
-- The byte count, the completion test, and what a new file size does to the completed bytes.
use native.Mathlib.Decide.{ℕ_discrete}
use mathlib.Core.Path.{subst}
use avar.Base.{
  Bool, Bool-cases, List, [], ap, arith, false, if◌then◌else◌, inl, inr, ltb, none, refl, some, suc,
  sym, true, zero, ℕ, ◌&&◌, ◌+◌, ◌-◌, ◌<◌, ◌==◌, ◌^◌, ◌↔◌, ◌∙◌, ◌∷◌, ◌≡◌, ◌≢◌, ◌≤◌,
}
use avar.State.Growth.{some_eq, none_ne_some}
use avar.Ranges.Lookup.{is_range_done_iff}
use avar.Ranges.{ByteRange, clip_ranges, sum_ranges, coalesce}
use avar.State.{
  DownloadState, download_state_all_chunks_done, download_state_bytes_done,
  download_state_init_chunks, clip_done_ranges, chunk_size_or_default,
}
use avar.State.Progress.{IsWellFormed, is_done}
use avar.Ranges.Extent.{count_below, EndsBelow, sum_ranges-count}
use avar.Ranges.Clipping.{EndsBelow-of_covers, IsGapped-IsSorted, clipped-normal, length_clipped}
use avar.Ranges

count_below-le : (n : ℕ) (p : ℕ → Bool) → count_below n p ≤ n
unfolding count_below
count_below-le zero p = omega arith
count_below-le (suc n) p = ground (arith, count_below-le n p)

count_below_full : (n : ℕ) (p : ℕ → Bool) → count_below n p ≡ n → (x : ℕ) → x < n → p x ≡ true
unfolding count_below
count_below_full zero p e x h = absurd (omega arith)
count_below_full (suc n) p e x h = elim (ℕ_discrete x n) [
  | yes top ↦ rw top (ground (arith, count_below-le n p))
  | no below ↦ count_below_full n p (ground (arith, count_below-le n p)) x (omega arith)
]

count_below_all : (n : ℕ) (p : ℕ → Bool) → ((x : ℕ) → x < n → p x ≡ true) → count_below n p ≡ n
unfolding count_below
count_below_all zero p h = refl
count_below_all (suc n) p h =
    rw (h n (omega arith)) (omega (arith, count_below_all n p (λ x l. h x (omega arith))))

bytes_done-sum :
    (state : DownloadState) (rs : List ByteRange)
    → state.done_ranges ≡ rs
    → rs ≢ []
    → download_state_bytes_done state ≡ Ranges.sum_ranges 0 rs
unfolding download_state_bytes_done
bytes_done-sum state [] e some_ = absurd (some_ refl)
bytes_done-sum state (r ∷ rs) e some_ = rw (e, download_state_bytes_done)

module _ {state : DownloadState} (v : IsWellFormed state) (sized : 0 < state.total_size) where
  ends : EndsBelow state.total_size state.done_ranges
  ends =
      EndsBelow-of_covers state.total_size 0 state.done_ranges v.gapped
        λ x le. ground (arith, v.in_size x)

  -- In a well-formed state of known size with at least one completed range,
  -- download_state_bytes_done, computed in wrapping 64-bit arithmetic, is the number of
  -- completed bytes of the file.
  pub bytes_done-count :
      state.done_ranges ≢ []
      → download_state_bytes_done state ≡ count_below state.total_size (is_done state)
  bytes_done-count some_ =
      let n = state.total_size in
      let p = is_done state in
      let fits : 0 + count_below n p < 2 ^ 64 = omega (arith, count_below-le n p, v.size_fits) in
      bytes_done-sum state state.done_ranges refl some_
      ∙ sum_ranges-count n 0 0 state.done_ranges v.gapped ends fits
      ∙ omega arith

  -- In a well-formed state of known size, download_state_all_chunks_done answers true exactly
  -- when every byte of the file is completed.
  pub all_chunks_done_iff :
      (download_state_all_chunks_done state ≡ true)
      ↔ ((x : ℕ) → x < state.total_size → is_done state x ≡ true)
  unfolding download_state_all_chunks_done
  all_chunks_done_iff =
      let decided =
        is_range_done_iff 0 state.done_ranges 0 (state.total_size - 1) v.gapped (omega arith) in
      let a : (state.total_size == 0) ≡ false = ground arith in
      let b : ltb (state.total_size - 1) 0 ≡ false = ground arith in
      rw (a, b)
        (
          λ h x lt. decided.0 h x (omega arith) (omega arith),
          λ all. decided.1 (λ x l u. all x (omega arith)),
        )

  -- In a well-formed state of known size with at least one completed range,
  -- download_state_all_chunks_done answers true exactly when download_state_bytes_done equals
  -- the size of the file.
  pub all_chunks_done-bytes_done :
      state.done_ranges ≢ []
      → (download_state_all_chunks_done state ≡ true)
        ↔ (download_state_bytes_done state ≡ state.total_size)
  all_chunks_done-bytes_done some_ = (
    λ h. bytes_done-count some_ ∙ count_below_all _ _ (all_chunks_done_iff.0 h),
    λ e. all_chunks_done_iff.1 (count_below_full _ _ (sym (bytes_done-count some_) ∙ e)),
  )

clip_done_ranges_at :
    (state : DownloadState) (rs : List ByteRange)
    → state.done_ranges ≡ rs
    → clip_done_ranges state
      ≡ record state { done_ranges = Ranges.coalesce (Ranges.clip_ranges state.total_size rs) }
unfolding clip_done_ranges
clip_done_ranges_at state [] e =
    rw (e, clip_done_ranges)
      (unfold Ranges.coalesce Ranges.clip_ranges in
        ap (λ (l : List ByteRange). record state { done_ranges = l }) e)
clip_done_ranges_at state (r ∷ rs) e = rw (e, clip_done_ranges)

pub clip_done_ranges_lem :
    (state : DownloadState)
    → clip_done_ranges state ≡ record state {
      done_ranges = Ranges.coalesce (Ranges.clip_ranges state.total_size state.done_ranges);
    }
clip_done_ranges_lem state = clip_done_ranges_at state state.done_ranges refl

abbrev resize : DownloadState → ℕ → ℕ → DownloadState
resize state total_size chunk_size = record state {
  total_size = total_size;
  chunk_size = chunk_size_or_default chunk_size;
}

abbrev resized : DownloadState → ℕ → ℕ → DownloadState
resized state n c = record (resize state n c) {
  done_ranges = Ranges.coalesce (Ranges.clip_ranges n state.done_ranges);
}

init_chunks_lem :
    (state : DownloadState) (n c : ℕ)
    → download_state_init_chunks state n c ≡ (if n == 0 then none else some (resized state n c))
unfolding download_state_init_chunks
init_chunks_lem state n c = rw (clip_done_ranges_lem (resize state n c))

init_chunks-resized :
    (state : DownloadState) (n c : ℕ) {result : DownloadState}
    → download_state_init_chunks state n c ≡ some result
    → ((n == 0) ≡ false) × (result ≡ resized state n c)
init_chunks-resized state n c e = elim (Bool-cases (n == 0)) [
  | inl zero_ ↦ absurd (none_ne_some (rw zero_ at (sym (init_chunks_lem state n c) ∙ e)))
  | inr pos ↦ (pos, some_eq (rw pos at (sym (init_chunks_lem state n c) ∙ e)))
]

-- The state fits the new size, and exactly the completed bytes in it are kept.
abbrev pub Resized : DownloadState → ℕ → DownloadState → Type 0
Resized state n result =
    IsWellFormed result
    × ((x : ℕ) → is_done result x ≡ (is_done state x && ltb x n))
    × (result.total_size ≡ n)
    × (0 < result.chunk_size)

resized-Resized :
    (state : DownloadState) (n c : ℕ)
    → IsWellFormed state
    → n < 2 ^ 64
    → (n == 0) ≡ false
    → Resized state n (resized state n c)
resized-Resized state n c v fits pos =
    let (normal, covered) =
      clipped-normal n state.done_ranges (IsGapped-IsSorted 0 state.done_ranges v.gapped) in
    (
      record {
        gapped = normal;
        in_size = λ x h. ground (arith, covered x);
        room = omega (arith, length_clipped n state.done_ranges, v.room);
        size_fits = fits;
      },
      λ x. ground (arith, covered x),
      refl,
      ground arith,
    )

-- A successful download_state_init_chunks on a well-formed state leaves a well-formed state of
-- the new size with a positive chunk size, in which exactly the formerly completed bytes below
-- the new size are completed; the new size fits 64 bits.
pub init_chunks-Resized :
    (state : DownloadState) (total_size chunk_size : ℕ) {result : DownloadState}
    → IsWellFormed state
    → total_size < 2 ^ 64
    → download_state_init_chunks state total_size chunk_size ≡ some result
    → Resized state total_size result
init_chunks-Resized state n c {result} v fits e =
    let (pos, same) = init_chunks-resized state n c e in
    subst (Resized state n) (sym same) (resized-Resized state n c v fits pos)
