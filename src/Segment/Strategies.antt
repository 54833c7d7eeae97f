-- ===== src/Segment/Strategies.antt =====
-- `segment_select_left_heavy`, `segment_select_balanced` and `segment_select_chunks` return selections.
use avar.Base.{
  Bool-cases, [], add64, add_sub_one64, arith, false, if◌then◌else◌, inl, inr, length, ltb, refl,
  sub64, true, ℕ, ◌*◌, ◌+◌, ◌-◌, ◌/◌, ◌<◌, ◌==◌, ◌^◌, ◌≡◌, ◌≤◌,
}
use avar.Segment.Spread.{left_heavy_loop-IsSelection, bucket_loop-IsPartial}
use avar.State.{DownloadState, download_state_segment_count}
use avar.Segment.{
  Predicate, DownloadSegmentConfig, balanced, left_heavy, SegmentStrategy, segment_select_balanced,
  segment_select_chunks, segment_select_left_heavy, bucket_loop,
}
use avar.Segment.Partition.{
  IsSized, segment_exists_iff, chunk_of, chunk_positive, segment_count_lem,
}
use avar.Segment.Selection.{IsSelection}
use avar.Segment.Choice.{IsPartial-nil, IsPartial-full, fill_loop-IsSelection}

ceil_le : (n c : ℕ) → 0 < n → 0 < c → (n + c - 1) / c ≤ n
ceil_le n c h pos = grind arith

mul-div-le : (a b : ℕ) → b * (a / b) ≤ a
mul-div-le a b = grind arith

module _ (state : DownloadState) (v : IsSized state) (predicate : Predicate) (max_count : ℕ) where
  IsSelection-none : (max_count == 0) ≡ true → IsSelection state predicate max_count []
  IsSelection-none none_ = record {
    candidates = tt;
    no_repeat = tt;
    bounded = omega arith;
    complete = λ lt. absurd (ground arith);
  }

  -- The left-heavy choice is a selection.
  pub left_heavy-IsSelection :
      IsSelection state predicate max_count (segment_select_left_heavy state max_count predicate)
  unfolding segment_select_left_heavy
  left_heavy-IsSelection = elim (Bool-cases (max_count == 0)) [
    | inl none_ ↦ rw none_ (IsSelection-none none_)
    | inr some_ ↦
        let sized : (state.total_size == 0) ≡ false = ground (arith, v.positive) in
        rw (some_, sized)
          (left_heavy_loop-IsSelection state v predicate max_count _ 0 [] (omega arith)
            (IsPartial-nil state predicate max_count) tt (λ j lt. absurd (omega arith)))
  ]

  -- `bucket_count` and `bucket_size` of the code.
  abbrev bucket_count : ℕ → ℕ
  bucket_count concurrency =
      let n = download_state_segment_count state in if ltb concurrency n then concurrency else n

  abbrev bucket_size : ℕ → ℕ
  bucket_size concurrency =
      let n = download_state_segment_count state in
      sub64 (add64 n (bucket_count concurrency)) 1 / bucket_count concurrency

  segment_count_bounds :
      (0 < download_state_segment_count state)
      × (download_state_segment_count state ≤ state.total_size)
  segment_count_bounds = (
    (segment_exists_iff state v 0).1 (omega (arith, v.positive)),
    rw (segment_count_lem state v)
        (ceil_le state.total_size (chunk_of state) v.positive (chunk_positive state)),
  )

  buckets_fit :
      (concurrency : ℕ)
      → 0 < concurrency
      → state.total_size ≤ 2 ^ 63
      → (0 + bucket_count concurrency) * bucket_size concurrency < 2 ^ 64
  buckets_fit concurrency pos fits =
      let n = download_state_segment_count state in
      let b = bucket_count concurrency in
      let (some_, few) = segment_count_bounds in
      let positive : 0 < b = ground (arith, some_) in
      let small : b ≤ n = ground (arith, some_) in
      rw (add_sub_one64 n b positive (omega (arith, few, small)))
        (omega (arith, mul-div-le (n + b - 1) b, few, small))

  -- The balanced choice is a selection, at any positive concurrency.
  pub balanced-IsSelection :
      (concurrency : ℕ)
      → 0 < concurrency
      → state.total_size ≤ 2 ^ 63
      → IsSelection state predicate max_count
          (segment_select_balanced state concurrency max_count predicate)
  unfolding segment_select_balanced
  balanced-IsSelection concurrency pos fits = elim (Bool-cases (max_count == 0)) [
    | inl none_ ↦ rw none_ (IsSelection-none none_)
    | inr some_ ↦
        let a : (state.total_size == 0) ≡ false = ground (arith, v.positive) in
        let b : (concurrency == 0) ≡ false = ground arith in
        let c : (download_state_segment_count state == 0) ≡ false =
          ground (arith, segment_count_bounds) in
        let n = download_state_segment_count state in
        let spread =
          bucket_loop state predicate max_count n (bucket_size concurrency)
            (bucket_count concurrency) 0 [] in
        let p =
          bucket_loop-IsPartial state v predicate max_count (bucket_size concurrency)
            (bucket_count concurrency) 0 [] (buckets_fit concurrency pos fits)
            (IsPartial-nil state predicate max_count) tt in
        rw (some_, a, b, c)
          (elim (Bool-cases (ltb (length spread) max_count)) [
            | inl room ↦ rw room (
                fill_loop-IsSelection state predicate max_count n 0 spread (omega arith) p
                  (λ j lt. absurd (omega arith)))
            | inr full ↦ rw full (IsPartial-full state predicate max_count spread p full)
          ])
  ]

-- For a file of known size of at most 2^63 bytes, which with the bytes of one chunk is at most
-- 2^64, a chunk size below 2^64 and a positive concurrency, segment_select_chunks, under
-- either strategy, returns only segments that exist, are not done and pass the predicate, none
-- of them twice and at most max_count of them; if it returns fewer than max_count, every
-- segment that may be fetched is among them.
pub segment_select_chunks-IsSelection :
    (cfg : DownloadSegmentConfig) (state : DownloadState) (max_count : ℕ) (predicate : Predicate)
    → IsSized state
    → 0 < cfg.concurrency
    → state.total_size ≤ 2 ^ 63
    → IsSelection state predicate max_count (segment_select_chunks cfg state max_count predicate)
segment_select_chunks-IsSelection cfg state max_count predicate v pos fits =
    chosen cfg.strategy refl
  where
    chosen :
        (s : SegmentStrategy)
        → cfg.strategy ≡ s
        → IsSelection state predicate max_count
            (segment_select_chunks cfg state max_count predicate)
    chosen left_heavy e =
        unfold segment_select_chunks in
        rw (e, segment_select_chunks) (left_heavy-IsSelection state v predicate max_count)
    chosen balanced e =
        unfold segment_select_chunks in
        rw (e, segment_select_chunks)
          (balanced-IsSelection state v predicate max_count cfg.concurrency pos fits)
