-- ===== src/Segment/Partition.antt =====
-- The segments cut the file into consecutive intervals: each byte is in exactly one of them.
use native.Mathlib.Decide.{ℕ_discrete, dec_lt}
use avar.Base.{
  add_sub_one64, arith, false, if◌then◌else◌, inl, inr, leb, ltb, mul64, mul64_exact, true, ℕ, ◌&&◌,
  ◌*◌, ◌+◌, ◌-◌, ◌/◌, ◌<◌, ◌==◌, ◌^◌, ◌↔◌, ◌≡◌, ◌≢◌, ◌≤◌, ◌⊎◌,
}
use avar.Segment.{segment_chunk_range}
use avar.Ranges.Coverage.{holds}
use avar.State.{DownloadState, chunk_size_or_default, download_state_segment_count}

abbrev pub chunk_of : DownloadState → ℕ
chunk_of state = chunk_size_or_default state.chunk_size

-- The size is known, and a segment after the last one still has 64-bit bounds.
pub record IsSized (state : DownloadState) : Type 0 where
  pub positive : 0 < state.total_size
  pub no_wrap : state.total_size + chunk_of state ≤ 2 ^ 64
  pub chunk_fits : chunk_of state < 2 ^ 64

pub chunk_positive : (state : DownloadState) → 0 < chunk_of state
chunk_positive state = ground arith

chunk_of_chunk : (state : DownloadState) → chunk_size_or_default (chunk_of state) ≡ chunk_of state
chunk_of_chunk state = ground arith

ceil_lower : (n c i : ℕ) → 0 < c → i < (n + c - 1) / c → i * c < n
ceil_lower n c i pos h = grind arith

ceil_upper : (n c i : ℕ) → 0 < c → i * c < n → i < (n + c - 1) / c
ceil_upper n c i pos h = grind arith

quotient_iff : (c i x : ℕ) → 0 < c → (i * c ≤ x) × (x < i * c + c) ↔ (x / c ≡ i)
quotient_iff c i x pos = (λ h. grind arith, λ h. (grind arith, grind arith))

quotient_ne : (c i x : ℕ) → 0 < c → x / c ≢ i → (x < i * c) ⊎ (i * c + c ≤ x)
quotient_ne c i x pos other = elim (dec_lt x (i * c)) [
  | yes before ↦ inl before
  | no from ↦ elim (dec_lt x (i * c + c)) [
    | yes inside ↦ absurd (other ((quotient_iff c i x pos).0 (omega arith, inside)))
    | no after ↦ inr (omega arith)
  ]
]

chunk_holds :
    (n c i x : ℕ)
    → 0 < c
    → i * c < n
    → x < n
    → (leb (i * c) x && leb x (if leb n (i * c + c - 1) then n - 1 else i * c + c - 1))
      ≡ (x / c == i)
chunk_holds n c i x pos h lt = elim (ℕ_discrete (x / c) i) [
  | yes same ↦ ground (arith, (quotient_iff c i x pos).1 same)
  | no other ↦ ground (arith, quotient_ne c i x pos other)
]

module _ (state : DownloadState) (v : IsSized state) where
  pub segment_count_lem :
      download_state_segment_count state ≡ (state.total_size + chunk_of state - 1) / chunk_of state
  unfolding download_state_segment_count
  segment_count_lem =
      let a : (state.total_size == 0) ≡ false = ground (arith, v.positive) in
      rw (a, add_sub_one64 state.total_size (chunk_of state) (chunk_positive state) v.no_wrap)

  -- Segment `i` exists exactly when its first byte is in the file.
  pub segment_exists_iff :
      (i : ℕ) → (i < download_state_segment_count state) ↔ (i * chunk_of state < state.total_size)
  segment_exists_iff i = rw segment_count_lem (
    ceil_lower state.total_size (chunk_of state) i (chunk_positive state),
    ceil_upper state.total_size (chunk_of state) i (chunk_positive state),
  )

  mul64_chunk :
      (i : ℕ)
      → i * chunk_of state < state.total_size
      → mul64 i (chunk_size_or_default (chunk_of state)) ≡ i * chunk_of state
  mul64_chunk i h =
      rw (chunk_of_chunk state) (mul64_exact i (chunk_of state) (omega (arith, v.no_wrap)))

  pub segment_start :
      (i : ℕ)
      → i * chunk_of state < state.total_size
      → (segment_chunk_range state i).start ≡ i * chunk_of state
  unfolding segment_chunk_range
  segment_start i h = mul64_chunk i h

  pub segment_end :
      (i : ℕ)
      → i * chunk_of state < state.total_size
      → (segment_chunk_range state i).end ≡ (
          if leb state.total_size (i * chunk_of state + chunk_of state - 1)
          then state.total_size - 1
          else i * chunk_of state + chunk_of state - 1)
  unfolding segment_chunk_range
  segment_end i h =
      let known : ltb 0 state.total_size ≡ true = ground (arith, v.positive) in
      rw (
        mul64_chunk i h,
        chunk_of_chunk state,
        add_sub_one64 (i * chunk_of state) (chunk_of state) (chunk_positive state)
            (omega (arith, v.no_wrap)),
        known,
      )

  -- What byte `x` being in segment `i` comes to.
  segment_holds :
      (i x : ℕ)
      → i * chunk_of state < state.total_size
      → x < state.total_size
      → holds (segment_chunk_range state i) x ≡ (x / chunk_of state == i)
  segment_holds i x h lt =
      rw (segment_start i h, segment_end i h)
        (chunk_holds state.total_size (chunk_of state) i x (chunk_positive state) h lt)

  -- For a file of known size (size plus chunk size at most 2^64), byte x lies in the segment
  -- number x / chunk size, which exists, and in no other existing segment.
  pub segment_partition :
      (x : ℕ)
      → x < state.total_size
      → (x / chunk_of state < download_state_segment_count state)
        × ((i : ℕ)
            → i < download_state_segment_count state
            → holds (segment_chunk_range state i) x ≡ (x / chunk_of state == i))
  segment_partition x lt = (
    (segment_exists_iff (x / chunk_of state)).1 (grind (arith, chunk_positive state)),
    λ i h. segment_holds i x ((segment_exists_iff i).0 h) lt,
  )
