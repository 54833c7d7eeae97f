-- ===== src/Segment/Spread.antt =====
-- The loop of `segment_select_left_heavy` and the buckets of `segment_select_balanced` keep a selection.
use mathlib.Core.Option.{get_or}
use native.Mathlib.Decide.{dec_lt}
use avar.Base.{
  All, All-append, Bool-cases, List, [], add64, arith, false, if◌then◌else◌, inl, inr, length, ltb,
  ltb→lt, mul64, mul64_exact, none, some, suc, zero, ℕ, ◌*◌, ◌++◌, ◌+◌, ◌-◌, ◌<◌, ◌^◌, ◌∙◌, ◌∷◌,
  ◌≡◌, ◌≤◌,
}
use avar.Ranges.{ByteRange}
use avar.State.{DownloadState, download_state_segment_count}
use avar.Segment.{
  Predicate, segment_chunk_range, left_heavy_loop, range_selected, try_select_segment, bucket_loop,
  bucket_pick,
}
use avar.Segment.Partition.{IsSized, chunk_of, chunk_positive, segment_exists_iff, segment_start}
use avar.Segment.Selection.{
  IsSelection, All-weaken, is_eligible, range_selected_behind, range_selected_last,
  try_select_segment_lem,
}
use avar.Segment.Choice.{
  IsPartial, Settled, take_if, IsPartial-concat, IsPartial-full, IsPartial-Settled, Settled-concat,
  settle_next,
}

module _ (state : DownloadState) (v : IsSized state) (predicate : Predicate) (max_count : ℕ) where
  abbrev pub count : ℕ
  count = download_state_segment_count state

  -- Every selected range starts before segment `i`.
  abbrev pub Before : ℕ → List ByteRange → Type 0
  Before i out = All (λ r. r.start < i * chunk_of state) out

  pub Before-mono : (i j : ℕ) (out : List ByteRange) → i ≤ j → Before i out → Before j out
  Before-mono i j out h b = All-weaken out (i * chunk_of state) (j * chunk_of state) (grind arith) b

  start_of : (i : ℕ) → i < count → (segment_chunk_range state i).start ≡ i * chunk_of state
  start_of i lt = segment_start state v i ((segment_exists_iff state v i).0 lt)

  fresh_of :
      (i : ℕ) (out : List ByteRange)
      → i < count
      → Before i out
      → range_selected out (segment_chunk_range state i).start (segment_chunk_range state i).end
        ≡ false
  fresh_of i out lt b = range_selected_behind out _ _ (rw (start_of i lt) b)

  Before-concat :
      (i : ℕ) (out : List ByteRange)
      → i < count
      → Before i out
      → Before (i + 1) (out ++ segment_chunk_range state i ∷ [])
  Before-concat i out lt b =
      All-append (λ (r : ByteRange). r.start < (i + 1) * chunk_of state) out
        (segment_chunk_range state i ∷ []) (Before-mono i (i + 1) out (omega arith) b)
        (grind (arith, start_of i lt, chunk_positive state), tt)

  take_if-keeps :
      (i : ℕ) (out : List ByteRange)
      → IsPartial state predicate max_count out
      → i < count
      → length out < max_count
      → Before i out
      → IsPartial state predicate max_count (take_if state predicate max_count i out)
        × Before (i + 1) (take_if state predicate max_count i out)
        × Settled state predicate max_count (take_if state predicate max_count i out) i
        × ((j : ℕ)
            → Settled state predicate max_count out j
            → Settled state predicate max_count (take_if state predicate max_count i out) j)
  take_if-keeps i out p lt room b =
      let r = segment_chunk_range state i in
      elim (Bool-cases (is_eligible state predicate i)) [
        | inl ok_ ↦ rw ok_ (
          IsPartial-concat state predicate max_count i out p lt ok_ (fresh_of i out lt b) room,
          Before-concat i out lt b,
          λ _. range_selected_last out r,
          λ j. Settled-concat state predicate max_count out r j,
        )
        | inr out_ ↦ rw out_ (p, Before-mono i (i + 1) out (omega arith) b, λ e. cc, λ j s. s)
      ]

  try_or_keep :
      (i : ℕ) (out : List ByteRange)
      → get_or (try_select_segment state i predicate out) out
        ≡ take_if state predicate max_count i out
  try_or_keep i out = rw (try_select_segment_lem state i predicate out) (ground arith)

  pub left_heavy_loop-IsSelection :
      (rounds i : ℕ) (out : List ByteRange)
      → i + rounds ≡ count
      → IsPartial state predicate max_count out
      → Before i out
      → ((j : ℕ) → j < i → Settled state predicate max_count out j)
      → IsSelection state predicate max_count
          (left_heavy_loop state predicate max_count rounds i out)
  unfolding left_heavy_loop
  left_heavy_loop-IsSelection zero i out e p b s =
      IsPartial-Settled state predicate max_count out p (λ j lt. s j (omega arith))
  left_heavy_loop-IsSelection (suc rounds) i out e p b s =
      elim (Bool-cases (ltb (length out) max_count)) [
        | inl room ↦
            let (p', b', here_, keep) = take_if-keeps i out p (omega arith) (ltb→lt _ _ room) b in
            rw (room, try_or_keep i out)
              (left_heavy_loop-IsSelection rounds (i + 1) _ (omega arith) p' b'
                (settle_next state predicate max_count i out _ here_ keep s))
        | inr full ↦ rw full (IsPartial-full state predicate max_count out p full)
      ]

  bucket_pick-suc :
      (rounds idx : ℕ) (out : List ByteRange)
      → bucket_pick state predicate max_count (suc rounds) idx out ≡ (
          if is_eligible state predicate idx
          then out ++ segment_chunk_range state idx ∷ []
          else bucket_pick state predicate max_count rounds (idx + 1) out)
  unfolding bucket_pick
  bucket_pick-suc rounds idx out = elim (Bool-cases (is_eligible state predicate idx)) [
    | inl ok_ ↦
        let got : try_select_segment state idx predicate out
            ≡ some (out ++ segment_chunk_range state idx ∷ []) =
          try_select_segment_lem state idx predicate out ∙ rw ok_ in
        rw (got, bucket_pick, ok_)
    | inr out_ ↦
        let got : try_select_segment state idx predicate out ≡ none =
          try_select_segment_lem state idx predicate out ∙ rw out_ in
        rw (got, bucket_pick, out_)
  ]

  bucket_pick-keeps :
      (rounds idx : ℕ) (out : List ByteRange)
      → idx + rounds ≤ count
      → IsPartial state predicate max_count out
      → length out < max_count
      → Before idx out
      → IsPartial state predicate max_count (bucket_pick state predicate max_count rounds idx out)
        × Before (idx + rounds) (bucket_pick state predicate max_count rounds idx out)
  bucket_pick-keeps zero idx out h p room b =
      unfold bucket_pick in (p, Before-mono idx (idx + 0) out (omega arith) b)
  bucket_pick-keeps (suc rounds) idx out h p room b =
      let r = segment_chunk_range state idx in
      elim (Bool-cases (is_eligible state predicate idx)) [
        | inl ok_ ↦
            let taken = out ++ r ∷ [] in
            rw (bucket_pick-suc rounds idx out, ok_)
              (
                IsPartial-concat state predicate max_count idx out p (omega arith) ok_
                    (fresh_of idx out (omega arith) b) room,
                Before-mono (idx + 1) (idx + suc rounds) taken (omega arith)
                    (Before-concat idx out (omega arith) b),
              )
        | inr out_ ↦
            let (p', b') =
              bucket_pick-keeps rounds (idx + 1) out (omega arith) p room
                (Before-mono idx (idx + 1) out (omega arith) b) in
            rw (bucket_pick-suc rounds idx out, out_)
              (p', Before-mono (idx + 1 + rounds) (idx + suc rounds) _ (omega arith) b')
      ]

  -- Where the bucket lies behind the last segment it is empty.
  abbrev bucket_end : ℕ → ℕ → ℕ
  bucket_end bucket_size start =
      let reach = add64 start bucket_size in if ltb reach count then reach else count

  -- One bucket keeps the selection, and what it adds starts before the next bucket.
  bucket_picked :
      (size bucket : ℕ) (out : List ByteRange)
      → add64 (bucket * size) size ≡ (bucket + 1) * size
      → IsPartial state predicate max_count out
      → length out < max_count
      → Before (bucket * size) out
      → let picked =
          bucket_pick state predicate max_count
            (bucket_end size (bucket * size) - bucket * size)
            (bucket * size)
            out in
        IsPartial state predicate max_count picked × Before ((bucket + 1) * size) picked
  bucket_picked size bucket out reach p room b = elim (dec_lt count (bucket * size)) [
    | yes behind ↦
        let empty : bucket_end size (bucket * size) - bucket * size ≡ 0 = ground arith in
        rw empty (
          unfold bucket_pick in
          (p, Before-mono (bucket * size) ((bucket + 1) * size) out (grind arith) b))
    | no inside ↦
        let (p', b') =
          bucket_pick-keeps (bucket_end size (bucket * size) - bucket * size) (bucket * size) out
            (ground (arith, reach)) p room b in
        (p', Before-mono _ ((bucket + 1) * size) _ (ground (arith, reach)) b')
  ]

  pub bucket_loop-IsPartial :
      (bucket_size rounds bucket : ℕ) (out : List ByteRange)
      → (bucket + rounds) * bucket_size < 2 ^ 64
      → IsPartial state predicate max_count out
      → Before (bucket * bucket_size) out
      → IsPartial state predicate max_count
          (bucket_loop state predicate max_count count bucket_size rounds bucket out)
  unfolding bucket_loop
  bucket_loop-IsPartial size zero bucket out h p b = p
  bucket_loop-IsPartial size (suc rounds) bucket out h p b =
      let start : mul64 bucket size ≡ bucket * size = mul64_exact bucket size (grind arith) in
      let reach : add64 (bucket * size) size ≡ (bucket + 1) * size = grind arith in
      elim (Bool-cases (ltb (length out) max_count)) [
        | inl room ↦
            rw (room, start)
              (let (p', b') = bucket_picked size bucket out reach p (ltb→lt _ _ room) b in
                bucket_loop-IsPartial size rounds (bucket + 1) _ (grind arith) p' b')
        | inr full ↦ rw full p
      ]
