-- ===== src/Segment/Choice.antt =====
-- `segment_select_left_heavy` and the second loop of `segment_select_balanced` reach every segment.

use mathlib.Core.Path.{subst}
use native.Mathlib.Decide.{dec_lt}
use avar.Base.{
  All, All-append, Bool-cases, List, [], arith, false, if◌then◌else◌, inl, inr, length,
  length-append, ltb, ltb→lt, not, refl, suc, true, zero, ℕ, ◌&&◌, ◌++◌, ◌+◌, ◌<◌, ◌∙◌, ◌∷◌, ◌≡◌,
  ◌≤◌,
}
use avar.Ranges.{ByteRange}
use avar.State.{DownloadState, download_state_segment_count}
use avar.Segment.{Predicate, range_selected, segment_chunk_range, fill_one, fill_loop}
use avar.Segment.Selection.{
  IsCandidate, IsSelection, NoRepeat, NoRepeat-concat, is_eligible, range_selected-append,
  range_selected_last,
}

module _ (state : DownloadState) (predicate : Predicate) (max_count : ℕ) where
  -- A selection under way.
  pub record IsPartial (out : List ByteRange) : Type 0 where
    pub candidates : All (IsCandidate state predicate) out
    pub no_repeat : NoRepeat out
    pub bounded : length out ≤ max_count

  -- Segment `i` is selected already, or may not be.
  abbrev pub Settled : List ByteRange → ℕ → Type 0
  Settled out i =
      is_eligible state predicate i ≡ true
      → range_selected out (segment_chunk_range state i).start (segment_chunk_range state i).end
        ≡ true

  abbrev pub take_if : ℕ → List ByteRange → List ByteRange
  take_if i out =
      if is_eligible state predicate i then out ++ segment_chunk_range state i ∷ [] else out

  pub IsPartial-concat :
      (i : ℕ) (out : List ByteRange)
      → IsPartial out
      → i < download_state_segment_count state
      → is_eligible state predicate i ≡ true
      → range_selected out (segment_chunk_range state i).start (segment_chunk_range state i).end
        ≡ false
      → length out < max_count
      → IsPartial (out ++ segment_chunk_range state i ∷ [])
  IsPartial-concat i out p lt ok_ fresh room = record {
    candidates =
        All-append (IsCandidate state predicate) out (segment_chunk_range state i ∷ []) p.candidates
          ((i, lt, ok_, refl), tt);
    no_repeat = NoRepeat-concat out (segment_chunk_range state i) p.no_repeat fresh;
    bounded = omega (arith, length-append out (segment_chunk_range state i ∷ []), room);
  }

  -- What is selected stays selected.
  pub Settled-concat :
      (out : List ByteRange) (r : ByteRange) (j : ℕ) → Settled out j → Settled (out ++ r ∷ []) j
  Settled-concat out r j s e = range_selected-append out (r ∷ []) _ _ ∙ ground (arith, s e)

  pub IsPartial-full :
      (out : List ByteRange)
      → IsPartial out
      → ltb (length out) max_count ≡ false
      → IsSelection state predicate max_count out
  IsPartial-full out p full = record {
    candidates = p.candidates;
    no_repeat = p.no_repeat;
    bounded = p.bounded;
    complete = λ lt. absurd (ground arith);
  }

  pub IsPartial-Settled :
      (out : List ByteRange)
      → IsPartial out
      → ((i : ℕ) → i < download_state_segment_count state → Settled out i)
      → IsSelection state predicate max_count out
  IsPartial-Settled out p all = record {
    candidates = p.candidates;
    no_repeat = p.no_repeat;
    bounded = p.bounded;
    complete = λ _. all;
  }

  pub IsPartial-nil : IsPartial []
  IsPartial-nil = record { candidates = tt; no_repeat = tt; bounded = omega arith }

  -- One round of the second loop, which checks against what is selected already.
  fill_one_lem :
      (i : ℕ) (out : List ByteRange)
      → fill_one state predicate max_count i out ≡ (
          if is_eligible state predicate i
            && not (
                range_selected out
                  (segment_chunk_range state i).start
                  (segment_chunk_range state i).end)
          then out ++ segment_chunk_range state i ∷ []
          else out)
  unfolding fill_one
  fill_one_lem i out = ground arith

  fill_one-keeps :
      (i : ℕ) (out : List ByteRange)
      → IsPartial out
      → i < download_state_segment_count state
      → length out < max_count
      → IsPartial (fill_one state predicate max_count i out)
        × Settled (fill_one state predicate max_count i out) i
        × ((j : ℕ) → Settled out j → Settled (fill_one state predicate max_count i out) j)
  fill_one-keeps i out p lt room =
      let r = segment_chunk_range state i in
      rw (fill_one_lem i out) (elim (Bool-cases (is_eligible state predicate i)) [
        | inl ok_ ↦ elim (Bool-cases (range_selected out r.start r.end)) [
          | inl old ↦ rw (ok_, old) (p, λ _. old, λ j s. s)
          | inr fresh ↦
              rw (ok_, fresh)
                (
                  IsPartial-concat i out p lt ok_ fresh room,
                  λ _. range_selected_last out r,
                  λ j. Settled-concat out r j,
                )
        ]
        | inr out_ ↦ rw out_ (p, λ e. cc, λ j s. s)
      ])

  pub settle_next :
      (i : ℕ) (out out' : List ByteRange)
      → Settled out' i
      → ((j : ℕ) → Settled out j → Settled out' j)
      → ((j : ℕ) → j < i → Settled out j)
      → (j : ℕ) → j < i + 1
      → Settled out' j
  settle_next i out out' here_ keep s j lt = elim (dec_lt j i) [
    | yes below ↦ keep j (s j below)
    | no top ↦ let same : i ≡ j = omega arith in subst (Settled out') same here_
  ]

  -- The second loop ends with every segment settled, or with as many ranges as asked for.
  pub fill_loop-IsSelection :
      (rounds i : ℕ) (out : List ByteRange)
      → i + rounds ≡ download_state_segment_count state
      → IsPartial out
      → ((j : ℕ) → j < i → Settled out j)
      → IsSelection state predicate max_count (fill_loop state predicate max_count rounds i out)
  unfolding fill_loop
  fill_loop-IsSelection zero i out e p s = IsPartial-Settled out p (λ j lt. s j (omega arith))
  fill_loop-IsSelection (suc rounds) i out e p s = elim (Bool-cases (ltb (length out) max_count)) [
    | inl room ↦
        let (p', here_, keep) = fill_one-keeps i out p (omega arith) (ltb→lt _ _ room) in
        rw room (
          fill_loop-IsSelection rounds (i + 1) _ (omega arith) p'
            (settle_next i out _ here_ keep s))
    | inr full ↦ rw full (IsPartial-full out p full)
  ]
