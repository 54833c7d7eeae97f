-- ===== src/Download/Slots/Enough.antt =====
-- The fuel of the loop of `slot_prepare_write`.
use mathlib.Core.Bool.{false≢true}
use mathlib.Core.Path.{subst}
use avar.Base.{
  Bool, Bool-cases, List, ap, arith, false, if◌then◌else◌, inl, inr, leb, ltb, not, suc, sym, true,
  zero, ℕ, ◌&&◌, ◌+◌, ◌<◌, ◌^◌, ◌||◌, ◌∙◌, ◌≡◌, ◌≤◌,
}
use avar.Segment.Partition.{chunk_of}
use avar.Segment.{segment_next_reserve_end}
use avar.State.{DownloadState}
use avar.Download.Slots.{available, ChunkSlot, extend_for, slot_try_extend_reservation}
use avar.Download.Slots.Inside.{others, IsReserved, try_extend-Extended}

at_end : (a b : Bool) → (a && b) ≡ true → b ≡ true
at_end true b h = h
at_end false b h = ground (arith, h)

beyond : (c : Bool) (e n : ℕ) → (not c || leb e n) ≡ false → n < e
beyond true e n h = ground arith
beyond false e n h = absurd (ground (arith, h))

module _ (state : DownloadState) (slots : List ChunkSlot) (i : ℕ)
    (fits : state.total_size + chunk_of state ≤ 2 ^ 64) where
  -- An extension moves the reservation forward.
  try_extend-further :
      (slot : ChunkSlot)
      → (slot_try_extend_reservation state slots i slot).0 ≡ true
      → slot.reserved_end < (slot_try_extend_reservation state slots i slot).1.reserved_end
  unfolding slot_try_extend_reservation
  try_extend-further slot h =
      let e = segment_next_reserve_end state (others state slots i) slot.reserved_end in
      let after = record slot { reserved_end = e; range_end = e } in
      let pick : Bool → Bool × ChunkSlot = λ b. if b then (false, slot) else (true, after) in
      elim (Bool-cases (not slot.continuous || leb e slot.reserved_end)) [
        | inl stuck ↦ absurd (false≢true (sym (ap (λ b. (pick b).0) stuck) ∙ h))
        | inr more ↦
            subst (λ n. slot.reserved_end < n) (sym (ap (λ b. (pick b).1.reserved_end) more))
              (beyond slot.continuous e slot.reserved_end more)
      ]

  -- On a slot whose reservation is in the file and apart from those of the other slots, the
  -- loop of slot_prepare_write stops by its own condition, not for want of fuel, where the
  -- fuel reaches from the end of the reservation to the end of the file, as the size of the
  -- file does. The size with a chunk does not wrap.
  pub extend_for_enough :
      (fuel pos len : ℕ) (slot : ChunkSlot)
      → IsReserved state slots i slot
      → state.total_size ≤ slot.reserved_end + fuel
      → let r = extend_for fuel state slots i pos len slot in
        (ltb (available r pos) len && (slot_try_extend_reservation state slots i r).0) ≡ false
  unfolding extend_for
  extend_for_enough zero pos len slot v enough = absurd (omega (arith, v.in_file, enough))
  extend_for_enough (suc fuel) pos len slot v enough =
      let tried = slot_try_extend_reservation state slots i slot in
      let rest = extend_for fuel state slots i pos len tried.1 in
      let stops : ChunkSlot → Type 0 = λ r.
        (ltb (available r pos) len && (slot_try_extend_reservation state slots i r).0) ≡ false in
      elim (Bool-cases (ltb (available slot pos) len && tried.0)) [
        | inl more ↦
            let first = try_extend-Extended state slots i fits slot v in
            let further =
              try_extend-further slot (at_end (ltb (available slot pos) len) tried.0 more) in
            subst stops (sym (ap (λ b. if b then rest else slot) more)) (
              extend_for_enough fuel pos len tried.1 first.reserved
                (omega (arith, further, enough)))
        | inr full ↦ subst stops (sym (ap (λ b. if b then rest else slot) full)) full
      ]
