-- ===== src/Download/Slots/Inside.antt =====
-- Where `slot_write_body` writes.
use mathlib.Core.Path.{subst}
use avar.Base.{
  Bool, Bool-cases, List, add64, ap, arith, false, if◌then◌else◌, inl, inr, leb, leb→le, ltb, not,
  refl, sub64, suc, sym, true, uint64_max, zero, ℕ, ◌&&◌, ◌+◌, ◌<◌, ◌==◌, ◌^◌, ◌||◌, ◌∙◌, ◌≡◌, ◌≤◌,
}
use avar.Segment.{segment_next_reserve_end}
use avar.Segment.Partition.{chunk_of}
use avar.Ranges.{ByteRange}
use avar.Ranges.Coverage.{covers}
use avar.State.{DownloadState}
use avar.Segment.Reserve.{Extension, grows, stays, segment_next_reserve_end-Extension}
use avar.Download.Slots.{
  ChunkSlot, extend_for, max_concurrency, slot_bytes_remaining, slot_collect_in_flight,
  slot_prepare_write, slot_try_extend_reservation, slot_write_body, write_bytes, available,
  BodyWrite,
}

past_tests {ℓ} :
    {A : Type ℓ} (a b c : Bool) (x y z w : A)
    → a ≡ false
    → b ≡ false
    → c ≡ false
    → (if a then x else if b then y else if c then z else w) ≡ w
past_tests false false false x y z w h k l = refl
past_tests true b c x y z w h k l = absurd (ground (arith, h))
past_tests false true c x y z w h k l = absurd (ground (arith, k))
past_tests false false true x y z w h k l = absurd (ground (arith, l))

write_bytes-at :
    (written : Bool) (now : ℕ) (s : ChunkSlot) (k : ℕ)
    → let w = write_bytes written now s k in
      (w.offset ≡ add64 s.chunk_write_offset s.chunk_received)
      × (w.count ≤ k)
      × (w.slot.reserved_end ≡ s.reserved_end)
unfolding write_bytes
write_bytes-at true now s k = ground arith
write_bytes-at false now s k = ground arith

-- The end of `slot_write_body`, after `slot_prepare_write`.
abbrev after_prepare : Bool → ℕ → Bool → ℕ → ChunkSlot → BodyWrite
after_prepare written now ready n s =
    let remaining = slot_bytes_remaining s in
    let kept = if not (remaining == uint64_max) && ltb remaining n then remaining else n in
    if ready
    then write_bytes written now s kept
    else record { result = n == 0; offset = 0; count = 0; unpersisted = 0; slot = s }

module _ (state : DownloadState) (slots : List ChunkSlot) (i : ℕ) where
  abbrev pub others : List ByteRange
  others = slot_collect_in_flight slots i max_concurrency

  -- A continuous slot whose reservation is in the file and apart from those of the other slots.
  pub record IsReserved (slot : ChunkSlot) : Type 0 where
    pub continuous : slot.continuous ≡ true
    pub in_file : slot.reserved_end < state.total_size
    pub alone : (x : ℕ) → slot.range_start ≤ x → x ≤ slot.reserved_end → covers others x ≡ false

  -- A slot after some extensions.
  pub record Extended (slot after : ChunkSlot) : Type 0 where
    pub reserved : IsReserved after
    pub further : slot.reserved_end ≤ after.reserved_end
    pub frame :
        after ≡ record slot { reserved_end = after.reserved_end; range_end = after.range_end }

  module _ (fits : state.total_size + chunk_of state ≤ 2 ^ 64) where
    kept : (slot : ChunkSlot) → IsReserved slot → Extended slot slot
    kept slot v = record { reserved = v; further = omega arith; frame = refl }

    Extended-twice :
        (slot next after : ChunkSlot)
        → Extended slot next
        → Extended next after
        → Extended slot after
    Extended-twice slot next after a b = record {
      reserved = b.reserved;
      further = omega (arith, a.further, b.further);
      frame =
          b.frame
          ∙ ap
              (λ (y : ChunkSlot). record y {
                reserved_end = after.reserved_end;
                range_end = after.range_end;
              })
              a.frame;
    }

    Extended-grown :
        (slot : ChunkSlot) (e : ℕ)
        → IsReserved slot
        → Extension state others slot.reserved_end e
        → ltb slot.reserved_end e ≡ true
        → Extended slot (record slot { reserved_end = e; range_end = e })
    Extended-grown slot e v (stays same) h = absurd (ground (arith, same, h))
    Extended-grown slot e v (grows more near inside todo free) h = record {
      reserved = record {
        continuous = v.continuous;
        in_file = inside;
        alone = λ x low high. elim (Bool-cases (leb x slot.reserved_end)) [
          | inl old ↦ v.alone x low (leb→le x slot.reserved_end old)
          | inr new ↦ free x (ground (arith, new)) high
        ];
      };
      further = omega (arith, more);
      frame = refl;
    }

    pub try_extend-Extended :
        (slot : ChunkSlot)
        → IsReserved slot
        → Extended slot (slot_try_extend_reservation state slots i slot).1
    unfolding slot_try_extend_reservation
    try_extend-Extended slot v =
        let e = segment_next_reserve_end state others slot.reserved_end in
        let after = record slot { reserved_end = e; range_end = e } in
        let pick : Bool → Bool × ChunkSlot = λ b. if b then (false, slot) else (true, after) in
        elim (Bool-cases (not slot.continuous || leb e slot.reserved_end)) [
          | inl stuck ↦ subst (Extended slot) (sym (ap (λ b. (pick b).1) stuck)) (kept slot v)
          | inr more ↦ subst (Extended slot) (sym (ap (λ b. (pick b).1) more)) (
              Extended-grown slot e v
                (segment_next_reserve_end-Extension state others slot.reserved_end fits)
                (ground (arith, more)))
        ]

    extend_for-Extended :
        (fuel : ℕ) (pos len : ℕ) (slot : ChunkSlot)
        → IsReserved slot
        → Extended slot (extend_for fuel state slots i pos len slot)
    unfolding extend_for
    extend_for-Extended zero pos len slot v = kept slot v
    extend_for-Extended (suc fuel) pos len slot v =
        let tried = slot_try_extend_reservation state slots i slot in
        let rest = extend_for fuel state slots i pos len tried.1 in
        elim (Bool-cases (ltb (available slot pos) len && tried.0)) [
          | inl more ↦
              let first = try_extend-Extended slot v in
              subst (Extended slot) (sym (ap (λ b. if b then rest else slot) more)) (
                Extended-twice slot tried.1 rest first
                  (extend_for-Extended fuel pos len tried.1 first.reserved))
          | inr enough ↦
              subst (Extended slot) (sym (ap (λ b. if b then rest else slot) enough)) (kept slot v)
        ]

    bounded :
        (pos len end at : ℕ)
        → pos ≡ at
        → pos ≤ end
        → end < 2 ^ 64
        → at + (if ltb (add64 (sub64 end pos) 1) len then add64 (sub64 end pos) 1 else len)
          ≤ end + 1
    bounded pos len end at exact room inside = ground (arith, exact, room, inside)

    module _ (slot : ChunkSlot) (v : IsReserved slot)
        (no_wrap : slot.range_start + slot.chunk_received < 2 ^ 64) (len : ℕ) where
      abbrev prepared : Bool × (ℕ × ChunkSlot)
      prepared = slot_prepare_write state slots i slot len

      -- Bytes that are let through fit into the reservation.
      prepare_write-fits :
          prepared.0 ≡ true
          → Extended slot prepared.1.1
            × (slot.range_start + slot.chunk_received + prepared.1.0
                ≤ prepared.1.1.reserved_end + 1)
      unfolding slot_prepare_write
      prepare_write-fits ready =
          let pos = add64 slot.range_start slot.chunk_received in
          let after = extend_for state.total_size state slots i pos len slot in
          let x = extend_for-Extended state.total_size pos len slot v in
          let exact : pos ≡ slot.range_start + slot.chunk_received = ground (arith, no_wrap) in
          elim (Bool-cases (len == 0)) [
            | inl empty ↦ absurd (ground (arith, empty, ready))
            | inr some_there ↦ elim (Bool-cases (ltb slot.reserved_end pos)) [
              | inl full ↦ absurd (ground (arith, some_there, v.continuous, full, ready))
              | inr room ↦
                  let k = if ltb (available after pos) len then available after pos else len in
                  let same : prepared ≡ (ltb 0 k, (k, after)) =
                    past_tests (len == 0) (not slot.continuous) (ltb slot.reserved_end pos) _ _ _ _
                      some_there (ground (arith, v.continuous)) room in
                  let end = after.reserved_end in
                  let bound : slot.range_start + slot.chunk_received + k ≤ end + 1 =
                    bounded pos len end (slot.range_start + slot.chunk_received) exact
                      (ground (arith, room, x.further))
                      (ground (arith, x.reserved.in_file, fits)) in
                  subst
                    (λ r.
                      Extended slot r.1.1
                      × (slot.range_start + slot.chunk_received + r.1.0 ≤ r.1.1.reserved_end + 1))
                    (sym same) (x, bound)
            ]
          ]

    after_prepare-inside :
        (written : Bool) (now : ℕ) (slot : ChunkSlot) (ready : Bool) (n : ℕ) (s : ChunkSlot)
        → slot.chunk_write_offset ≡ slot.range_start
        → slot.range_start + slot.chunk_received < 2 ^ 64
        → (ready ≡ true
            → Extended slot s × (slot.range_start + slot.chunk_received + n ≤ s.reserved_end + 1))
        → let w = after_prepare written now ready n s in
          (x : ℕ)
          → w.offset ≤ x
          → x < w.offset + w.count
          → (slot.range_start + slot.chunk_received ≤ x)
            × (x ≤ w.slot.reserved_end)
            × (x < state.total_size)
            × (covers others x ≡ false)
    after_prepare-inside written now slot false n s here no_wrap h x low high =
        absurd (ground (arith, high))
    after_prepare-inside written now slot true n s here no_wrap h x low high =
        let (ext, bound) = h refl in
        let remaining = slot_bytes_remaining s in
        let k = if not (remaining == uint64_max) && ltb remaining n then remaining else n in
        let at_most : k ≤ n = ground arith in
        let (o, c, e) = write_bytes-at written now s k in
        let offset : s.chunk_write_offset ≡ slot.range_start =
          ap (λ (y : ChunkSlot). y.chunk_write_offset) ext.frame ∙ here in
        let received : s.chunk_received ≡ slot.chunk_received =
          ap (λ (y : ChunkSlot). y.chunk_received) ext.frame in
        let start : s.range_start ≡ slot.range_start =
          ap (λ (y : ChunkSlot). y.range_start) ext.frame in
        let first : (write_bytes written now s k).offset ≡ slot.range_start + slot.chunk_received =
          o ∙ ground (arith, offset, received, no_wrap) in
        let from : slot.range_start + slot.chunk_received ≤ x = omega (arith, first, low) in
        let to : x ≤ s.reserved_end = omega (arith, first, low, high, c, at_most, bound) in
        (
          from,
          omega (arith, to, e),
          omega (arith, to, ext.reserved.in_file),
          ext.reserved.alone x (omega (arith, from, start)) to,
        )

    -- Every byte that slot_write_body writes through a continuous slot lies at or behind the
    -- next byte of the slot, inside its reservation as it is after the call, inside the file,
    -- and outside of the reservations of the other slots that slot_collect_in_flight gives,
    -- however much the server sends. Before the call the reservation is in the file and apart
    -- from those of the other slots, the slot writes from the start of its range, that start
    -- with the received bytes does not wrap, and neither does the size with a chunk.
    pub slot_write_body-inside :
        (written : Bool) (now : ℕ) (slot : ChunkSlot) (len : ℕ)
        → IsReserved slot
        → slot.chunk_write_offset ≡ slot.range_start
        → slot.range_start + slot.chunk_received < 2 ^ 64
        → let w = slot_write_body written now state slots i slot len in
          (x : ℕ)
          → w.offset ≤ x
          → x < w.offset + w.count
          → (slot.range_start + slot.chunk_received ≤ x)
            × (x ≤ w.slot.reserved_end)
            × (x < state.total_size)
            × (covers others x ≡ false)
    unfolding slot_write_body
    slot_write_body-inside written now slot len v here no_wrap =
        let p = slot_prepare_write state slots i slot len in
        after_prepare-inside written now slot p.0 p.1.0 p.1.1 here no_wrap
          (prepare_write-fits slot v no_wrap len)
