-- ===== src/RecvBuf/Read.antt =====
-- `try_read`, `available` and `is_readable` against the bytes that are held.
use gm_quic.Prelude.{
  false, refl, subst, ltb, ◌<◌, ℕ, ◌+◌, ◌-◌, ◌≤◌, ◌≡◌, ap, sym, ◌∙◌, List, [], ◌∷◌, ◌++◌, arith,
  true, ◌==◌, length, take, drop, not, ◌||◌, Bool-cases, ltb→lt, ltb→le, inl, inr, min, length-take,
  length-drop, length-append, lt→ltb, le→ltb, take_all,
}
use gm_quic.Bytes.{BytesOps}
use gm_quic.RecvBuf.{RecvBuf, Segment, read_loop, try_read, continuous_end, available}
use gm_quic.RecvBuf.Segments.{
  IsOrdered, EndsBy, fragment_at, or_else, byte_at, fragment-split, fragment-append, fragment-nil,
  or_else_assoc, or_else-none,
}
use gm_quic.RecvBuf.Recv.{IsValid}
use gm_quic.RecvBuf.Available.{
  continuous_end-here, continuous_end-ge, continuous_end-gap, continuous_end-le,
}

-- What a read of `segs` from `nread` on into `room` bytes owes: `out` is read, `left` stays.
abbrev ReadsTo : ℕ → ℕ → ℕ → List Segment → List ℕ × ℕ × List Segment → Type 0
ReadsTo hi nread room segs (out, nread', left) =
    IsOrdered nread' left
    × EndsBy hi left
    × (nread' ≡ nread + length out)
    × (length out ≡ min room (continuous_end nread segs - nread))
    × ((x : ℕ) → byte_at segs x ≡ or_else (fragment_at nread out x) (byte_at left x))

module _ (hi nread room : ℕ) (seg : Segment) (rest : List Segment)
    (h : IsOrdered nread (seg ∷ rest)) (k : EndsBy hi (seg ∷ rest)) where
  stops :
      (not (seg.offset == nread) || room == 0) ≡ true
      → ReadsTo hi nread room (seg ∷ rest) ([], nread, seg ∷ rest)
  stops stop = (
    h,
    k,
    omega arith,
    ground (arith, continuous_end-gap nread seg rest),
    λ x. ap (λ o. or_else o (byte_at (seg ∷ rest) x)) (sym (fragment-nil nread x)),
  )

  -- The segment does not fit into the room.
  fits_partly :
      seg.offset ≡ nread
      → room < length seg.bytes
      → ReadsTo hi nread room (seg ∷ rest) (
        take room seg.bytes,
        nread + room,
        record { offset = seg.offset + room; bytes = drop room seg.bytes } ∷ rest,
      )
  fits_partly here less =
      let n : length (take room seg.bytes) ≡ room = omega (arith, length-take room seg.bytes) in
      let m : length (drop room seg.bytes) ≡ length seg.bytes - room = length-drop room seg.bytes in
      (
        (omega arith, omega (arith, m), subst (λ e. IsOrdered e rest) (omega (arith, m)) h.2),
        (omega (arith, m, k.0), k.1),
        omega (arith, n),
        omega (
          arith,
          n,
          continuous_end-here nread seg rest here,
          continuous_end-ge (nread + length seg.bytes) rest,
        ),
        λ x.
            ap (λ o. or_else o (byte_at rest x)) (fragment-split seg.offset room seg.bytes x)
            ∙ or_else_assoc (fragment_at seg.offset (take room seg.bytes) x) _ _
            ∙ ap
                (λ e. or_else (fragment_at e (take room seg.bytes) x) (
                  or_else (fragment_at (seg.offset + room) (drop room seg.bytes) x)
                    (byte_at rest x)))
                here,
      )

  -- The segment is read whole, and the loop goes on behind it.
  fits_whole :
      seg.offset ≡ nread
      → length seg.bytes ≤ room
      → (more : List ℕ × ℕ × List Segment)
      → ReadsTo hi (nread + length seg.bytes) (room - length seg.bytes) rest more
      → ReadsTo hi nread room (seg ∷ rest) (seg.bytes ++ more.0, more.1, more.2)
  fits_whole here fits (out, nread', left) (ordered, ends, count, amount, held) = (
    ordered,
    ends,
    omega (arith, count, length-append seg.bytes out),
    omega (
      arith,
      amount,
      length-append seg.bytes out,
      continuous_end-here nread seg rest here,
      continuous_end-ge (nread + length seg.bytes) rest,
    ),
    λ x.
        ap (or_else (fragment_at seg.offset seg.bytes x)) (held x)
        ∙ sym (or_else_assoc (fragment_at seg.offset seg.bytes x) _ _)
        ∙ ap (λ o. or_else o (byte_at left x))
            (ap
                (λ e.
                  or_else (fragment_at e seg.bytes x)
                    (fragment_at (nread + length seg.bytes) out x))
                here
              ∙ sym (fragment-append nread seg.bytes out x)),
  )

module _ (b : BytesOps) where
  -- What is read and what is left are what was there.
  read_loop_lem :
      (hi : ℕ) (segs : List Segment) (nread room : ℕ)
      → IsOrdered nread segs
      → EndsBy hi segs
      → ReadsTo hi nread room segs (read_loop b nread room segs)
  unfolding read_loop continuous_end
  read_loop_lem hi [] nread room h k =
      (tt, tt, omega arith, omega arith, λ x. sym (or_else-none _ ∙ fragment-nil nread x))
  read_loop_lem hi (seg ∷ rest) nread room h k =
      elim (Bool-cases (not (seg.offset == nread) || room == 0)) [
        | inl stop ↦ rw stop (stops hi nread room seg rest h k stop)
        | inr go ↦
            let here : seg.offset ≡ nread = ground arith in
            elim (Bool-cases (ltb room (length seg.bytes))) [
              | inl less ↦
                  let e : min room (length seg.bytes) ≡ room = omega (arith, ltb→lt _ _ less) in
                  let m : ltb 0 (length (drop room seg.bytes)) ≡ true =
                    lt→ltb _ _ (omega (arith, length-drop room seg.bytes, ltb→lt _ _ less)) in
                  rw (go, e, b.split_to_lem room seg.bytes (omega (arith, ltb→lt _ _ less)), m)
                    (fits_partly hi nread room seg rest h k here (ltb→lt _ _ less))
              | inr whole ↦
                  let e : min room (length seg.bytes) ≡ length seg.bytes =
                    omega (arith, ltb→le _ _ whole) in
                  let m : ltb 0 (length (drop (length seg.bytes) seg.bytes)) ≡ false =
                    le→ltb _ _ (omega (arith, length-drop (length seg.bytes) seg.bytes)) in
                  rw
                    (
                      go,
                      e,
                      b.split_to_lem (length seg.bytes) seg.bytes (omega arith),
                      m,
                      take_all seg.bytes,
                    )
                    (fits_whole hi nread room seg rest h k here (ltb→le _ _ whole) _ (
                      read_loop_lem hi rest (nread + length seg.bytes) (room - length seg.bytes)
                        (subst (λ o. IsOrdered (o + length seg.bytes) rest) here h.2) k.1))
            ]
      ]

  -- For a buffer in order, `try_read` takes as many bytes as are available and fit into `room`, the
  -- ones that continue what has been read; the buffer stays in order, its `largest_offset` stays,
  -- and the bytes taken and the bytes left are those that were held.
  pub try_read_lem :
      (r : RecvBuf) (room : ℕ)
      → IsValid r
      → let (r', out) = try_read b r room in
        IsValid r'
        × (r'.largest_offset ≡ r.largest_offset)
        × (r'.nread ≡ r.nread + length out)
        × (length out ≡ min room (available r))
        × ((x : ℕ)
            → byte_at r.segments x ≡ or_else (fragment_at r.nread out x) (byte_at r'.segments x))
  unfolding try_read available
  try_read_lem r room (ordered, ends, bounded) =
      let (ordered', ends', count, amount, held) =
        read_loop_lem r.largest_offset r.segments r.nread room ordered ends in
      let cap = continuous_end-le r.largest_offset r.nread r.segments ends bounded in
      (
        (ordered', ends', omega (arith, count, amount, cap, continuous_end-ge r.nread r.segments)),
        refl,
        count,
        amount,
        held,
      )
