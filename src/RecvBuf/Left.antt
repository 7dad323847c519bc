-- ===== src/RecvBuf/Left.antt =====
-- What is left in the receive buffer after a read.
use gm_quic.Prelude.{
  ℕ, ◌+◌, ◌-◌, ◌≤◌, ◌<◌, ◌≡◌, refl, ap, ◌∙◌, List, [], ◌∷◌, true, false, min, none, arith, length,
  get_elem?-none, compare-cases, inl, inr,
}
use gm_quic.Bytes.{BytesOps}
use gm_quic.RecvBuf.{RecvBuf, Segment, try_read, available, is_readable, is_empty, continuous_end}
use gm_quic.RecvBuf.Segments.{fragment_at, or_else, byte_at}
use gm_quic.RecvBuf.Recv.{IsValid}
use gm_quic.RecvBuf.Available.{available_lem}
use gm_quic.RecvBuf.Read.{try_read_lem}

fragment_at-beyond :
    (start : ℕ) (bytes : List ℕ) (x : ℕ)
    → start + length bytes ≤ x
    → fragment_at start bytes x ≡ none
unfolding fragment_at
fragment_at-beyond start bytes x h = ground (arith, get_elem?-none bytes (x - start) (omega arith))

module _ (b : BytesOps) where
  -- A read takes what it returns off what is available, and no more.
  pub available-try_read :
      (r : RecvBuf) (room : ℕ)
      → IsValid r
      → let r' = (try_read b r room).0 in r'.nread + available r' ≡ r.nread + available r
  available-try_read r room valid =
      let r' = (try_read b r room).0 in
      let out = (try_read b r room).1 in
      let (valid', _, count, amount, held) = try_read_lem b r room valid in
      let (full, gap, _) = available_lem r valid in
      let (full', gap', _) = available_lem r' valid' in
      let same : (x : ℕ) → r'.nread ≤ x → byte_at r.segments x ≡ byte_at r'.segments x = λ x h.
        held x
        ∙ ap (λ o. or_else o (byte_at r'.segments x))
            (fragment_at-beyond r.nread out x (omega arith)) in
      elim (compare-cases (r'.nread + available r') (r.nread + available r)) [
        | inl short ↦
            let (v, some_v) = full (r'.nread + available r') (omega arith) short in
            absurd (let h = same (r'.nread + available r') (omega arith) in cc)
        | inr (inl e) ↦ e
        | inr (inr long) ↦
            let (v, some_v) = full' (r.nread + available r) (omega arith) long in
            absurd (let h = same (r.nread + available r) (omega arith) in cc)
      ]

  abbrev pub IsRead : RecvBuf → ℕ → RecvBuf × List ℕ → Type 0
  IsRead buf room (buf', out) =
      IsValid buf'
      × (buf'.largest_offset ≡ buf.largest_offset)
      × (length out ≡ min room (available buf))
      × (available buf' + length out ≡ available buf)
      × (buf'.nread + available buf' ≡ buf.nread + available buf)

  pub read_lem : (buf : RecvBuf) (room : ℕ) → IsValid buf → IsRead buf room (try_read b buf room)
  read_lem buf room valid =
      let (valid', same, count, amount, _) = try_read_lem b buf room valid in
      let e = available-try_read buf room valid in
      (valid', same, amount, omega (arith, count, e), e)

pub not_readable : (buf : RecvBuf) → IsValid buf → is_readable buf ≡ false → available buf ≡ 0
not_readable buf valid h = let (_, _, e) = available_lem buf valid in ground (arith, e, h)

pub now_readable : (buf : RecvBuf) → IsValid buf → is_readable buf ≡ true → 0 < available buf
now_readable buf valid h = let (_, _, e) = available_lem buf valid in ground (arith, e, h)

pub empty_available : (buf : RecvBuf) → is_empty buf ≡ true → available buf ≡ 0
unfolding available is_empty continuous_end
empty_available buf h = go buf.segments refl
  where
    go : (segs : List Segment) → buf.segments ≡ segs → available buf ≡ 0
    go [] e = rw (e, available) (omega arith)
    go (seg ∷ rest) e = absurd (let k = rw e at h in cc)
