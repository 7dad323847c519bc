-- ===== src/RecvBuf/Stream.antt =====
-- Runs of the receive buffer against the stream that the peer sends.
use gm_quic.Prelude.{
  ℕ, ◌+◌, ◌≤◌, ◌<◌, ◌≡◌, ◌⊎◌, inl, inr, refl, sym, ap, ◌∙◌, List, [], ◌∷◌, ◌++◌, Option, some,
  arith, ltb, length, ◌>>=◌, length-append, Bool-cases, ltb→lt, ltb→le,
}
use gm_quic.Bytes.{BytesOps}
use gm_quic.RecvBuf.{RecvBuf, Segment, recv, try_read}
use gm_quic.RecvBuf.Segments.{
  IsOrdered, fragment_at, or_else, byte_at, fragment-inside, fragment-after, byte_at-before,
  or_else_held,
}
use gm_quic.RecvBuf.Recv.{IsValid, fresh_at, recv_lem}
use gm_quic.RecvBuf.Read.{try_read_lem}
use gm_quic.RecvBuf.Agreement.{
  slice, Agrees, slice-append, fragment-slice, fresh_at-Agrees, or_else-Agrees, front-Agrees,
}

-- What happens to a buffer: a fragment arrives, or the application reads into some room.
pub data Op : Type 0 where
  receive : ℕ → List ℕ → Op
  read : ℕ → Op

-- The buffer after the calls, and all that they read; `none` is a panic or a lack of fuel.
pub run : BytesOps → RecvBuf → List Op → Option (RecvBuf × List ℕ)
run b r [] = some (r, [])
run b r (receive offset bytes ∷ ops) = recv b r offset bytes >>= λ after. run b after.0 ops
run b r (read room ∷ ops) =
    let after = try_read b r room in run b after.0 ops >>= λ done. some (done.0, after.1 ++ done.1)

-- Every fragment that arrives is a piece of the stream.
abbrev pub AllFrom : (ℕ → ℕ) → List Op → Type 0
AllFrom stream [] = Unit {0}
AllFrom stream (receive offset bytes ∷ ops) =
    Agrees stream (fragment_at offset bytes) × AllFrom stream ops
AllFrom stream (read room ∷ ops) = AllFrom stream ops

-- One of the fragments that arrive holds offset `x`.
abbrev pub Arrives : ℕ → List Op → Type 0
Arrives x [] = ⊥
Arrives x (receive offset bytes ∷ ops) =
    ((offset ≤ x) × (x < offset + length bytes)) ⊎ Arrives x ops
Arrives x (read room ∷ ops) = Arrives x ops

-- Offset `x` has been read, or is in the buffer.
abbrev pub IsKept : RecvBuf → ℕ → Type 0
IsKept r x = (x < r.nread) ⊎ ((v : ℕ) × (byte_at r.segments x ≡ some v))

module _ (b : BytesOps) (stream : ℕ → ℕ) where
  -- The state between two calls: in order, and all that is held is the stream's.
  abbrev pub Holds : RecvBuf → Type 0
  Holds r = IsValid r × Agrees stream (byte_at r.segments)

  -- What a run of `ops` from `r` owes.
  abbrev pub Runs : RecvBuf → List Op → RecvBuf → List ℕ → Type 0
  Runs r ops r' out =
      Holds r'
      × (r'.nread ≡ r.nread + length out)
      × (out ≡ slice stream r.nread (length out))
      × ((x : ℕ) → IsKept r x ⊎ Arrives x ops → IsKept r' x)

  back-Agrees :
      (segs : ℕ → Option ℕ) (nread hi : ℕ) (out : List ℕ) (left : List Segment)
      → IsOrdered hi left
      → hi ≡ nread + length out
      → Agrees stream segs
      → ((x : ℕ) → segs x ≡ or_else (fragment_at nread out x) (byte_at left x))
      → Agrees stream (byte_at left)
  back-Agrees segs nread hi out left ordered e h held x v f = elim (Bool-cases (ltb x hi)) [
    | inl below ↦ cc (byte_at-before hi left x ordered (ltb→lt _ _ below))
    | inr above ↦
        let gone = fragment-after nread out x (omega (arith, e, ltb→le _ _ above)) in
        h x v (held x ∙ ap (λ o. or_else o (byte_at left x)) gone ∙ f)
  ]

  or_else-kept : (o p : Option ℕ) → (v : ℕ) × (o ≡ some v) → (v : ℕ) × (or_else o p ≡ some v)
  or_else-kept o p (v, e) = (v, ap (λ q. or_else q p) e)

  recv-IsKept :
      (r r' : RecvBuf) (offset : ℕ) (bytes : List ℕ) (x : ℕ)
      → r'.nread ≡ r.nread
      → byte_at r'.segments x ≡ or_else (byte_at r.segments x) (fresh_at r.nread offset bytes x)
      → IsKept r x ⊎ ((offset ≤ x) × (x < offset + length bytes))
      → IsKept r' x
  recv-IsKept r r' offset bytes x same e (inl (inl old)) = inl (omega arith)
  recv-IsKept r r' offset bytes x same e (inl (inr held)) =
      let (v, f) = or_else-kept (byte_at r.segments x) (fresh_at r.nread offset bytes x) held in
      inr (v, e ∙ f)
  recv-IsKept r r' offset bytes x same e (inr (lo, hi)) = elim (Bool-cases (ltb x r.nread)) [
    | inl old ↦ inl (omega (arith, ltb→lt _ _ old))
    | inr new ↦
        let (v, f) = fragment-inside offset bytes x lo hi in
        let fresh : fresh_at r.nread offset bytes x ≡ some v = rw new f in
        let (w, g) = or_else_held (byte_at r.segments x) (v, fresh) in inr (w, e ∙ g)
  ]

  read-IsKept :
      (r r' : RecvBuf) (out : List ℕ) (x : ℕ)
      → r'.nread ≡ r.nread + length out
      → byte_at r.segments x ≡ or_else (fragment_at r.nread out x) (byte_at r'.segments x)
      → IsKept r x
      → IsKept r' x
  read-IsKept r r' out x count e (inl old) = inl (omega arith)
  read-IsKept r r' out x count e (inr (v, held)) = elim (Bool-cases (ltb x r'.nread)) [
    | inl before ↦ inl (ltb→lt _ _ before)
    | inr after ↦
        let gone = fragment-after r.nread out x (omega (arith, count, ltb→le _ _ after)) in
        inr (v, sym (e ∙ ap (λ o. or_else o (byte_at r'.segments x)) gone) ∙ held)
  ]

  -- For any fragments that are pieces of one stream, in any order, with gaps and overlaps, and any
  -- reads between them, from any buffer in order that holds bytes of the stream: no call panics;
  -- the buffer stays in order and holds bytes of the stream; what the reads return together is the
  -- stream from where the first of them began, as many bytes as have been read; and every offset
  -- that was read or held before, or that one of the fragments covers, has been read or is held.
  pub run_lem :
      (r : RecvBuf) (ops : List Op)
      → Holds r
      → AllFrom stream ops
      → (r' : RecvBuf) × (out : List ℕ) × (run b r ops ≡ some (r', out)) × Runs r ops r' out
  unfolding run
  run_lem r [] holds from = (r, [], refl, (holds, omega arith, refl, nothing r))
    where
      nothing : (s : RecvBuf) (x : ℕ) → IsKept s x ⊎ ⊥ → IsKept s x
      nothing s x (inl k) = k
      nothing s x (inr k) = absurd k
  run_lem r (receive offset bytes ∷ ops) holds from =
      let (r1, credit, e, valid, same, held, _, _) = recv_lem b r offset bytes holds.0 in
      let agrees =
        or_else-Agrees stream (byte_at r.segments) (fresh_at r.nread offset bytes)
          (byte_at r1.segments) holds.1 (fresh_at-Agrees stream r.nread offset bytes from.0) held in
      let (r', out, f, done) = run_lem r1 ops (valid, agrees) from.1 in
      let (good, count, is_slice, kept) = done in
      (
        r',
        out,
        rw e f,
        (
          good,
          omega (arith, count, same),
          is_slice ∙ ap (λ s. slice stream s (length out)) same,
          λ x k. kept x (arrived r r1 x same (held x) k),
        ),
      )
    where
      arrived :
          (s s1 : RecvBuf) (x : ℕ)
          → s1.nread ≡ s.nread
          → byte_at s1.segments x ≡ or_else (byte_at s.segments x) (fresh_at s.nread offset bytes x)
          → IsKept s x ⊎ (((offset ≤ x) × (x < offset + length bytes)) ⊎ Arrives x ops)
          → IsKept s1 x ⊎ Arrives x ops
      arrived s s1 x same e (inl k) = inl (recv-IsKept s s1 offset bytes x same e (inl k))
      arrived s s1 x same e (inr (inl k)) = inl (recv-IsKept s s1 offset bytes x same e (inr k))
      arrived s s1 x same e (inr (inr k)) = inr k
  run_lem r (read room ∷ ops) holds from =
      let r1 = (try_read b r room).0 in
      let front = (try_read b r room).1 in
      let (valid, _, count, _, held) = try_read_lem b r room holds.0 in
      let agrees =
        back-Agrees (byte_at r.segments) r.nread r1.nread front r1.segments valid.0 count holds.1
          held in
      let front_agrees =
        front-Agrees stream (fragment_at r.nread front) (byte_at r1.segments) (byte_at r.segments)
          holds.1 held in
      let (r', more, f, done) = run_lem r1 ops (valid, agrees) from in
      let (good, count', is_slice, kept) = done in
      (
        r',
        front ++ more,
        rw f refl,
        (
          good,
          omega (arith, count, count', length-append front more),
          ap (λ t. t ++ more) (fragment-slice stream r.nread front front_agrees)
              ∙ ap (λ t. slice stream r.nread (length front) ++ t)
                  (is_slice ∙ ap (λ s. slice stream s (length more)) count)
              ∙ sym (slice-append stream r.nread (length front) (length more))
              ∙ ap (slice stream r.nread) (sym (length-append front more)),
          λ x k. kept x (still r r1 front x count (held x) k),
        ),
      )
    where
      still :
          (s s1 : RecvBuf) (front : List ℕ) (x : ℕ)
          → s1.nread ≡ s.nread + length front
          → byte_at s.segments x ≡ or_else (fragment_at s.nread front x) (byte_at s1.segments x)
          → IsKept s x ⊎ Arrives x ops
          → IsKept s1 x ⊎ Arrives x ops
      still s s1 front x count e (inl k) = inl (read-IsKept s s1 front x count e k)
      still s s1 front x count e (inr k) = inr k
