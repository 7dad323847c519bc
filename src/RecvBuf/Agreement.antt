-- ===== src/RecvBuf/Agreement.antt =====
-- Fragments and buffers whose bytes are those of one stream.
use gm_quic.Prelude.{
  ℕ, zero, suc, ◌+◌, ◌≡◌, inl, inr, refl, sym, ap, ◌∙◌, List, [], ◌∷◌, ◌++◌, Option, none, some,
  arith, ltb, length, ◌-◌, get_elem?, Bool-cases,
}
use gm_quic.RecvBuf.Segments.{fragment_at, or_else}
use gm_quic.RecvBuf.Recv.{fresh_at}

-- `n` bytes of the stream from `start` on.
abbrev pub slice : (ℕ → ℕ) → ℕ → ℕ → List ℕ
slice stream start zero = []
slice stream start (suc n) = stream start ∷ slice stream (start + 1) n

-- The bytes given at some offsets are those of the stream.
abbrev pub Agrees : (ℕ → ℕ) → (ℕ → Option ℕ) → Type 0
Agrees stream at = (x v : ℕ) → at x ≡ some v → v ≡ stream x

pub slice-append :
    (stream : ℕ → ℕ) (start n m : ℕ)
    → slice stream start (n + m) ≡ slice stream start n ++ slice stream (start + n) m
slice-append stream start zero m =
    let e : start ≡ start + 0 = omega arith in
    let f : 0 + m ≡ m = omega arith in ap (slice stream start) f ∙ ap (λ s. slice stream s m) e
slice-append stream start (suc n) m =
    let e : start + 1 + n ≡ start + suc n = omega arith in
    let f : suc n + m ≡ suc (n + m) = omega arith in
    ap (slice stream start) f
    ∙ ap (λ t. stream start ∷ t)
        (slice-append stream (start + 1) n m
          ∙ ap (λ s. slice stream (start + 1) n ++ slice stream s m) e)

get_elem?-tail :
    (v : ℕ) (bytes : List ℕ) (i j : ℕ) → i ≡ suc j → get_elem? (v ∷ bytes) i ≡ get_elem? bytes j
get_elem?-tail v bytes i j e = ap (get_elem? (v ∷ bytes)) e

fragment-tail :
    (start v : ℕ) (bytes : List ℕ) (x w : ℕ)
    → fragment_at (start + 1) bytes x ≡ some w
    → fragment_at start (v ∷ bytes) x ≡ some w
unfolding fragment_at
fragment-tail start v bytes x w e =
    ground (arith, get_elem?-tail v bytes (x - start) (x - (start + 1)))

fragment-head : (start v : ℕ) (bytes : List ℕ) → fragment_at start (v ∷ bytes) start ≡ some v
unfolding fragment_at
fragment-head start v bytes =
    let e : start - start ≡ 0 = omega arith in ground (arith, ap (get_elem? (v ∷ bytes)) e)

-- A fragment of the stream is a slice of it.
pub fragment-slice :
    (stream : ℕ → ℕ) (start : ℕ) (bytes : List ℕ)
    → Agrees stream (fragment_at start bytes)
    → bytes ≡ slice stream start (length bytes)
unfolding fragment_at
fragment-slice stream start [] h = refl
fragment-slice stream start (v ∷ bytes) h =
    ap (λ (t : ℕ). t ∷ bytes) (h start v (fragment-head start v bytes))
    ∙ ap (λ t. stream start ∷ t)
        (fragment-slice stream (start + 1) bytes
          (λ x w e. h x w (fragment-tail start v bytes x w e)))

pub fresh_at-Agrees :
    (stream : ℕ → ℕ) (nread offset : ℕ) (bytes : List ℕ)
    → Agrees stream (fragment_at offset bytes)
    → Agrees stream (fresh_at nread offset bytes)
fresh_at-Agrees stream nread offset bytes h x v e = elim (Bool-cases (ltb x nread)) [
  | inl old ↦ absurd (ground arith)
  | inr new ↦ h x v (ground arith)
]

pub or_else-Agrees :
    (stream : ℕ → ℕ) (p q at : ℕ → Option ℕ)
    → Agrees stream p
    → Agrees stream q
    → ((x : ℕ) → at x ≡ or_else (p x) (q x))
    → Agrees stream at
or_else-Agrees stream p q at h k e x v f = either (p x) refl
  where
    either : (o : Option ℕ) → p x ≡ o → v ≡ stream x
    either none n = k x v (sym (ap (λ o. or_else o (q x)) n) ∙ sym (e x) ∙ f)
    either (some w) n = h x v (sym (ap (λ o. or_else o (q x)) n ∙ sym n) ∙ sym (e x) ∙ f)

-- Both parts of a split agree with the stream, if the whole does and the first part comes first.
pub front-Agrees :
    (stream : ℕ → ℕ) (p q at : ℕ → Option ℕ)
    → Agrees stream at
    → ((x : ℕ) → at x ≡ or_else (p x) (q x))
    → Agrees stream p
front-Agrees stream p q at h e x v f = h x v (e x ∙ ap (λ o. or_else o (q x)) f)
