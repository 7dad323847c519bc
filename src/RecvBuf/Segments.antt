-- ===== src/RecvBuf/Segments.antt =====
-- What a list of segments holds: the byte at each offset, and the order of the segments.
use gm_quic.Prelude.{
  ℕ, zero, suc, ◌+◌, ◌-◌, ◌≤◌, ◌<◌, ◌≡◌, refl, ap, sym, ◌∙◌, List, [], ◌∷◌, ◌++◌, Option, none,
  some, arith, ltb, leb, if◌then◌else◌, length, get_elem?, take, drop, Bool-cases, ltb→lt, ltb→le,
  inl, inr, length-take, length-drop, take-append_left, drop-append_left, get_elem?-none,
  get_elem?-some,
}
use gm_quic.RecvBuf.{Segment, seg_end, insert_at}

-- In order from `lo` on, not overlapping, none empty.
abbrev pub IsOrdered : ℕ → List Segment → Type 0
IsOrdered lo [] = Unit {0}
IsOrdered lo (s ∷ rest) = (lo ≤ s.offset) × (0 < length s.bytes) × IsOrdered (seg_end s) rest

abbrev pub EndsBy : ℕ → List Segment → Type 0
EndsBy hi [] = Unit {0}
EndsBy hi (s ∷ rest) = (seg_end s ≤ hi) × EndsBy hi rest

-- The byte at offset `x` of a fragment that starts at `start`.
unfoldable pub fragment_at : ℕ → List ℕ → ℕ → Option ℕ
fragment_at start bytes x = if leb start x then get_elem? bytes (x - start) else none

abbrev pub or_else {ℓ} : {A : Type ℓ} → Option A → Option A → Option A
or_else none y = y
or_else (some a) y = some a

-- The byte at offset `x`, if it has been received.
abbrev pub byte_at : List Segment → ℕ → Option ℕ
byte_at [] x = none
byte_at (s ∷ rest) x = or_else (fragment_at s.offset s.bytes x) (byte_at rest x)

pub or_else_assoc {ℓ} :
    {A : Type ℓ} (x y z : Option A) → or_else (or_else x y) z ≡ or_else x (or_else y z)
or_else_assoc none y z = refl
or_else_assoc (some a) y z = refl

pub fragment-inside :
    (start : ℕ) (bytes : List ℕ) (x : ℕ)
    → start ≤ x
    → x < start + length bytes
    → (v : ℕ) × (fragment_at start bytes x ≡ some v)
unfolding fragment_at
fragment-inside start bytes x h k =
    let (v, e) = get_elem?-some bytes (x - start) (omega arith) in (v, ground arith)

pub fragment-before :
    (start : ℕ) (bytes : List ℕ) (x : ℕ) → x < start → fragment_at start bytes x ≡ none
unfolding fragment_at
fragment-before start bytes x h = ground arith

pub fragment-after :
    (start : ℕ) (bytes : List ℕ) (x : ℕ)
    → start + length bytes ≤ x
    → fragment_at start bytes x ≡ none
unfolding fragment_at
fragment-after start bytes x h = ground (arith, get_elem?-none bytes (x - start))

get_elem?-split :
    (bytes : List ℕ) (k i : ℕ)
    → get_elem? bytes i
      ≡ or_else
          (get_elem? (take k bytes) i)
          (if leb k i then get_elem? (drop k bytes) (i - k) else none)
get_elem?-split [] zero i = ground arith
get_elem?-split [] (suc k) i = ground arith
get_elem?-split (v ∷ bytes) zero i = ground arith
get_elem?-split (v ∷ bytes) (suc k) zero = refl
get_elem?-split (v ∷ bytes) (suc k) (suc i) = ground (arith, get_elem?-split bytes k i)

-- A fragment is its first `k` bytes and the rest.
pub fragment-split :
    (start k : ℕ) (bytes : List ℕ) (x : ℕ)
    → fragment_at start bytes x
      ≡ or_else (fragment_at start (take k bytes) x) (fragment_at (start + k) (drop k bytes) x)
unfolding fragment_at
fragment-split start k bytes x = ground (arith, get_elem?-split bytes k (x - start))

-- Nothing is held below the first segment.
pub byte_at-before :
    (lo : ℕ) (segs : List Segment) (x : ℕ) → IsOrdered lo segs → x < lo → byte_at segs x ≡ none
byte_at-before lo [] x h k = refl
byte_at-before lo (s ∷ rest) x h k =
    ground (arith, fragment-before s.offset s.bytes x, byte_at-before (seg_end s) rest x h.2)

pub or_else_held {ℓ} :
    {A : Type ℓ} (o : Option A) {p : Option A}
    → (v : A) × (p ≡ some v)
    → (v : A) × (or_else o p ≡ some v)
or_else_held none held = held
or_else_held (some a) held = (a, refl)

pub or_else-none {ℓ} : {A : Type ℓ} (o : Option A) → or_else o none ≡ o
or_else-none none = refl
or_else-none (some a) = refl

-- Every offset of a segment is held.
pub byte_at-segment :
    (segs : List Segment) (i : ℕ) (s : Segment) (x : ℕ)
    → get_elem? segs i ≡ some s
    → s.offset ≤ x
    → x < seg_end s
    → (v : ℕ) × (byte_at segs x ≡ some v)
byte_at-segment [] i s x e h k = cc
byte_at-segment (t ∷ rest) zero s x e h k =
    let (v, held) = fragment-inside s.offset s.bytes x h k in (v, ground arith)
byte_at-segment (t ∷ rest) (suc i) s x e h k =
    or_else_held (fragment_at t.offset t.bytes x) (byte_at-segment rest i s x e h k)

-- The position `i` is a gap that has room for `n` bytes at `p`.
abbrev pub IsGap : List Segment → ℕ → ℕ → ℕ → Type 0
IsGap [] zero p n = Unit {0}
IsGap (s ∷ rest) zero p n = p + n ≤ s.offset
IsGap [] (suc i) p n = ⊥
IsGap (s ∷ rest) (suc i) p n = (seg_end s ≤ p) × IsGap rest i p n

-- A fragment put into a gap keeps the order, and adds its bytes and no others.
pub insert_at-IsOrdered :
    (lo : ℕ) (segs : List Segment) (i : ℕ) (t : Segment)
    → IsOrdered lo segs
    → lo ≤ t.offset
    → 0 < length t.bytes
    → IsGap segs i t.offset (length t.bytes)
    → IsOrdered lo (insert_at segs i t)
insert_at-IsOrdered lo [] zero t h l k g = (l, k, tt)
insert_at-IsOrdered lo (s ∷ rest) zero t h l k g = (l, k, (g, h.1, h.2))
insert_at-IsOrdered lo [] (suc i) t h l k g = absurd g
insert_at-IsOrdered lo (s ∷ rest) (suc i) t h l k g =
    (h.0, h.1, insert_at-IsOrdered (seg_end s) rest i t h.2 g.0 k g.1)

pub byte_at-insert_at :
    (lo : ℕ) (segs : List Segment) (i : ℕ) (t : Segment) (x : ℕ)
    → IsOrdered lo segs
    → IsGap segs i t.offset (length t.bytes)
    → byte_at (insert_at segs i t) x ≡ or_else (byte_at segs x) (fragment_at t.offset t.bytes x)
byte_at-insert_at lo [] zero t x h g = ground arith
byte_at-insert_at lo (s ∷ rest) zero t x h g = elim (Bool-cases (ltb x s.offset)) [
  | inl below ↦
      rw (byte_at-before s.offset (s ∷ rest) x (omega arith, h.1, h.2) (ltb→lt _ _ below))
        (or_else-none (fragment_at t.offset t.bytes x))
  | inr above ↦
      rw (fragment-after t.offset t.bytes x (omega (arith, ltb→le _ _ above)))
        (sym (or_else-none (byte_at (s ∷ rest) x)))
]
byte_at-insert_at lo [] (suc i) t x h g = absurd g
byte_at-insert_at lo (s ∷ rest) (suc i) t x h g =
    ap (or_else (fragment_at s.offset s.bytes x)) (byte_at-insert_at (seg_end s) rest i t x h.2 g.1)
    ∙ sym (or_else_assoc (fragment_at s.offset s.bytes x) _ _)

pub insert_at-EndsBy :
    (hi : ℕ) (segs : List Segment) (i : ℕ) (t : Segment)
    → EndsBy hi segs
    → seg_end t ≤ hi
    → EndsBy hi (insert_at segs i t)
insert_at-EndsBy hi segs zero t h k = (k, h)
insert_at-EndsBy hi [] (suc i) t h k = (k, tt)
insert_at-EndsBy hi (s ∷ rest) (suc i) t h k = (h.0, insert_at-EndsBy hi rest i t h.1 k)

pub EndsBy-mono : (lo hi : ℕ) (segs : List Segment) → lo ≤ hi → EndsBy lo segs → EndsBy hi segs
EndsBy-mono lo hi [] h k = tt
EndsBy-mono lo hi (s ∷ rest) h k = (omega arith, EndsBy-mono lo hi rest h k.1)

-- A fragment of `bytes` at `start` is `front` and then `back`.
abbrev pub Splits : ℕ → List ℕ → List ℕ → List ℕ → Type 0
Splits start bytes front back =
    (length bytes ≡ length front + length back)
    × ((x : ℕ)
        → fragment_at start bytes x
          ≡ or_else (fragment_at start front x) (fragment_at (start + length front) back x))

pub take-drop-Splits :
    (start k : ℕ) (bytes : List ℕ)
    → k ≤ length bytes
    → Splits start bytes (take k bytes) (drop k bytes)
take-drop-Splits start k bytes h =
    let e : length (take k bytes) ≡ k = omega (arith, length-take k bytes) in
    (
      omega (arith, length-take k bytes, length-drop k bytes),
      λ x. rw e (fragment-split start k bytes x),
    )

pub whole-Splits : (start : ℕ) (bytes : List ℕ) → Splits start bytes bytes []
whole-Splits start bytes = (
  omega arith,
  λ x. ground (
    arith,
    fragment-after (start + length bytes) [] x,
    fragment-before (start + length bytes) [] x,
    or_else-none (fragment_at start bytes x),
  ),
)

pub IsOrdered-full :
    (lo : ℕ) (segs : List Segment) (i : ℕ) (s : Segment)
    → IsOrdered lo segs
    → get_elem? segs i ≡ some s
    → 0 < length s.bytes
IsOrdered-full lo [] i s h e = cc
IsOrdered-full lo (t ∷ rest) zero s h e = ground (arith, h.1)
IsOrdered-full lo (t ∷ rest) (suc i) s h e = IsOrdered-full (seg_end t) rest i s h.2 e

pub fragment-append :
    (start : ℕ) (front back : List ℕ) (x : ℕ)
    → fragment_at start (front ++ back) x
      ≡ or_else (fragment_at start front x) (fragment_at (start + length front) back x)
fragment-append start front back x =
    simp
      (
        take-append_left front back (length front) refl,
        drop-append_left front back (length front) refl,
      )
      at (fragment-split start (length front) (front ++ back) x)

pub fragment-nil : (start x : ℕ) → fragment_at start [] x ≡ none
unfolding fragment_at
fragment-nil start x = ground arith
