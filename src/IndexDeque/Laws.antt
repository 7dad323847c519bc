-- ===== src/IndexDeque/Laws.antt =====
-- Lemmas on the indices of qbase/src/util/index_deque.rs.
use gm_quic.Prelude.{
  ℕ, ◌+◌, ◌-◌, ◌^◌, ◌≤◌, ◌<◌, ◌≡◌, ◌≢◌, refl, ap, List, [], ◌∷◌, ◌++◌, none, some, arith, ltb,
  if◌then◌else◌, length, get_elem?, set, drop, length-append, get_elem?-append_left,
  get_elem?-append_right, get_elem?-none, get_elem?-set_self, get_elem?-set_ne, get_elem?-drop,
  length-set, length-drop, Bool-cases, compare-cases, ltb→lt, ltb→le, ◌∙◌, sym, inl, inr,
}
use gm_quic.IndexDeque.{
  IndexDeque, exceed_limit, ok, err, len, largest, get, update, push_back, pop_front, advance,
}

module _ {ℓ} {T : Type ℓ} where
  -- The element at an index is that of the list, as far from the offset; out of range there is none.
  get-eq :
      (q : IndexDeque T) (idx : ℕ) → q.offset ≤ idx → get q idx ≡ get_elem? q.deque (idx - q.offset)
  unfolding get
  get-eq q idx h = ground (arith, get_elem?-none q.deque (idx - q.offset))

  pub get-below : (q : IndexDeque T) (idx : ℕ) → idx < q.offset → get q idx ≡ none
  unfolding get
  get-below q idx h = ground arith

  -- Reads of a queue with the same offset and other elements.
  get-eq_of :
      (q r : IndexDeque T) (idx : ℕ)
      → q.offset ≡ r.offset
      → get_elem? q.deque (idx - q.offset) ≡ get_elem? r.deque (idx - r.offset)
      → get q idx ≡ get r idx
  get-eq_of q r idx h e = elim (Bool-cases (ltb idx q.offset)) [
    | inl below ↦
        get-below q idx (ltb→lt _ _ below) ∙ sym (get-below r idx (rw (← h) (ltb→lt _ _ below)))
    | inr above ↦
        get-eq q idx (ltb→le _ _ above) ∙ e ∙ sym (get-eq r idx (rw (← h) (ltb→le _ _ above)))
  ]

  abbrev pushed : IndexDeque T → T → IndexDeque T
  pushed q v = record q { deque = q.deque ++ (v ∷ []) }

  push_back-eq :
      (limit : ℕ) (q : IndexDeque T) (v : T)
      → limit < 2 ^ 64
      → largest q ≤ limit
      → push_back limit q v ≡ (pushed q v, ok (largest q))
  unfolding push_back
  push_back-eq limit q v h k = ground arith

  get-pushed_last : (q : IndexDeque T) (v : T) → get (pushed q v) (largest q) ≡ some v
  get-pushed_last q v =
      get-eq (pushed q v) (largest q) (omega arith)
      ∙ get_elem?-append_right q.deque (v ∷ []) (largest q - q.offset) 0 (omega arith)

  get-pushed_ne : (q : IndexDeque T) (v : T) (i : ℕ) → i ≢ largest q → get (pushed q v) i ≡ get q i
  get-pushed_ne q v i h = elim (compare-cases i (largest q)) [
    | inl below ↦ elim (compare-cases i q.offset) [
      | inl less ↦ get-below (pushed q v) i less ∙ sym (get-below q i less)
      | inr more ↦
          get-eq_of (pushed q v) q i refl
            (get_elem?-append_left q.deque (v ∷ []) (i - q.offset) (omega arith))
    ]
    | inr (inl same) ↦ absurd (h same)
    | inr (inr above) ↦ get-eq_of (pushed q v) q i refl (
        get_elem?-none (q.deque ++ (v ∷ [])) (i - q.offset)
          (omega (arith, length-append q.deque (v ∷ [])))
        ∙ sym (get_elem?-none q.deque (i - q.offset) (omega arith)))
  ]

  -- Up to the limit `push_back` answers the index that the element has from then on, and no other
  -- index changes.
  pub push_back_lem :
      (limit : ℕ) (q : IndexDeque T) (v : T)
      → limit < 2 ^ 64
      → largest q ≤ limit
      → ((push_back limit q v).1 ≡ ok (largest q))
        × (get (push_back limit q v).0 (largest q) ≡ some v)
        × ((i : ℕ) → i ≢ largest q → get (push_back limit q v).0 i ≡ get q i)
  push_back_lem limit q v h k =
      rw (push_back-eq limit q v h k) (refl, get-pushed_last q v, get-pushed_ne q v)

  -- Beyond the limit `push_back` refuses, and the queue stays as it is.
  pub push_back-exceed_limit :
      (limit : ℕ) (q : IndexDeque T) (v : T)
      → limit < largest q
      → largest q < 2 ^ 64
      → push_back limit q v ≡ (q, err (exceed_limit (largest q) limit))
  unfolding push_back
  push_back-exceed_limit limit q v h k = ground arith

  -- Removing `n` elements at the front removes the `n` lowest indices, and no other index changes.
  abbrev dropped : IndexDeque T → ℕ → IndexDeque T
  dropped q n = record { deque = drop n q.deque; offset = q.offset + n }

  get-dropped : (q : IndexDeque T) (n i : ℕ) → q.offset + n ≤ i → get (dropped q n) i ≡ get q i
  get-dropped q n i h =
      let e : n + (i - (q.offset + n)) ≡ i - q.offset = omega arith in
      get-eq (dropped q n) i h
      ∙ get_elem?-drop n q.deque (i - (q.offset + n))
      ∙ ap (get_elem? q.deque) e
      ∙ sym (get-eq q i (omega arith))

  -- `advance` panics beyond the length; otherwise the indices below the new offset are gone, and
  -- all others are as before.
  pub advance_lem :
      (q : IndexDeque T) (n : ℕ)
      → n ≤ len q
      → (r : IndexDeque T) × (advance q n ≡ some r)
        × (largest r ≡ largest q)
        × ((i : ℕ) → get r i ≡ (if ltb i (q.offset + n) then none else get q i))
  unfolding advance
  advance_lem q n h = (
    dropped q n,
    ground arith,
    omega (arith, length-drop n q.deque),
    λ i. elim (Bool-cases (ltb i (q.offset + n))) [
      | inl below ↦ rw below (get-below (dropped q n) i (ltb→lt _ _ below))
      | inr above ↦ rw above (get-dropped q n i (ltb→le _ _ above))
    ],
  )

  abbrev written : IndexDeque T → ℕ → T → IndexDeque T
  written q idx v = record q { deque = set q.deque (idx - q.offset) v }

  get-written_ne :
      (q : IndexDeque T) (idx i : ℕ) (v : T)
      → q.offset ≤ idx
      → i ≢ idx
      → get (written q idx v) i ≡ get q i
  get-written_ne q idx i v h ne = elim (Bool-cases (ltb i q.offset)) [
    | inl below ↦
        get-below (written q idx v) i (ltb→lt _ _ below) ∙ sym (get-below q i (ltb→lt _ _ below))
    | inr above ↦ get-eq_of (written q idx v) q i refl (
        get_elem?-set_ne q.deque (idx - q.offset) (i - q.offset) v
          (λ e. ne (omega (arith, ltb→le _ _ above))))
  ]

  -- A write through `get_mut` at an index that is there is read back, and no other index changes.
  pub update_lem :
      (q : IndexDeque T) (idx : ℕ) (v : T)
      → q.offset ≤ idx
      → idx < largest q
      → (r : IndexDeque T) × (update q idx v ≡ r)
        × (get r idx ≡ some v)
        × ((i : ℕ) → i ≢ idx → get r i ≡ get q i)
        × (r.offset ≡ q.offset)
        × (len r ≡ len q)
  unfolding update
  update_lem q idx v h k = (
    written q idx v,
    ground arith,
    get-eq (written q idx v) idx h ∙ get_elem?-set_self q.deque (idx - q.offset) v (omega arith),
    λ i ne. get-written_ne q idx i v h ne,
    refl,
    length-set q.deque (idx - q.offset) v,
  )

  abbrev queue : List T → ℕ → IndexDeque T
  queue xs o = record { deque = xs; offset = o }

  -- What a call of `pop_front` owes.
  abbrev pub Pops : IndexDeque T → Type ℓ
  Pops q =
      (r : IndexDeque T) × (v : T) × (pop_front q ≡ (r, some (q.offset, v)))
      × (get q q.offset ≡ some v)
      × (r.offset ≡ q.offset + 1)
      × ((i : ℕ) → q.offset < i → get r i ≡ get q i)

  queue-Pops : (xs : List T) (o : ℕ) → 0 < length xs → Pops (queue xs o)
  unfolding pop_front
  queue-Pops [] o h = absurd (omega arith)
  queue-Pops (x ∷ xs) o h = (
    queue xs (o + 1),
    x,
    refl,
    get-eq (queue (x ∷ xs) o) o (omega arith) ∙ ap (get_elem? (x ∷ xs)) (nothing o),
    refl,
    λ i k. get-dropped (queue (x ∷ xs) o) 1 i (omega arith),
  )
    where
      nothing : (n : ℕ) → n - n ≡ 0
      nothing n = omega arith

  -- `pop_front` takes the element at the lowest index, with that index; no other index changes.
  pub pop_front_lem : (q : IndexDeque T) → 0 < len q → Pops q
  pop_front_lem q h = queue-Pops q.deque q.offset h
