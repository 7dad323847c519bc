-- ===== src/Sid/Local/Laws.antt =====
-- Lemmas on qbase/src/sid/local_sid.rs.
use gm_quic.Prelude.{
  ℕ, ◌+◌, ◌*◌, ◌≤◌, ◌<◌, ◌≡◌, ◌⊎◌, inl, inr, refl, [], ◌∷◌, ◌++◌, some, arith, ltb, Bool-cases,
  ltb→lt, ltb→le,
}
use gm_quic.VarInt.{from_u64}
use gm_quic.Sid.{Role, Dir, bi, uni, dir_index, role_bit, at, set_at, max_streams_limit}
use gm_quic.Sid.Laws.{new_lem, at-set_at_self}
use gm_quic.Sid.Local.{
  LocalStreamIds, Poll, ready, pending, new_ids, recv_max_streams_frame, poll_alloc_sid,
}

-- No limit, and no count of streams, goes beyond what an identifier can hold.
pub record IsValid (s : LocalStreamIds) : Type 0 where
  pub limit_bi : s.max.at_bi ≤ max_streams_limit
  pub limit_uni : s.max.at_uni ≤ max_streams_limit
  pub count_bi : s.unallocated.at_bi ≤ s.max.at_bi
  pub count_uni : s.unallocated.at_uni ≤ s.max.at_uni

pub new_ids-IsValid :
    (r : Role) (b u : ℕ) → b ≤ max_streams_limit → u ≤ max_streams_limit → IsValid (new_ids r b u)
unfolding new_ids
new_ids-IsValid r b u h k = ground arith

module _ {s : LocalStreamIds} (v : IsValid s) where
  limit_at : (d : Dir) → at s.max d ≤ max_streams_limit
  limit_at bi = v.limit_bi
  limit_at uni = v.limit_uni

  count_at : (d : Dir) → at s.unallocated d ≤ at s.max d
  count_at bi = v.count_bi
  count_at uni = v.count_uni

  -- The states that the two operations lead to.
  abbrev raised : Dir → ℕ → LocalStreamIds
  raised d val = record s {
    max = set_at s.max d val;
    wakers = set_at s.wakers d [];
    woken = s.woken ++ at s.wakers d;
  }

  abbrev opened : Dir → LocalStreamIds
  opened d = record s { unallocated = set_at s.unallocated d (at s.unallocated d + 1) }

  abbrev blocked : Dir → ℕ → LocalStreamIds
  blocked d waker = record s {
    wakers = set_at s.wakers d (at s.wakers d ++ (waker ∷ []));
    frames = s.frames ++ ((d, at s.max d) ∷ []);
  }

  raised-IsValid :
      (d : Dir) (val : ℕ) → at s.max d < val → val ≤ max_streams_limit → IsValid (raised d val)
  raised-IsValid bi val h k = ground arith
  raised-IsValid uni val h k = ground arith

  opened-IsValid : (d : Dir) → at s.unallocated d < at s.max d → IsValid (opened d)
  opened-IsValid bi h = ground arith
  opened-IsValid uni h = ground arith

  -- In a valid state, where the limits are at most 2 ^ 60 - 1 and each direction has handed out no
  -- more identifiers than its limit: a MAX_STREAMS frame that the frame parser admits raises the
  -- limit of its direction or changes nothing; where it raises it, everyone who waits is woken, and
  -- nobody waits any more.
  pub recv_max_streams_frame_lem :
      (d : Dir) (val : ℕ)
      → val ≤ max_streams_limit
      → (s' : LocalStreamIds) × (recv_max_streams_frame s d val ≡ some s')
        × IsValid s'
        × (s'.unallocated ≡ s.unallocated)
        × ((val ≤ at s.max d) × (s' ≡ s)
            ⊎ (at s.max d < val)
              × (at s'.max d ≡ val)
              × (at s'.wakers d ≡ [])
              × (s'.woken ≡ s.woken ++ at s.wakers d))
  unfolding recv_max_streams_frame
  recv_max_streams_frame_lem d val h = elim (Bool-cases (ltb (at s.max d) val)) [
    | inl more ↦ (
      raised d val,
      ground arith,
      raised-IsValid d val (ltb→lt _ _ more) h,
      refl,
      inr (ltb→lt _ _ more, at-set_at_self s.max d val, at-set_at_self s.wakers d [], refl),
    )
    | inr less ↦ (s, ground arith, v, refl, inl (ltb→le _ _ less, refl))
  ]

  -- Everything that `poll_alloc_sid` may do in a valid state, where the limits are at most
  -- 2 ^ 60 - 1 and each direction has handed out no more identifiers than its limit: below the limit
  -- it hands out the identifier of the next number, and at the limit it records the waker and sends
  -- a STREAMS_BLOCKED frame with the limit. In such a state it does not panic or answer that
  -- identifiers have run out, and the state stays valid.
  pub poll_alloc_sid_lem :
      (waker : ℕ) (d : Dir)
      → (s' : LocalStreamIds) × (p : Poll) × (poll_alloc_sid s waker d ≡ some (s', p))
        × IsValid s'
        × (s'.max ≡ s.max)
        × ((at s.unallocated d < at s.max d)
              × (p ≡ ready (some (4 * at s.unallocated d + 2 * dir_index d + role_bit s.role)))
              × (at s'.unallocated d ≡ at s.unallocated d + 1)
              × (s'.frames ≡ s.frames)
            ⊎ (at s.unallocated d ≡ at s.max d)
              × (p ≡ pending)
              × (s'.unallocated ≡ s.unallocated)
              × (at s'.wakers d ≡ at s.wakers d ++ (waker ∷ []))
              × (s'.frames ≡ s.frames ++ ((d, at s.max d) ∷ [])))
  unfolding poll_alloc_sid from_u64
  poll_alloc_sid_lem waker d = elim (Bool-cases (ltb (at s.unallocated d) (at s.max d))) [
    | inl less ↦ (
      opened d,
      _,
      ground (arith, limit_at d, new_lem s.role d (at s.unallocated d)),
      opened-IsValid d (ltb→lt _ _ less),
      refl,
      inl (ltb→lt _ _ less, refl, at-set_at_self s.unallocated d _, refl),
    )
    | inr full ↦ (
      blocked d waker,
      pending,
      ground (arith, limit_at d, count_at d),
      ground arith,
      refl,
      inr (
        omega (arith, ltb→le _ _ full, count_at d),
        refl,
        refl,
        at-set_at_self s.wakers d _,
        refl,
      ),
    )
  ]
