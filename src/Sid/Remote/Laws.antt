-- ===== src/Sid/Remote/Laws.antt =====
-- Lemmas on qbase/src/sid/remote_sid.rs.
use gm_quic.Prelude.{
  ◌⊎◌, inl, inr, ◌≤◌, ap, ◌∙◌, ltb, ltb→lt, ltb→le, Bool-cases, ◌%◌, ℕ, zero, suc, ◌+◌, ◌-◌, ◌*◌,
  ◌/◌, ◌^◌, ◌<◌, ◌≡◌, refl, List, [], ◌∷◌, ◌++◌, Option, none, some, arith, lt→ltb, le→ltb, true,
}
use gm_quic.VarInt.{from_u64}
use gm_quic.Sid.{
  bi, uni, dir_index, role_bit, Role, client, server, Dir, at, set_at, role, dir, id,
  next_unchecked, same_role,
}
use gm_quic.Sid.Concurrency.{ControlStreamsConcurrency}
use gm_quic.Sid.Laws.{sid_parts, role_bit-lt, dir_index-lt, at-set_at_self}
use gm_quic.Sid.Remote.{
  old, new_sids, accepted, exceed_limit, next, need_create, RemoteStreamIds, grant, try_accept_sid,
}

-- `n` identifiers of one role and direction, from `start` on.
abbrev pub consecutive : ℕ → ℕ → List ℕ
consecutive zero start = []
consecutive (suc n) start = start ∷ consecutive n (start + 4)

-- The iterator of `NeedCreate` yields every identifier from `start` to `end`, once, in order, and
-- then ends.
pub need_create-consecutive :
    (n fuel start end : ℕ)
    → end ≡ start + 4 * n
    → end + 4 < 2 ^ 64
    → n < fuel
    → need_create (suc fuel) start end ≡ consecutive (suc n) start
unfolding need_create next next_unchecked
need_create-consecutive zero zero start end e h k = absurd (omega arith)
need_create-consecutive zero (suc fuel) start end e h k = ground arith
need_create-consecutive (suc n) zero start end e h k = absurd (omega arith)
need_create-consecutive (suc n) (suc fuel) start end e h k =
    ground (arith, need_create-consecutive n fuel (start + 4) end)

same_role_refl : (r : Role) → same_role r r ≡ true
same_role_refl client = refl
same_role_refl server = refl

module _ (ctrl : ControlStreamsConcurrency) where
  open ctrl use {Ctrl, on_accept_streams}

  -- What the strategy answers can be sent in a frame.
  abbrev pub Encodable : Option ℕ → Type 0
  Encodable none = Unit {0}
  Encodable (some limit) = limit < 2 ^ 62

  grant-unallocated :
      (s : RemoteStreamIds ctrl) (d : Dir) (c : Ctrl) (answer : Option ℕ)
      → Encodable answer
      → (s' : RemoteStreamIds ctrl) × (grant ctrl s d (c, answer) ≡ some s')
        × (s'.unallocated ≡ s.unallocated)
        × (s'.role ≡ s.role)
  unfolding grant from_u64
  grant-unallocated s d c none h = (record s { state = c }, refl, refl, refl)
  grant-unallocated s d c (some limit) h = (
    record s { max = set_at s.max d limit; state = c; frames = s.frames ++ ((d, limit) ∷ []) },
    ground arith,
    refl,
    refl,
  )

  -- The first identifier that the peer has not opened is one of its own, in each direction.
  abbrev pub IsValid : RemoteStreamIds ctrl → Type 0
  IsValid s = (d : Dir) → at s.unallocated d % 4 ≡ 2 * dir_index d + role_bit s.role

  module _ (s : RemoteStreamIds ctrl) (sid : ℕ) where
    -- A new identifier opens every stream of its kind from the first one that was not yet open up
    -- to itself, each once and in order, and the next one to open comes after it.
    abbrev pub Opens : Type 0
    Opens =
        (s' : RemoteStreamIds ctrl) × (n : ℕ) × (try_accept_sid ctrl s sid
          ≡ some (s', accepted (new_sids (at s.unallocated (dir sid)) sid)))
        × IsValid s'
        × (at s'.unallocated (dir sid) ≡ sid + 4)
        × (sid ≡ at s.unallocated (dir sid) + 4 * n)
        × (need_create (suc (suc n)) (at s.unallocated (dir sid)) sid
            ≡ consecutive (suc n) (at s.unallocated (dir sid)))

    -- The answer to an identifier, in each of its three cases.
    abbrev pub Accepts : Type 0
    Accepts =
        ((at s.max (dir sid) < id sid)
          × (try_accept_sid ctrl s sid ≡ some (s, exceed_limit sid (at s.max (dir sid)))))
        ⊎ (((id sid ≤ at s.max (dir sid))
              × (sid < at s.unallocated (dir sid))
              × (try_accept_sid ctrl s sid ≡ some (s, accepted old)))
            ⊎ ((id sid ≤ at s.max (dir sid)) × (at s.unallocated (dir sid) ≤ sid) × Opens))

    sid_kind : role sid ≡ s.role → sid % 4 ≡ 2 * dir_index (dir sid) + role_bit s.role
    sid_kind ours =
        omega
          (arith, sid_parts sid, ap role_bit ours, dir_index-lt (dir sid), role_bit-lt (role sid))

    moved-IsValid :
        (s' : RemoteStreamIds ctrl) (d : Dir)
        → IsValid s
        → s'.unallocated ≡ set_at s.unallocated d (sid + 4)
        → s'.role ≡ s.role
        → sid % 4 ≡ 2 * dir_index d + role_bit s.role
        → IsValid s'
    moved-IsValid s' bi valid e same kind bi = ground arith
    moved-IsValid s' bi valid e same kind uni = ground (arith, valid uni)
    moved-IsValid s' uni valid e same kind bi = ground (arith, valid bi)
    moved-IsValid s' uni valid e same kind uni = ground arith

    module _ (ours : role sid ≡ s.role) where
      accept_exceeding :
          at s.max (dir sid) < id sid
          → try_accept_sid ctrl s sid ≡ some (s, exceed_limit sid (at s.max (dir sid)))
      unfolding try_accept_sid
      accept_exceeding h = rw (ours, same_role_refl, lt→ltb _ _ h)

      accept_old :
          id sid ≤ at s.max (dir sid)
          → sid < at s.unallocated (dir sid)
          → try_accept_sid ctrl s sid ≡ some (s, accepted old)
      unfolding try_accept_sid
      accept_old h k = rw (ours, same_role_refl, le→ltb _ _ h, lt→ltb _ _ k)

      accept_new :
          sid + 4 < 2 ^ 64
          → IsValid s
          → id sid ≤ at s.max (dir sid)
          → at s.unallocated (dir sid) ≤ sid
          → Encodable (on_accept_streams s.state (dir sid) (id sid)).1
          → Opens
      unfolding try_accept_sid next_unchecked
      accept_new fits valid h k enc =
          let d = dir sid in
          let cur = at s.unallocated d in
          let moved : RemoteStreamIds ctrl = record s {
            unallocated = set_at s.unallocated d (next_unchecked sid);
          } in
          let answer = on_accept_streams s.state d (id sid) in
          let n = (sid - cur) / 4 in
          let kind = sid_kind ours in
          let count : sid ≡ cur + 4 * n = omega (arith, valid d, kind) in
          let next : next_unchecked sid ≡ sid + 4 = omega arith in
          let (s', granted, kept, same) = grant-unallocated moved d answer.0 answer.1 enc in
          let kept' : s'.unallocated ≡ set_at s.unallocated d (sid + 4) =
            kept ∙ ap (set_at s.unallocated d) next in
          (
            s',
            n,
            rw (ours, same_role_refl, le→ltb _ _ h, le→ltb _ _ k, granted),
            moved-IsValid s' d valid kept' same kind,
            rw kept' (at-set_at_self s.unallocated d (sid + 4)),
            count,
            need_create-consecutive n (suc n) cur sid count fits (omega arith),
          )

      -- Given an identifier of the peer below 2 ^ 64 - 4, a valid state, and an answer of the
      -- strategy that a frame can carry: an identifier whose number is beyond the limit of its
      -- direction is refused and changes nothing; one within the limit that was opened before is
      -- old and changes nothing; any other opens every stream of its kind from the first one that
      -- was not open up to itself, each once and in order, after which the first one that is not
      -- open is the next of its kind and the state is valid.
      pub try_accept_sid_lem :
          sid + 4 < 2 ^ 64
          → IsValid s
          → Encodable (on_accept_streams s.state (dir sid) (id sid)).1
          → Accepts
      try_accept_sid_lem fits valid enc = elim (Bool-cases (ltb (at s.max (dir sid)) (id sid))) [
        | inl beyond ↦ inl (ltb→lt _ _ beyond, accept_exceeding (ltb→lt _ _ beyond))
        | inr within ↦ elim (Bool-cases (ltb sid (at s.unallocated (dir sid)))) [
          | inl before ↦ inr (
              inl (
                ltb→le _ _ within,
                ltb→lt _ _ before,
                accept_old (ltb→le _ _ within) (ltb→lt _ _ before),
              ))
          | inr fresh ↦ inr (
              inr (
                ltb→le _ _ within,
                ltb→le _ _ fresh,
                accept_new fits valid (ltb→le _ _ within) (ltb→le _ _ fresh) enc,
              ))
        ]
      ]
