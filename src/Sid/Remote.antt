-- ===== src/Sid/Remote.antt =====
-- qbase/src/sid/remote_sid.rs: the streams that the peer opens, under this endpoint's limits.
pub mod Laws
use gm_quic.Prelude.{
  ℕ, ◌+◌, ◌%◌, ◌^◌, List, [], ◌∷◌, ◌++◌, Option, none, some, ltb, leb, if◌then◌else◌, ◌>>=◌, ◌>>◌,
  guard, ◌&&◌, suc, zero, not,
}
use gm_quic.VarInt.{from_u64}
use gm_quic.Sid.{
  Role, Dir, bi, uni, ByDir, at, set_at, new, role, dir, id, next_unchecked, same_role,
}
use gm_quic.Sid.Concurrency.{ControlStreamsConcurrency}

pub data AcceptSid : Type 0 where
  old : AcceptSid
  new_sids : ℕ → ℕ → AcceptSid  -- `NeedCreate { start, end }`

-- `Result<AcceptSid, ExceedLimitError>`
pub data Accepted : Type 0 where
  accepted : AcceptSid → Accepted
  exceed_limit : ℕ → ℕ → Accepted

-- `NeedCreate::next`: the next identifier, and where the iterator then stands.
pub next : ℕ → ℕ → Option ℕ × ℕ
next start end = if ltb end start then (none, start) else (some start, next_unchecked start)

-- A `for` loop over the iterator, for as many rounds as the fuel has.
pub need_create : ℕ → ℕ → ℕ → List ℕ
need_create zero start end = []
need_create (suc fuel) start end =
    let (sid, start') = next start end in
    let rest = need_create fuel start' end in elim sid [ none ↦ [] | some x ↦ x ∷ rest ]

module _ (ctrl : ControlStreamsConcurrency) where
  open ctrl use {
    Ctrl, on_accept_streams, on_end_of_stream as ctrl_end, on_streams_blocked as ctrl_blocked,
  }

  -- `frames` holds the MAX_STREAMS frames that were sent, oldest first.
  pub record RemoteStreamIds : Type 0 where
    pub role : Role
    pub max : ByDir ℕ
    pub unallocated : ByDir ℕ
    pub state : Ctrl
    pub frames : List (Dir × ℕ)

  -- The limits, the state of the strategy and the frames, once the strategy has answered.
  grant : RemoteStreamIds → Dir → Ctrl × Option ℕ → Option RemoteStreamIds
  grant s d (c, none) = some (record s { state = c })
  grant s d (c, some max_streams) = from_u64 max_streams >>= λ limit. some (record s {
    max = set_at s.max d max_streams;
    state = c;
    frames = s.frames ++ ((d, limit) ∷ []);
  })

  pub new_ids : Role → ℕ → ℕ → Ctrl → Option RemoteStreamIds
  new_ids r max_bi max_uni c = new r bi 0 >>= λ first_bi. new r uni 0 >>= λ first_uni.
      some (record {
        role = r;
        max = record { at_bi = max_bi; at_uni = max_uni };
        unallocated = record { at_bi = first_bi; at_uni = first_uni };
        state = c;
        frames = [];
      })

  -- `none` is a panic: a `debug_assert` on the role, or the `expect` on the new limit.
  pub try_accept_sid : RemoteStreamIds → ℕ → Option (RemoteStreamIds × Accepted)
  unfolding grant
  try_accept_sid s sid =
      let d = dir sid in
      let cur = at s.unallocated d in
      if not (same_role (role sid) s.role)
      then none
      else if ltb (at s.max d) (id sid)
      then some (s, exceed_limit sid (at s.max d))
      else if ltb sid cur
      then some (s, accepted old)
      else (grant (record s { unallocated = set_at s.unallocated d (next_unchecked sid) }) d
            (on_accept_streams s.state d (id sid))
          >>= λ s'. some (s', accepted (new_sids cur sid)))

  pub on_end_of_stream : RemoteStreamIds → ℕ → Option RemoteStreamIds
  unfolding grant
  on_end_of_stream s sid =
      if same_role (role sid) s.role
      then grant s (dir sid) (ctrl_end s.state (dir sid) (id sid))
      else some s

  -- The frame is `StreamsBlockedFrame::Bi(max_streams)` or `Uni(max_streams)`.
  pub recv_streams_blocked_frame : RemoteStreamIds → Dir → ℕ → Option RemoteStreamIds
  unfolding grant
  recv_streams_blocked_frame s d max_streams = grant s d (ctrl_blocked s.state d max_streams)
