-- ===== src/Sid/Local.antt =====
-- qbase/src/sid/local_sid.rs: the streams that this endpoint opens, under the peer's limits.
-- A waker is a number; `woken` and `frames` are what the calls woke and sent, oldest first.
pub mod Laws
use gm_quic.Prelude.{
  ℕ, ◌+◌, ◌%◌, ◌^◌, List, [], ◌∷◌, ◌++◌, Option, none, some, ltb, leb, if◌then◌else◌, ◌>>=◌, ◌>>◌,
  guard,
}
use gm_quic.VarInt.{from_u64}
use gm_quic.Sid.{Role, Dir, ByDir, at, set_at, max_streams_limit, new}

pub record LocalStreamIds : Type 0 where
  pub role : Role
  pub max : ByDir ℕ
  pub unallocated : ByDir ℕ
  pub wakers : ByDir (List ℕ)
  pub woken : List ℕ
  pub frames : List (Dir × ℕ)

-- `Poll<Option<StreamId>>`
pub data Poll : Type 0 where
  ready : Option ℕ → Poll
  pending : Poll

pub new_ids : Role → ℕ → ℕ → LocalStreamIds
new_ids r max_bi_streams max_uni_streams = record {
  role = r;
  max = record { at_bi = max_bi_streams; at_uni = max_uni_streams };
  unallocated = record { at_bi = 0; at_uni = 0 };
  wakers = record { at_bi = []; at_uni = [] };
  woken = [];
  frames = [];
}

-- `MaxStreamsFrame::Bi(val)` or `Uni(val)`; `none` is the failed `assert!`.
pub recv_max_streams_frame : LocalStreamIds → Dir → ℕ → Option LocalStreamIds
recv_max_streams_frame s d val = do
  guard (leb val max_streams_limit)
  some (
      if ltb (at s.max d) val
      then record s {
        max = set_at s.max d val;
        wakers = set_at s.wakers d [];
        woken = s.woken ++ at s.wakers d;
      }
      else s)

-- The waker is that of the context. `none` is a panic of `StreamId::new` or of the `expect`.
pub poll_alloc_sid : LocalStreamIds → ℕ → Dir → Option (LocalStreamIds × Poll)
poll_alloc_sid s waker d =
    let cur = at s.unallocated d in
    if ltb max_streams_limit cur
    then some (s, ready none)
    else if ltb cur (at s.max d)
    then (new s.role d cur >>= λ sid.
        some (record s { unallocated = set_at s.unallocated d (cur + 1) }, ready (some sid)))
    else (from_u64 (at s.max d) >>= λ limit. some (
      record s {
        wakers = set_at s.wakers d (at s.wakers d ++ (waker ∷ []));
        frames = s.frames ++ ((d, limit) ∷ []);
      },
      pending,
    ))
