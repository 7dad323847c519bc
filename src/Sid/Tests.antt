-- ===== src/Sid/Tests.antt =====
-- The theorems about qbase/src/sid.rs and its local and remote halves at concrete inputs.
use gm_quic.Prelude.{ℕ, ◌+◌, ◌*◌, ◌<◌, ◌≤◌, ◌≡◌, ◌⊎◌, ◌^◌, refl, [], ◌∷◌, ◌++◌, some, arith}
use gm_quic.Sid.{client, server, bi, uni, at, new, role, dir, id, next_unchecked}
use gm_quic.Sid.Laws.{new_fields}
use gm_quic.Sid.Local.{LocalStreamIds, Poll, ready, pending, recv_max_streams_frame, poll_alloc_sid}
use gm_quic.Sid.Local.Laws.{IsValid as LocalIsValid, recv_max_streams_frame_lem, poll_alloc_sid_lem}
use gm_quic.Sid.Concurrency.{demand_concurrency}
use gm_quic.Sid.Remote.{RemoteStreamIds}
use gm_quic.Sid.Remote.Laws.{try_accept_sid_lem, Accepts, IsValid}

new_fields_example :
    (sid : ℕ) × (new server uni 5 ≡ some sid)
    × (role sid ≡ server)
    × (dir sid ≡ uni)
    × (id sid ≡ 5)
    × (sid < 2 ^ 62)
    × (next_unchecked sid ≡ 27)
new_fields_example = new_fields server uni 5 (omega arith)

abbrev waiting : LocalStreamIds
waiting = record {
  role = client;
  max = record { at_bi = 2; at_uni = 1 };
  unallocated = record { at_bi = 2; at_uni = 0 };
  wakers = record { at_bi = 7 ∷ []; at_uni = [] };
  woken = [];
  frames = [];
}

waiting-IsValid : LocalIsValid waiting
waiting-IsValid = omega arith

recv_max_streams_frame_lem_example :
    (s' : LocalStreamIds) × (recv_max_streams_frame waiting bi 4 ≡ some s')
    × LocalIsValid s'
    × (s'.unallocated ≡ waiting.unallocated)
    × ((4 ≤ 2) × (s' ≡ waiting)
        ⊎ (2 < 4) × (at s'.max bi ≡ 4) × (at s'.wakers bi ≡ []) × (s'.woken ≡ [] ++ (7 ∷ [])))
recv_max_streams_frame_lem_example = recv_max_streams_frame_lem waiting-IsValid bi 4 (omega arith)

poll_alloc_sid_lem_example :
    (s' : LocalStreamIds) × (p : Poll) × (poll_alloc_sid waiting 9 bi ≡ some (s', p))
    × LocalIsValid s'
    × (s'.max ≡ waiting.max)
    × ((2 < 2)
          × (p ≡ ready (some (4 * 2 + 2 * 0 + 0)))
          × (at s'.unallocated bi ≡ 2 + 1)
          × (s'.frames ≡ [])
        ⊎ (◌≡◌ {A = ℕ} 2 2)
          × (p ≡ pending)
          × (s'.unallocated ≡ waiting.unallocated)
          × (at s'.wakers bi ≡ (7 ∷ []) ++ (9 ∷ []))
          × (s'.frames ≡ [] ++ ((bi, 2) ∷ [])))
poll_alloc_sid_lem_example = poll_alloc_sid_lem waiting-IsValid 9 bi

-- The peer is the client, may open bidirectional streams up to number 3, and has opened 0.
abbrev peer : RemoteStreamIds demand_concurrency
peer = record {
  role = client;
  max = record { at_bi = 3; at_uni = 1 };
  unallocated = record { at_bi = 4; at_uni = 2 };
  state = tt;
  frames = [];
}

ours : role 20 ≡ client
unfolding role
ours = refl

peer-IsValid : IsValid demand_concurrency peer
peer-IsValid bi = refl
peer-IsValid uni = refl

try_accept_sid_lem_example : Accepts demand_concurrency peer 20
try_accept_sid_lem_example =
    try_accept_sid_lem demand_concurrency peer 20 ours (omega arith) peer-IsValid tt
