-- ===== src/Recver/Tests.antt =====
-- The receiving stream on small inputs. Wakers are numbers.
use gm_quic.Prelude.{ℕ, ◌≤◌, ◌≡◌, refl, [], ◌∷◌, none, some, true, false}
use gm_quic.Bytes.{list_bytes}
use gm_quic.RecvBuf.{empty, is_readable, recv, round, search_from, available, is_empty, try_read}
use gm_quic.Recver.{
  StreamFrame, Recver, ok, recv_state, size_known, data_rcvd, new, recv_data, poll_read,
}
use gm_quic.Recver.States.{IsSound, IsPast, rank}
use gm_quic.Recver.Arrival.{Done, recv_data_lem}
use gm_quic.Recver.Life.{Reach, start, arrives, reads, next, reach-IsSound, Step-rank}
use gm_quic.Recver.Past.{given_of, final_of, reach-IsPast}

abbrev late : StreamFrame
late = record { offset = 2; len = 2; fin = true }

abbrev early : StreamFrame
early = record { offset = 0; len = 2; fin = false }

-- A reader that waits, with a limit of ten bytes.
abbrev waits : Recver ℕ
waits = recv_state (record {
  rcvbuf = empty;
  read_waker = some 7;
  stop_state = none;
  largest = 0;
  max_stream_data = 10;
})

waits-Reach : Reach list_bytes 10 waits
unfolding new poll_read is_readable
waits-Reach = next 10 (new 10) waits (start 10) (reads (new 10) 7 4)

recv_data_lem_example : Done list_bytes waits (recv_data list_bytes waits late (3 ∷ 4 ∷ []))
recv_data_lem_example =
    recv_data_lem list_bytes waits late (3 ∷ 4 ∷ []) (reach-IsSound list_bytes 10 waits waits-Reach)
      refl

-- The end of the stream arrives first, and the reader is woken; then the beginning.
abbrev ended : Recver ℕ
ended = size_known (record {
  rcvbuf = record {
    nread = 0;
    largest_offset = 4;
    segments = record { offset = 2; bytes = 3 ∷ 4 ∷ [] } ∷ [];
  };
  read_waker = none;
  stop_state = none;
  final_size = 4;
})

abbrev whole : Recver ℕ
whole = data_rcvd (record {
  nread = 0;
  largest_offset = 4;
  segments =
      record { offset = 0; bytes = 1 ∷ 2 ∷ [] } ∷ record { offset = 2; bytes = 3 ∷ 4 ∷ [] } ∷ [];
})

end_arrives : recv_data list_bytes waits late (3 ∷ 4 ∷ []) ≡ some (ended, 7 ∷ [], ok (false, 4))
unfolding recv_data recv round search_from available is_readable
end_arrives = refl

rest_arrives : recv_data list_bytes ended early (1 ∷ 2 ∷ []) ≡ some (whole, [], ok (true, 0))
unfolding recv_data recv round search_from available is_readable
rest_arrives = refl

whole-Reach : Reach list_bytes 10 whole
whole-Reach =
    next 10 ended whole
      (next 10 waits ended waits-Reach
        (arrives waits ended late (3 ∷ 4 ∷ []) (7 ∷ []) (ok (false, 4)) refl end_arrives))
      (arrives ended whole early (1 ∷ 2 ∷ []) [] (ok (true, 0)) refl rest_arrives)

-- The reader takes three bytes of the four.
abbrev one_left : Recver ℕ
one_left = data_rcvd (record {
  nread = 3;
  largest_offset = 4;
  segments = record { offset = 3; bytes = 4 ∷ [] } ∷ [];
})

one_left-Reach : Reach list_bytes 10 one_left
unfolding poll_read is_empty try_read
one_left-Reach = next 10 whole one_left whole-Reach (reads whole 8 3)

reach-IsPast_example :
    IsSound one_left
    × IsPast
        (given_of list_bytes 10 one_left one_left-Reach)
        (final_of list_bytes 10 one_left one_left-Reach)
        one_left
reach-IsPast_example = reach-IsPast list_bytes 10 one_left one_left-Reach

Step-rank_example : rank waits ≤ rank (poll_read list_bytes waits 8 4).0
Step-rank_example =
    Step-rank list_bytes 10 waits (poll_read list_bytes waits 8 4).0 waits-Reach (reads waits 8 4)
