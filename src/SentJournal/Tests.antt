-- ===== src/SentJournal/Tests.antt =====
-- The journal of sent packets on small inputs.
use gm_quic.Prelude.{ℕ, ◌≡◌, refl, List, [], ◌∷◌, ◌++◌, some, arith, true, false}
use gm_quic.SentJournal.{
  SentJournal, skipped, flighting, retransmitted, acked, nframes, new_journal, on_packet_acked,
  may_loss_packet, resize, fast_retransmit,
}
use gm_quic.SentJournal.Packets.{Packet, IsCounted, journal, all_frames}
use gm_quic.SentJournal.Refine.{
  on_packet_acked_lem, may_loss_packet_lem, at_number, acknowledge, lose, in_journal,
}
use gm_quic.SentJournal.Rotate.{resize_lem, rotate}
use gm_quic.SentJournal.Retransmit.{fast_retransmit_lem, retransmit_due}
use gm_quic.SentJournal.Send.{send, sent_packet, send_lem}
use gm_quic.SentJournal.Reach.{sends, Reach, start, next}
use gm_quic.SentJournal.Safety.{on_packet_acked-twice, fast_retransmit-IsSafe, frame_count}

abbrev packets : List (Packet ℕ)
packets =
    record { state = acked 1 0 30; frames = 9 ∷ [] }
    ∷ record { state = flighting 2 0 30 10; frames = 10 ∷ 11 ∷ [] }
    ∷ record { state = skipped; frames = [] }
    ∷ record { state = retransmitted 1 0 30; frames = 12 ∷ [] }
    ∷ []

packets-IsCounted : IsCounted packets
unfolding nframes
packets-IsCounted = (refl, (refl, (refl, (refl, tt))))

on_packet_acked_lem_example :
    on_packet_acked (journal 5 packets 4) 6 ≡ in_journal 5 4 (at_number acknowledge 5 packets 6)
on_packet_acked_lem_example = on_packet_acked_lem 5 4 packets packets-IsCounted 6

may_loss_packet_lem_example :
    may_loss_packet (journal 5 packets 4) 8 ≡ in_journal 5 4 (at_number lose 5 packets 8)
may_loss_packet_lem_example = may_loss_packet_lem 5 4 packets packets-IsCounted 8

resize_lem_example :
    let (offset, ps) = rotate 20 5 packets in
    (resize (journal 5 packets 4) 20 ≡ some (journal offset ps 4)) × IsCounted ps
resize_lem_example = resize_lem 20 5 4 packets packets-IsCounted

fast_retransmit_lem_example :
    let (offset, kept) = rotate 20 5 packets in
    let (ps, frames) = retransmit_due 20 8 offset kept in
    (fast_retransmit (journal 5 packets 8) 20 ≡ some (journal offset ps 8, frames))
    × (all_frames ps ≡ all_frames kept)
    × IsCounted ps
fast_retransmit_lem_example = fast_retransmit_lem 20 5 8 packets packets-IsCounted

send_lem_example :
    (send (journal 5 packets 4) true (13 ∷ 14 ∷ []) 40 100 300
      ≡ some (journal 5 (packets ++ sent_packet true (13 ∷ 14 ∷ []) 40 100 300) 4))
    × IsCounted (packets ++ sent_packet true (13 ∷ 14 ∷ []) 40 100 300)
send_lem_example =
    send_lem 5 4 packets (omega arith) true (13 ∷ 14 ∷ []) 40 100 300 packets-IsCounted

abbrev sent : SentJournal ℕ
sent = journal 0 (sent_packet false (13 ∷ 14 ∷ []) 40 100 300) 0

sent-Reach : Reach sent
sent-Reach = next new_journal sent start (
    sends new_journal sent false (13 ∷ 14 ∷ []) 40 100 300 (omega arith)
      (send_lem 0 0 [] (omega arith) false (13 ∷ 14 ∷ []) 40 100 300 tt).0)

on_packet_acked-twice_example :
    (j : SentJournal ℕ) × (frames : List ℕ) × (on_packet_acked sent 0 ≡ some (j, frames))
    × (on_packet_acked j 0 ≡ some (j, []))
on_packet_acked-twice_example = on_packet_acked-twice sent sent-Reach 0

fast_retransmit-IsSafe_example :
    (2 ≡ frame_count sent.sent_packets.deque)
    × ((j : SentJournal ℕ) × (resize sent 200 ≡ some j))
    × ((j : SentJournal ℕ) × (frames : List ℕ) × (fast_retransmit sent 200 ≡ some (j, frames)))
fast_retransmit-IsSafe_example = fast_retransmit-IsSafe sent sent-Reach 200
