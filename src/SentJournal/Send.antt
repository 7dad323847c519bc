-- ===== src/SentJournal/Send.antt =====
-- A packet that is sent: the calls of `NewPacketGuard` in the order in which a packet makes them.
use gm_quic.Prelude.{
  ℕ, suc, ◌+◌, ◌-◌, ◌≤◌, ◌≡◌, refl, ap, sym, ◌∙◌, List, [], ◌∷◌, ◌++◌, Option, some, arith, ltb,
  ◌==◌, if◌then◌else◌, ◌&&◌, length, length-append, true, false, Bool,
}
use mathlib.Core.List.{append_assoc, append-nil}
use gm_quic.IndexDeque.{push_back}
use gm_quic.VarInt.{varint_max}
use gm_quic.SentJournal.{
  SentPktState, skipped, flighting, SentJournal, NewPacketGuard, nframes, new_packet, record_frame,
  record_trivial, build_with_time, push_packet, new_state,
}
use gm_quic.SentJournal.Packets.{Packet, states, all_frames, IsCounted, journal, length-states}

module _ {ℓ} {T : Type ℓ} where
  abbrev record_frames : NewPacketGuard T → List T → NewPacketGuard T
  record_frames g [] = g
  record_frames g (f ∷ fs) = record_frames (record_frame g f) fs

  -- A packet with the frames `fs` that need retransmission, and perhaps trivial ones: the calls of
  -- a guard from `new_packet` to `build_with_time`.
  abbrev pub send : SentJournal T → Bool → List T → ℕ → ℕ → ℕ → Option (SentJournal T)
  send j trivial fs now retran expire =
      let g = new_packet j in
      build_with_time (record_frames (if trivial then record_trivial g else g) fs) now retran expire

  -- The packet that is sent so, if there is anything in it.
  abbrev pub sent_packet : Bool → List T → ℕ → ℕ → ℕ → List (Packet T)
  sent_packet trivial (f ∷ fs) now retran expire =
      record {
        state = flighting (length (f ∷ fs)) now (now + expire) (now + retran);
        frames = f ∷ fs;
      }
      ∷ []
  sent_packet true [] now retran expire = record { state = skipped; frames = [] } ∷ []
  sent_packet false [] now retran expire = []

  record_frames_lem :
      (g : NewPacketGuard T) (fs : List T)
      → record_frames g fs ≡ record g { inner = record (g.inner) { queue = g.inner.queue ++ fs } }
  unfolding record_frame
  record_frames_lem g [] =
      ap (λ q. record g { inner = record (g.inner) { queue = q } }) (sym (append-nil g.inner.queue))
  record_frames_lem g (f ∷ fs) =
      record_frames_lem (record_frame g f) fs
      ∙ ap (λ q. record g { inner = record (g.inner) { queue = q } })
          (append_assoc g.inner.queue (f ∷ []) fs)

  states-append : (ps qs : List (Packet T)) → states (ps ++ qs) ≡ states ps ++ states qs
  states-append [] qs = refl
  states-append (p ∷ ps) qs = ap (λ t. p.state ∷ t) (states-append ps qs)

  all_frames-append :
      (ps qs : List (Packet T)) → all_frames (ps ++ qs) ≡ all_frames ps ++ all_frames qs
  all_frames-append [] qs = refl
  all_frames-append (p ∷ ps) qs =
      ap (λ t. p.frames ++ t) (all_frames-append ps qs)
      ∙ sym (append_assoc p.frames (all_frames ps) (all_frames qs))

  IsCounted-append : (ps qs : List (Packet T)) → IsCounted ps → IsCounted qs → IsCounted (ps ++ qs)
  IsCounted-append [] qs c d = d
  IsCounted-append (p ∷ ps) qs c d = (c.0, IsCounted-append ps qs c.1 d)

  sent_packet-IsCounted :
      (trivial : Bool) (fs : List T) (now retran expire : ℕ)
      → IsCounted (sent_packet trivial fs now retran expire)
  unfolding nframes
  sent_packet-IsCounted trivial (f ∷ fs) now retran expire = (refl, tt)
  sent_packet-IsCounted true [] now retran expire = (refl, tt)
  sent_packet-IsCounted false [] now retran expire = tt

  module _ (offset largest_acked : ℕ) (ps : List (Packet T))
      (room : offset + length ps ≤ varint_max) where
    push_packet_lem :
        (fs : List T) (s : SentPktState)
        → push_packet (record (journal offset ps largest_acked) { queue = all_frames ps ++ fs }) s
          ≡ some (journal offset (ps ++ (record { state = s; frames = fs } ∷ [])) largest_acked)
    unfolding push_packet push_back
    push_packet_lem fs s = ground (
      arith,
      length-states ps,
      states-append ps (record { state = s; frames = fs } ∷ []),
      all_frames-append ps (record { state = s; frames = fs } ∷ []),
      append-nil fs,
    )

    built :
        (trivial : Bool) (fs : List T) (now retran expire : ℕ)
        → build_with_time
            (record {
              trivial = trivial;
              origin_len = length (all_frames ps);
              inner = record (journal offset ps largest_acked) { queue = all_frames ps ++ fs };
            })
            now
            retran
            expire
          ≡ some (journal offset (ps ++ sent_packet trivial fs now retran expire) largest_acked)
    unfolding build_with_time new_state
    built true [] now retran expire =
        let same : length (all_frames ps ++ []) - length (all_frames ps) ≡ 0 =
          ground (arith, append-nil (all_frames ps)) in
        rw (same, build_with_time) (push_packet_lem [] skipped)
    built false [] now retran expire =
        let same : length (all_frames ps ++ []) - length (all_frames ps) ≡ 0 =
          ground (arith, append-nil (all_frames ps)) in
        rw (same, append-nil (all_frames ps), append-nil ps, build_with_time)
    built trivial (f ∷ fs) now retran expire =
        let many : length (all_frames ps ++ (f ∷ fs)) - length (all_frames ps) ≡ suc (length fs) =
          omega (arith, length-append (all_frames ps) (f ∷ fs)) in
        let not_zero : (suc (length fs) == 0) ≡ false = ground arith in
        let positive : ltb 0 (suc (length fs)) ≡ true = ground arith in
        rw (many, not_zero, positive, build_with_time) (both trivial)
      where
        both :
            (b : Bool)
            → (if b && false
                then push_packet
                    (record (journal offset ps largest_acked) { queue = all_frames ps ++ (f ∷ fs) })
                    skipped
                else push_packet
                    (record (journal offset ps largest_acked) { queue = all_frames ps ++ (f ∷ fs) })
                    (flighting (suc (length fs)) now (now + expire) (now + retran)))
              ≡ some (journal offset (ps ++ sent_packet b (f ∷ fs) now retran expire) largest_acked)
        both true =
            push_packet_lem (f ∷ fs) (flighting (suc (length fs)) now (now + expire) (now + retran))
        both false =
            push_packet_lem (f ∷ fs) (flighting (suc (length fs)) now (now + expire) (now + retran))

    -- A packet with the frames `fs` joins the journal behind the others, with a state that counts
    -- its frames; a packet with nothing in it is not sent, and one of trivial frames alone takes a
    -- number but holds no frames. The packets that are in the journal stay as they are.
    pub send_lem :
        (trivial : Bool) (fs : List T) (now retran expire : ℕ)
        → IsCounted ps
        → (send (journal offset ps largest_acked) trivial fs now retran expire
            ≡ some (journal offset (ps ++ sent_packet trivial fs now retran expire) largest_acked))
          × IsCounted (ps ++ sent_packet trivial fs now retran expire)
    unfolding new_packet record_trivial
    send_lem trivial fs now retran expire c = (
      sent trivial,
      IsCounted-append ps (sent_packet trivial fs now retran expire) c
          (sent_packet-IsCounted trivial fs now retran expire),
    )
      where
        sent :
            (b : Bool)
            → send (journal offset ps largest_acked) b fs now retran expire
              ≡ some (journal offset (ps ++ sent_packet b fs now retran expire) largest_acked)
        sent true =
            ap (λ g. build_with_time g now retran expire)
              (record_frames_lem (record_trivial (new_packet (journal offset ps largest_acked))) fs)
            ∙ built true fs now retran expire
        sent false =
            ap (λ g. build_with_time g now retran expire)
              (record_frames_lem (new_packet (journal offset ps largest_acked)) fs)
            ∙ built false fs now retran expire
