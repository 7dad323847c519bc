-- ===== src/SentJournal/Reach.antt =====
-- The operations on the journal of sent packets, in any order, from an empty one.
use gm_quic.Prelude.{
  ℕ, ◌+◌, ◌≤◌, ◌≡◌, refl, ap, sym, subst, ◌∙◌, List, [], ◌∷◌, ◌++◌, Option, none, some, arith, ltb,
  ◌==◌, ◌>>=◌, length, Bool-cases, Bool, inl, inr,
}
use mathlib.Core.Option.{some-injective}
use gm_quic.IndexDeque.{largest}
use gm_quic.VarInt.{varint_max}
use gm_quic.SentJournal.{
  SentPktState, skipped, flighting, retransmitted, acked, SentJournal, nframes, new_journal,
  on_packet_acked, may_loss_packet, update_largest, resize, fast_retransmit,
}
use gm_quic.SentJournal.Packets.{Packet, states, IsCounted, journal, length-states}
use gm_quic.SentJournal.Refine.{
  Action, at_number, acknowledge, lose, in_journal, on_packet_acked_lem, may_loss_packet_lem,
}
use gm_quic.SentJournal.Rotate.{rotate, resize_lem}
use gm_quic.SentJournal.Retransmit.{retransmit_due, fast_retransmit_lem}
use gm_quic.SentJournal.Send.{send, sent_packet, send_lem}

module _ {ℓ} {T : Type ℓ} where
  -- One operation on the journal, that does not panic and is not refused.
  pub data Step : SentJournal T → SentJournal T → Type ℓ where
    sends :
        (j j' : SentJournal T) (trivial : Bool) (fs : List T) (now retran expire : ℕ)
        → largest j.sent_packets ≤ varint_max
        → send j trivial fs now retran expire ≡ some j'
        → Step j j'
    hears :
        (j j' : SentJournal T) (pn : ℕ) (frames : List T)
        → on_packet_acked j pn ≡ some (j', frames)
        → Step j j'
    loses :
        (j j' : SentJournal T) (pn : ℕ) (frames : List T)
        → may_loss_packet j pn ≡ some (j', frames)
        → Step j j'
    learns :
        (j j' : SentJournal T) (acked_largest : ℕ)
        → update_largest j acked_largest ≡ some j'
        → Step j j'
    rotates : (j j' : SentJournal T) (now : ℕ) → resize j now ≡ some j' → Step j j'
    repeats :
        (j j' : SentJournal T) (now : ℕ) (frames : List T)
        → fast_retransmit j now ≡ some (j', frames)
        → Step j j'

  pub data Reach : SentJournal T → Type ℓ where
    start : Reach new_journal
    next : (j j' : SentJournal T) → Reach j → Step j j' → Reach j'

  -- A journal of packets that count their frames.
  abbrev pub IsJournal : SentJournal T → Type ℓ
  IsJournal j =
      (offset largest_acked : ℕ) × (ps : List (Packet T)) × (j ≡ journal offset ps largest_acked)
      × IsCounted ps

  -- An action that keeps the number of frames in a packet.
  abbrev pub IsKeeping : Action T → Type ℓ
  IsKeeping act =
      (s : SentPktState) (fs : List T) (r : SentPktState × List T)
      → act (record { state = s; frames = fs }) ≡ some r
      → nframes r.0 ≡ nframes s

  pub acknowledge-IsKeeping : IsKeeping acknowledge
  unfolding nframes
  acknowledge-IsKeeping skipped fs r e = ground arith
  acknowledge-IsKeeping (flighting n t x y) fs r e = ground arith
  acknowledge-IsKeeping (retransmitted n t x) fs r e = ground arith
  acknowledge-IsKeeping (acked n t x) fs r e = ground arith

  lose-IsKeeping : IsKeeping lose
  unfolding nframes
  lose-IsKeeping skipped fs r e = ground arith
  lose-IsKeeping (flighting n t x y) fs r e = ground arith
  lose-IsKeeping (retransmitted n t x) fs r e = ground arith
  lose-IsKeeping (acked n t x) fs r e = cc

  pub at_number-IsCounted :
      (act : Action T)
      → IsKeeping act
      → (i : ℕ) (ps : List (Packet T)) (pn : ℕ) (r : List (Packet T) × List T) → IsCounted ps
      → at_number act i ps pn ≡ some r
      → IsCounted r.0
  at_number-IsCounted act keeps i [] pn r c e =
      subst IsCounted (ap (λ q. q.0) (some-injective _ _ e)) tt
  at_number-IsCounted act keeps i (p ∷ ps) pn r c e = elim (Bool-cases (i == pn)) [
    | inl here ↦ here_case (act p) refl (rw here at e)
    | inr other ↦
        other_case (at_number act (i + 1) ps pn) refl
          (λ t. at_number-IsCounted act keeps (i + 1) ps pn t c.1) (rw other at e)
  ]
    where
      here_case :
          (o : Option (SentPktState × List T))
          → act p ≡ o
          → (o >>= λ r. some (record p { state = r.0 } ∷ ps, r.1)) ≡ some r
          → IsCounted r.0
      here_case none a h = absurd (cc)
      here_case (some t) a h =
          subst IsCounted (ap (λ q. q.0) (some-injective _ _ h))
            (keeps p.state p.frames t a ∙ c.0, c.1)

      other_case :
          (o : Option (List (Packet T) × List T))
          → at_number act (i + 1) ps pn ≡ o
          → ((t : List (Packet T) × List T) → at_number act (i + 1) ps pn ≡ some t → IsCounted t.0)
          → (o >>= λ r. some (p ∷ r.0, r.1)) ≡ some r
          → IsCounted r.0
      other_case none a later h = absurd (cc)
      other_case (some t) a later h =
          subst IsCounted (ap (λ q. q.0) (some-injective _ _ h)) (c.0, later t a)

  -- What an action leaves of a journal.
  after :
      (act : Action T)
      → IsKeeping act
      → (offset largest_acked : ℕ) (ps : List (Packet T)) (pn : ℕ) → IsCounted ps
      → (j : SentJournal T) (frames : List T)
      → in_journal offset largest_acked (at_number act offset ps pn) ≡ some (j, frames)
      → IsJournal j
  after act keeps offset largest_acked ps pn c j frames e = go (at_number act offset ps pn) refl e
    where
      go :
          (o : Option (List (Packet T) × List T))
          → at_number act offset ps pn ≡ o
          → in_journal offset largest_acked o ≡ some (j, frames)
          → IsJournal j
      go none a h = absurd (cc)
      go (some r) a h = (
        offset,
        largest_acked,
        r.0,
        sym (ap (λ q. q.0) (some-injective _ _ h)),
        at_number-IsCounted act keeps offset ps pn r c a,
      )

  within :
      (offset : ℕ) (ps : List (Packet T)) (largest_acked : ℕ)
      → largest (journal offset ps largest_acked).sent_packets ≤ varint_max
      → offset + length (states ps) ≤ varint_max
  within offset ps largest_acked h = h

  learn :
      (offset largest_acked : ℕ) (ps : List (Packet T)) (acked_largest : ℕ) (j : SentJournal T)
      → IsCounted ps
      → update_largest (journal offset ps largest_acked) acked_largest ≡ some j
      → IsJournal j
  unfolding update_largest
  learn offset a ps acked_largest j c e =
      elim (Bool-cases (ltb (largest (journal offset ps a).sent_packets) acked_largest)) [
        | inl beyond ↦ absurd (let h = rw beyond at e in cc)
        | inr sent ↦ elim (Bool-cases (ltb a acked_largest)) [
          | inl new ↦
              (offset, acked_largest, ps, sym (some-injective _ _ (rw new at (rw sent at e))), c)
          | inr old ↦ (offset, a, ps, sym (some-injective _ _ (rw old at (rw sent at e))), c)
        ]
      ]

  Step-IsJournal :
      (offset largest_acked : ℕ) (ps : List (Packet T))
      → IsCounted ps
      → (j' : SentJournal T) → Step (journal offset ps largest_acked) j'
      → IsJournal j'
  Step-IsJournal offset a ps c j' (sends _ _ trivial fs now retran expire room e) =
      let (sent, c') =
        send_lem offset a ps
          (subst (λ n. offset + n ≤ varint_max) (length-states ps) (within offset ps a room))
          trivial fs now retran expire c in
      (
        offset,
        a,
        ps ++ sent_packet trivial fs now retran expire,
        some-injective _ _ (sym e ∙ sent),
        c',
      )
  Step-IsJournal offset a ps c j' (hears _ _ pn frames e) =
      after acknowledge acknowledge-IsKeeping offset a ps pn c j' frames
        (sym (on_packet_acked_lem offset a ps c pn) ∙ e)
  Step-IsJournal offset a ps c j' (loses _ _ pn frames e) =
      after lose lose-IsKeeping offset a ps pn c j' frames
        (sym (may_loss_packet_lem offset a ps c pn) ∙ e)
  Step-IsJournal offset a ps c j' (learns _ _ acked_largest e) =
      learn offset a ps acked_largest j' c e
  Step-IsJournal offset a ps c j' (rotates _ _ now e) =
      let (done, c') = resize_lem now offset a ps c in
      ((rotate now offset ps).0, a, (rotate now offset ps).1, some-injective _ _ (sym e ∙ done), c')
  Step-IsJournal offset a ps c j' (repeats _ _ now frames e) =
      let kept = rotate now offset ps in
      let (done, _, c') = fast_retransmit_lem now offset a ps c in
      (
        kept.0,
        a,
        (retransmit_due now a kept.0 kept.1).0,
        ap (λ q. q.0) (some-injective _ _ (sym e ∙ done)),
        c',
      )

  pub reachable : (j : SentJournal T) → Reach j → IsJournal j
  reachable _ start = (0, 0, [], refl, tt)
  reachable j' (next j _ reach step) =
      let (offset, a, ps, e, c) = reachable j reach in
      Step-IsJournal offset a ps c j' (subst (λ k. Step k j') e step)
