-- ===== src/RcvdJournal/Replay.antt =====
-- The journal in the course of its calls: a packet is accepted once.
use gm_quic.Prelude.{
  ℕ, ◌+◌, ◌-◌, ◌*◌, ◌≡◌, ◌≢◌, refl, ap, sym, subst, none, some, arith, Bool, true, false, ltb, leb,
  if◌then◌else◌, Bool-cases, Option-cases, inl, inr, map, le→ltb,
}
use mathlib.Core.Option.{some-injective}
use gm_quic.IndexDeque.{IndexDeque, largest, get, contain}
use gm_quic.PacketNumber.{PacketNumber}
use gm_quic.Ack.{AckFrame, iter}
use gm_quic.RcvdJournal.{
  State, packet_received, RcvdJournal, decoded, decode_pn, on_rcvd_pn, on_rcvd_ack,
  trigger_ack_frame, put_state, confirm, filter_by, in_ranges, or_zero,
}
use gm_quic.RcvdJournal.Generate.{Generated, gen_ack_frame_util}
use gm_quic.RcvdJournal.Once.{
  is_received, was_received, bit_at, decode_pn-fresh, rotate-keeps, confirm-is_received,
}
use gm_quic.RcvdJournal.Register.{HasReceived, put_state-HasReceived}
use gm_quic.RcvdJournal.Reports.{IsSame, gen_ack_frame_util-IsSame}

-- A call that changes the journal and does not panic.
pub data Step : RcvdJournal → RcvdJournal → Type 0 where
  receives :
      (now : ℕ) (j : RcvdJournal) (pn : ℕ) (eliciting : Bool) (pto : ℕ) (j' : RcvdJournal)
      → on_rcvd_pn now j pn eliciting pto ≡ some j'
      → Step j j'
  hears :
      (now : ℕ) (j : RcvdJournal) (frame : AckFrame) (j' : RcvdJournal)
      → on_rcvd_ack now j frame ≡ some j'
      → Step j j'
  reports :
      (now : ℕ) (j : RcvdJournal) (pn largest rcvd_time capacity : ℕ) (j' : RcvdJournal)
      (r : Generated)
      → gen_ack_frame_util now j pn largest rcvd_time capacity ≡ some (j', r)
      → Step j j'

pub data Steps : RcvdJournal → RcvdJournal → Type 0 where
  stay : (j : RcvdJournal) → Steps j j
  go_on : (j j1 j2 : RcvdJournal) → Step j j1 → Steps j1 j2 → Steps j j2

on_rcvd_pn-HasReceived :
    (now : ℕ) (j : RcvdJournal) (pn : ℕ) (eliciting : Bool) (pto : ℕ) (j' : RcvdJournal)
    → on_rcvd_pn now j pn eliciting pto ≡ some j'
    → HasReceived j.queue pn j'.queue
unfolding on_rcvd_pn
on_rcvd_pn-HasReceived now j pn eliciting pto j' e =
    let ack_time = if eliciting then some (now + or_zero j.max_ack_delay) else none in
    let s = packet_received now ack_time (now + pto * 3) in
    elim (Option-cases (put_state j.queue pn s)) [
      | inl f ↦ absurd (let no : none ≡ some j' = rw f at e in cc)
      | inr (q, f) ↦
          subst (HasReceived j.queue pn)
            (ap (λ (k : RcvdJournal). k.queue) (some-injective _ _ (rw f at e)))
            (put_state-HasReceived j.queue pn s q refl f)
    ]

on_rcvd_ack-keeps :
    (now : ℕ) (j : RcvdJournal) (frame : AckFrame) (j' : RcvdJournal) (pn : ℕ)
    → on_rcvd_ack now j frame ≡ some j'
    → was_received j.queue pn ≡ true
    → was_received j'.queue pn ≡ true
unfolding on_rcvd_ack
on_rcvd_ack-keeps now j frame j' pn e h = elim (Option-cases (iter frame)) [
  | inl f ↦ absurd (let no : none ≡ some j' = rw f at e in cc)
  | inr (ranges, f) ↦
      let acked = filter_by (λ x. in_ranges x ranges) j.packet_include_ack in
      let offset = j.queue.offset in
      let same = confirm-is_received acked j.queue.deque in
      subst (λ q. was_received q pn ≡ true)
        (ap (λ (k : RcvdJournal). k.queue) (some-injective _ _ (rw f at e)))
        (rotate-keeps now offset (map (confirm acked) j.queue.deque) pn (
          subst (λ l. (if ltb pn offset then true else bit_at l (pn - offset)) ≡ true) (sym same)
            h))
]

IsSame-keeps :
    (q q' : IndexDeque State) (pn : ℕ)
    → IsSame q q'
    → was_received q pn ≡ true
    → was_received q' pn ≡ true
IsSame-keeps q q' pn (offset, flags) h =
    subst (λ o. (if ltb pn o then true else bit_at (map is_received q'.deque) (pn - o)) ≡ true)
      (sym offset)
      (subst (λ l. (if ltb pn q.offset then true else bit_at l (pn - q.offset)) ≡ true) (sym flags)
        h)

Step-keeps :
    (j j' : RcvdJournal) (pn : ℕ)
    → Step j j'
    → was_received j.queue pn ≡ true
    → was_received j'.queue pn ≡ true
Step-keeps j j' pn (receives now _ x eliciting pto _ e) h =
    (on_rcvd_pn-HasReceived now j x eliciting pto j' e).1 pn h
Step-keeps j j' pn (hears now _ frame _ e) h = on_rcvd_ack-keeps now j frame j' pn e h
Step-keeps j j' pn (reports now _ x top at capacity _ r e) h =
    IsSame-keeps j.queue j'.queue pn (gen_ack_frame_util-IsSame now j x top at capacity j' r e) h

Steps-keeps :
    (j j' : RcvdJournal) (pn : ℕ)
    → Steps j j'
    → was_received j.queue pn ≡ true
    → was_received j'.queue pn ≡ true
Steps-keeps j j' pn (stay _) h = h
Steps-keeps j j' pn (go_on _ j1 _ step steps) h =
    Steps-keeps j1 j' pn steps (Step-keeps j j1 pn step h)

-- Once a packet is registered, no calls on the journal that do not panic lead to one that decodes its
-- number again, whatever truncated number is on the wire.
pub on_rcvd_pn-once :
    (now : ℕ) (j : RcvdJournal) (pn : ℕ) (eliciting : Bool) (pto : ℕ) (j1 j2 : RcvdJournal)
    (n : PacketNumber)
    → on_rcvd_pn now j pn eliciting pto ≡ some j1
    → Steps j1 j2
    → decode_pn j2 n ≢ decoded pn
on_rcvd_pn-once now j pn eliciting pto j1 j2 n e steps again =
    let there = Steps-keeps j1 j2 pn steps (on_rcvd_pn-HasReceived now j pn eliciting pto j1 e).0 in
    let free = decode_pn-fresh j2 n pn again in absurd (cc)

get-largest : (q : IndexDeque State) → get q (largest q) ≡ none
unfolding get contain
get-largest q =
    let behind : ltb (largest q) (largest q) ≡ false =
      le→ltb (largest q) (largest q) (omega arith) in
    elim (Bool-cases (leb q.offset (largest q))) [
      | inl a ↦ rw a (rw behind refl)
      | inr b ↦ rw b refl
    ]

-- No journal ever asks for an ACK frame by time: it looks for the packet behind its largest.
pub trigger_ack_frame-none : (now : ℕ) (j : RcvdJournal) → trigger_ack_frame now j ≡ none
unfolding trigger_ack_frame
trigger_ack_frame-none now j = elim (Option-cases j.earliest_not_ack_time) [
  | inl e ↦ rw e refl
  | inr ((pn, at), e) ↦ elim (Bool-cases (leb now (at + or_zero j.max_ack_delay))) [
    | inl early ↦ rw e (rw early refl)
    | inr late ↦ rw e (rw late (rw (get-largest j.queue) refl))
  ]
]
