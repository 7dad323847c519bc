-- ===== src/SendBuf/Acked.antt =====
-- `SendBuf`: acknowledged and lost ranges.
use gm_quic.Prelude.{
  ℕ, ◌+◌, ◌-◌, ◌≤◌, ◌<◌, ◌≡◌, refl, ap, sym, subst, ◌∙◌, List, [], ◌∷◌, some, arith, true, false,
  ltb, leb, Bool-cases, inl, inr, ltb→lt, ltb→le, length, drop, length-drop, drop-drop,
}
use gm_quic.SendBuf.Map.{Color, recved, pending, flighting, lost, ◌is◌, BufMap, search}
use gm_quic.SendBuf.Marks.{shift}
use gm_quic.SendBuf.Buffer.{SendBuf, on_data_acked, may_loss_data, is_all_rcvd, no_bytes}
use gm_quic.SendBuf.Colors.{color_at, IsOrdered}
use gm_quic.SendBuf.Assemble.{marked}
use gm_quic.SendBuf.Ends.{IsSent}
use gm_quic.SendBuf.AckRcvd.{ack_rcvd_lem}
use gm_quic.SendBuf.Losses.{lose}
use gm_quic.SendBuf.MayLoss.{may_loss_lem, loss_starts}
use gm_quic.SendBuf.Shifts.{shift_lem}
use gm_quic.SendBuf.Holding.{IsHolding, IsMarked-IsHolding, color_of}

marked-recved :
    (start end : ℕ) (color : ℕ → Color) (x : ℕ)
    → color x ≡ recved
    → marked (λ _. recved) start end color x ≡ recved
marked-recved start end color x h = elim (Bool-cases (ltb x start)) [
  | inl before ↦ rw before h
  | inr behind ↦ elim (Bool-cases (ltb x end)) [
    | inl covered ↦ rw behind (rw covered)
    | inr over ↦ rw behind (rw over h)
  ]
]

-- What stays of the buffer from `offset` on.
IsHolding-from :
    (w : List ℕ) (b : SendBuf) (m' : BufMap) (offset : ℕ)
    → IsHolding w b
    → IsOrdered 0 m'.size m'.states
    → m'.size ≡ length w
    → offset ≤ length w
    → b.offset ≤ offset
    → ((x : ℕ) → x < offset → color_at recved m'.states x ≡ recved)
    → (offset < length w → (color_at recved m'.states offset is recved) ≡ false)
    → IsHolding w (record { offset = offset; bytes = drop (offset - b.offset) b.bytes; state = m' })
IsHolding-from w b m' offset h ordered size within grows before at =
    let whole : b.offset + (offset - b.offset) ≡ offset = omega (arith, grows) in
    record {
      ordered = ordered;
      size = size;
      within = within;
      left =
          ap (drop (offset - b.offset)) h.left
          ∙ drop-drop b.offset (offset - b.offset) w
          ∙ ap (λ n. drop n w) whole;
      acked = before;
      first = at;
    }

-- For a buffer that holds the bytes written, and a range of them that is not empty and in which no
-- byte is pending: the acknowledgment does not panic; the bytes of the range are received then, and
-- no other byte changes its color; and the buffer holds the bytes from the first that is not received.
pub on_data_acked-IsHolding :
    (w : List ℕ) (b : SendBuf) (start end x : ℕ)
    → IsHolding w b
    → start < end
    → end ≤ length w
    → IsSent start end (color_of b)
    → x < length w
    → (b' : SendBuf) × (on_data_acked b start end ≡ some b')
      × IsHolding w b'
      × (color_of b' x ≡ marked (λ _. recved) start end (color_of b) x)
unfolding on_data_acked
on_data_acked-IsHolding w b start end x h order within sent inside =
    let (m1, e, size, (kept, colors)) =
      ack_rcvd_lem b.state start end h.ordered order (omega (arith, within, h.size)) sent in
    let ordered1 : IsOrdered 0 m1.size m1.states =
      subst (λ n. IsOrdered 0 n m1.states) (sym size) kept in
    let (ordered, same, keeps, low, before, at) = shift_lem m1 ordered1 in
    let m' = (shift m1).0 in
    let first = (shift m1).1 in
    let size' : m'.size ≡ length w = same ∙ size ∙ h.size in
    let now : (y : ℕ)
        → y < length w
        → color_at recved m'.states y ≡ marked (λ _. recved) start end (color_of b) y =
      λ y lt. keeps y ∙ colors y (omega (arith, lt, h.size)) in
    let ordered' : IsOrdered 0 m'.size m'.states =
      subst (λ n. IsOrdered 0 n m'.states) (sym same) ordered in
    elim (Bool-cases (ltb b.offset first)) [
      | inl more ↦
          let lt = ltb→lt b.offset first more in
          let fits : leb (first - b.offset) (length b.bytes) ≡ true =
            ground (arith, low, size, h.size, ap length h.left ∙ length-drop b.offset w) in
          (
            record { offset = first; bytes = drop (first - b.offset) b.bytes; state = m' },
            rw e (rw more (rw fits refl)),
            IsHolding-from w b m' first h ordered' size' (omega (arith, low, size, h.size))
                (omega arith) before (λ k. at (omega (arith, k, size, h.size))),
            now x inside,
          )
      | inr stays ↦
          let le = ltb→le b.offset first stays in
          let received : (y : ℕ) → y < b.offset → color_at recved m'.states y ≡ recved = λ y lt.
            now y (omega (arith, lt, h.within))
            ∙ marked-recved start end (color_of b) y (h.acked y lt) in
          let same_first : b.offset < length w → first ≡ b.offset = λ k.
            (elim (Bool-cases (ltb first b.offset)) [
              | inr no_less ↦ omega (arith, le, ltb→le first b.offset no_less)
              | inl less ↦
                  let lt = ltb→lt first b.offset less in
                  let not_received = at (omega (arith, lt, k, size, h.size)) in
                  let was_received = ap (λ c. c is recved) (received first lt) in absurd (cc)
            ]) in
          let none_left : b.offset - b.offset ≡ 0 = omega arith in
          (
            record b { state = m' },
            rw e (rw stays refl),
            subst
                (λ n.
                  IsHolding w (record { offset = b.offset; bytes = drop n b.bytes; state = m' }))
                none_left
                (IsHolding-from w b m' b.offset h ordered' size' h.within (omega arith) received
                  (λ k.
                    subst (λ n. (color_at recved m'.states n is recved) ≡ false) (same_first k)
                      (at (omega (arith, same_first k, k, size, h.size))))),
            now x inside,
          )
    ]

lose-recved : (c : Color) → (lose c is recved) ≡ (c is recved)
lose-recved pending = refl
lose-recved flighting = refl
lose-recved recved = refl
lose-recved lost = refl

-- For a buffer that holds the bytes written, and a range of them that is not empty, in which no byte
-- is pending, and which starts neither at a received state nor in front of all states: the loss does
-- not panic; the bytes of the range that are not received are lost then, and no other byte changes
-- its color; and the buffer holds what it did.
pub may_loss_data-IsHolding :
    (w : List ℕ) (b : SendBuf) (start end x : ℕ)
    → IsHolding w b
    → start < end
    → end ≤ length w
    → IsSent start end (color_of b)
    → loss_starts b.state.states (search b.state.states start) ≡ true
    → x < length w
    → (b' : SendBuf) × (may_loss_data b start end ≡ some b')
      × IsHolding w b'
      × (color_of b' x ≡ marked lose start end (color_of b) x)
unfolding may_loss_data
may_loss_data-IsHolding w b start end x h order within sent starts inside =
    let (m', e, size, changed) =
      may_loss_lem b.state start end h.ordered order (omega (arith, within, h.size)) sent starts in
    (
      record b { state = m' },
      rw e refl,
      IsMarked-IsHolding lose start end w b m' h (λ y _ _. lose-recved (color_of b y)) size changed,
      changed.1 x (omega (arith, inside, h.size)),
    )

no_bytes-nil : (bytes : List ℕ) → no_bytes bytes ≡ true → bytes ≡ []
no_bytes-nil [] e = refl
no_bytes-nil (y ∷ bytes) e = absurd (cc)

-- For a buffer that holds the bytes written: if it says that all is received, then every byte is.
pub is_all_rcvd-recved :
    (w : List ℕ) (b : SendBuf) (x : ℕ)
    → IsHolding w b
    → is_all_rcvd b ≡ true
    → x < length w
    → color_of b x ≡ recved
is_all_rcvd-recved w b x h done inside =
    let none_left : b.bytes ≡ [] = no_bytes-nil b.bytes done in
    let all : length w - b.offset ≡ 0 =
      sym (length-drop b.offset w) ∙ ap length (sym h.left ∙ none_left) in
    h.acked x (omega (arith, all, inside, h.within))
