-- ===== src/RcvdJournal/Register.antt =====
-- `on_rcvd_pn`, `on_rcvd_ack` and `gen_ack_frame_util` on which packets were received.
use gm_quic.Prelude.{
  ℕ, zero, suc, ◌-◌, ◌≤◌, ◌<◌, ◌≡◌, refl, ap, sym, subst, ◌∙◌, List, [], ◌∷◌, ◌++◌, none, some,
  arith, true, ltb, if◌then◌else◌, Bool-cases, Option-cases, inl, inr, ltb→lt, ltb→le, length,
  length-append, length-replicate, take, set, map, replicate,
}
use mathlib.Core.Option.{some-injective}
use mathlib.Core.List.{append-nil}
use gm_quic.IndexDeque.{IndexDeque, get, contain, update, insert, resize_deque}
use gm_quic.VarInt.{varint_max}
use gm_quic.RcvdJournal.{
  State, empty, packet_received, ack_sent, ack_confirmed, put_state, inserted,
}
use gm_quic.RcvdJournal.Once.{is_received, bit_at, was_received}

bit_at-set :
    (xs : List State) (i k : ℕ) (s : State)
    → is_received s ≡ true
    → bit_at (map is_received xs) k ≡ true
    → bit_at (map is_received (set xs i s)) k ≡ true
bit_at-set [] i k s h e = e
bit_at-set (x ∷ xs) zero zero s h e = h
bit_at-set (x ∷ xs) zero (suc k) s h e = e
bit_at-set (x ∷ xs) (suc i) zero s h e = e
bit_at-set (x ∷ xs) (suc i) (suc k) s h e = bit_at-set xs i k s h e

bit_at-set_here :
    (xs : List State) (i : ℕ) (s : State)
    → is_received s ≡ true
    → i < length xs
    → bit_at (map is_received (set xs i s)) i ≡ true
bit_at-set_here [] i s h k = absurd (omega arith)
bit_at-set_here (x ∷ xs) zero s h k = h
bit_at-set_here (x ∷ xs) (suc i) s h k = bit_at-set_here xs i s h (omega arith)

bit_at-append :
    (xs ys : List State) (k : ℕ)
    → bit_at (map is_received xs) k ≡ true
    → bit_at (map is_received (xs ++ ys)) k ≡ true
bit_at-append [] ys k e = absurd (cc)
bit_at-append (x ∷ xs) ys zero e = e
bit_at-append (x ∷ xs) ys (suc k) e = bit_at-append xs ys k e

bit_at-append_last :
    (xs : List State) (s : State) (k : ℕ)
    → is_received s ≡ true
    → k ≡ length xs
    → bit_at (map is_received (xs ++ (s ∷ []))) k ≡ true
bit_at-append_last [] s zero h e = h
bit_at-append_last [] s (suc k) h e = absurd (omega arith)
bit_at-append_last (x ∷ xs) s zero h e = absurd (omega arith)
bit_at-append_last (x ∷ xs) s (suc k) h e = bit_at-append_last xs s k h (omega arith)

-- Padding up to a position at the end or behind it.
padded :
    (xs : List State) (n : ℕ)
    → length xs ≤ n
    → resize_deque xs n empty ≡ xs ++ replicate (n - length xs) empty
padded [] zero h = refl
padded [] (suc n) h = refl
padded (x ∷ xs) zero h = absurd (omega arith)
padded (x ∷ xs) (suc n) h =
    let fewer : suc n - suc (length xs) ≡ n - length xs = omega arith in
    ap (λ k. x ∷ (take n xs ++ replicate k empty)) fewer
    ∙ ap (λ l. x ∷ l) (padded xs n (omega arith))
    ∙ ap (λ k. x ∷ (xs ++ replicate k empty)) (sym fewer)

-- A queue that has received a packet, and all that it had before.
abbrev pub HasReceived : IndexDeque State → ℕ → IndexDeque State → Type 0
HasReceived q pn q' =
    (was_received q' pn ≡ true) × ((x : ℕ) → was_received q x ≡ true → was_received q' x ≡ true)

-- Enough for a queue with the same offset.
HasReceived-bits :
    (q : IndexDeque State) (pn : ℕ) (xs : List State)
    → bit_at (map is_received xs) (pn - q.offset) ≡ true
    → ((k : ℕ) → bit_at (map is_received q.deque) k ≡ true → bit_at (map is_received xs) k ≡ true)
    → HasReceived q pn (record q { deque = xs })
HasReceived-bits q pn xs here others = (
  elim (Bool-cases (ltb pn q.offset)) [ inl old ↦ rw old refl | inr at ↦ rw at here ],
  λ x e. elim (Bool-cases (ltb x q.offset)) [
    | inl old ↦ rw old refl
    | inr at ↦ rw at (others (x - q.offset) (rw at at e))
  ],
)

set-HasReceived :
    (q : IndexDeque State) (pn : ℕ) (s : State)
    → is_received s ≡ true
    → pn - q.offset < length q.deque
    → HasReceived q pn (record q { deque = set q.deque (pn - q.offset) s })
set-HasReceived q pn s h k =
    HasReceived-bits q pn (set q.deque (pn - q.offset) s)
      (bit_at-set_here q.deque (pn - q.offset) s h k)
      (λ i e. bit_at-set q.deque (pn - q.offset) i s h e)

insert-HasReceived :
    (q : IndexDeque State) (pn : ℕ) (s : State) (q' : IndexDeque State)
    → is_received s ≡ true
    → inserted (insert varint_max empty q pn s) ≡ some q'
    → HasReceived q pn q'
unfolding insert
insert-HasReceived q pn s q' h e = elim (Bool-cases (ltb varint_max pn)) [
  | inl over ↦ absurd (let no : none ≡ some q' = rw over at e in cc)
  | inr fits ↦ elim (Bool-cases (ltb pn q.offset)) [
    | inl old ↦ absurd (let no : none ≡ some q' = rw old at (rw fits at e) in cc)
    | inr at ↦ elim (Bool-cases (ltb (pn - q.offset) (length q.deque))) [
      | inl inside ↦
          subst (HasReceived q pn) (some-injective _ _ (rw inside at (rw at at (rw fits at e))))
            (set-HasReceived q pn s h (ltb→lt (pn - q.offset) (length q.deque) inside))
      | inr behind ↦
          let pos = pn - q.offset in
          let le = ltb→le pos (length q.deque) behind in
          let pad = q.deque ++ replicate (pos - length q.deque) empty in
          let base : (if ltb (length q.deque) pos then resize_deque q.deque pos empty else q.deque)
              ≡ pad =
            elim (Bool-cases (ltb (length q.deque) pos)) [
              | inl more ↦ rw more (padded q.deque pos le)
              | inr no_more ↦
                  let same : pos - length q.deque ≡ 0 =
                    omega (arith, le, ltb→le (length q.deque) pos no_more) in
                  rw no_more
                    (sym (ap (λ n. q.deque ++ replicate n empty) same ∙ append-nil q.deque))
            ] in
          let size : pos ≡ length pad = omega (
            arith,
            le,
            length-append q.deque (replicate (pos - length q.deque) empty),
            length-replicate (pos - length q.deque) empty,
          ) in
          subst (HasReceived q pn)
            (ap (λ l. record q { deque = l ++ (s ∷ []) }) (sym base)
              ∙ some-injective _ _ (rw behind at (rw at at (rw fits at e))))
            (HasReceived-bits q pn (pad ++ (s ∷ [])) (bit_at-append_last pad s pos h size) (λ i b.
              bit_at-append pad (s ∷ []) i
                (bit_at-append q.deque (replicate (pos - length q.deque) empty) i b)))
    ]
  ]
]

get-inside : (q : IndexDeque State) (pn : ℕ) (s : State) → get q pn ≡ some s → contain q pn ≡ true
unfolding get
get-inside q pn s e = elim (Bool-cases (contain q pn)) [
  | inl inside ↦ inside
  | inr outside ↦ absurd (let no : none ≡ some s = rw outside at e in cc)
]

pub put_state-HasReceived :
    (q : IndexDeque State) (pn : ℕ) (s : State) (q' : IndexDeque State)
    → is_received s ≡ true
    → put_state q pn s ≡ some q'
    → HasReceived q pn q'
unfolding update contain put_state
put_state-HasReceived q pn s q' h e = elim (Option-cases (get q pn)) [
  | inl missing ↦ insert-HasReceived q pn s q' h (rw (missing, put_state) at e)
  | inr (empty, here) ↦
      let inside = get-inside q pn empty here in
      subst (HasReceived q pn) (rw inside at (some-injective _ _ (rw (here, put_state) at e)))
        (set-HasReceived q pn s h (ground (arith, inside)))
  | inr (packet_received _ _ _, here) ↦
      absurd (let no : none ≡ some q' = rw (here, put_state) at e in cc)
  | inr (ack_sent _ _ _ _, here) ↦
      absurd (let no : none ≡ some q' = rw (here, put_state) at e in cc)
  | inr (ack_confirmed _ _ _, here) ↦
      absurd (let no : none ≡ some q' = rw (here, put_state) at e in cc)
]
