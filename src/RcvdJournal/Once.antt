-- ===== src/RcvdJournal/Once.antt =====
-- Which packets were received, and that none is accepted twice.
use gm_quic.Prelude.{
  ℕ, zero, suc, ◌+◌, ◌-◌, ◌≤◌, ◌≡◌, refl, ap, sym, subst, ◌∙◌, List, [], ◌∷◌, Option, none, some,
  arith, Bool, true, false, ltb, leb, if◌then◌else◌, Bool-cases, inl, inr, ltb→le, le→ltb,
  get_elem?, length, map,
}
use gm_quic.IndexDeque.{IndexDeque, largest, get, contain}
use gm_quic.PacketNumber.{PacketNumber, decode}
use gm_quic.RcvdJournal.{
  State, empty, packet_received, ack_sent, ack_confirmed, is_expired, RcvdJournal, Decoded, decoded,
  too_old, duplicate, decode_pn, confirm, rotate, verdict, any_in,
}

abbrev pub is_received : State → Bool
is_received empty = false
is_received (packet_received _ _ _) = true
is_received (ack_sent _ _ _ _) = true
is_received (ack_confirmed _ _ _) = true

abbrev pub bit_at : List Bool → ℕ → Bool
bit_at [] i = false
bit_at (b ∷ bits) zero = b
bit_at (b ∷ bits) (suc i) = bit_at bits i

-- Whether a packet was received, or is so old that it counts as such.
abbrev pub was_received : IndexDeque State → ℕ → Bool
was_received q pn =
    if ltb pn q.offset then true else bit_at (map is_received q.deque) (pn - q.offset)

pub bit_at-get :
    (xs : List State) (i : ℕ)
    → bit_at (map is_received xs) i
      ≡ elim (get_elem? xs i) [ none ↦ false | some s ↦ is_received s ]
bit_at-get [] i = refl
bit_at-get (s ∷ xs) zero = refl
bit_at-get (s ∷ xs) (suc i) = bit_at-get xs i

bit_at-beyond : (xs : List State) (i : ℕ) → length xs ≤ i → bit_at (map is_received xs) i ≡ false
bit_at-beyond [] i h = refl
bit_at-beyond (s ∷ xs) zero h = absurd (omega arith)
bit_at-beyond (s ∷ xs) (suc i) h = bit_at-beyond xs i (omega arith)

abbrev pub received_in : Option State → Bool
received_in none = false
received_in (some s) = is_received s

was_received-get :
    (q : IndexDeque State) (pn : ℕ)
    → ltb pn q.offset ≡ false
    → was_received q pn ≡ received_in (get q pn)
unfolding get contain
was_received-get q pn e =
    let from : leb q.offset pn ≡ true = ground (arith, e) in
    elim (Bool-cases (ltb pn (largest q))) [
      | inl inside ↦ rw e (rw from (rw inside (bit_at-get q.deque (pn - q.offset))))
      | inr outside ↦ rw e (
          rw from (
            rw outside (
              bit_at-beyond q.deque (pn - q.offset)
                (omega (arith, ltb→le pn (largest q) outside)))))
    ]

number : {pn pn' : ℕ} → decoded pn ≡ decoded pn' → pn ≡ pn'
number e = ap (λ (d : Decoded). elim d [ decoded x ↦ x | too_old ↦ 0 | duplicate ↦ 0 ]) e

verdict-decoded :
    (pn pn' : ℕ) (r : Option State)
    → verdict pn r ≡ decoded pn'
    → (pn ≡ pn') × (received_in r ≡ false)
verdict-decoded pn pn' none e = (number e, refl)
verdict-decoded pn pn' (some empty) e = (number e, refl)
verdict-decoded pn pn' (some (packet_received _ _ _)) e = absurd (cc)
verdict-decoded pn pn' (some (ack_sent _ _ _ _)) e = absurd (cc)
verdict-decoded pn pn' (some (ack_confirmed _ _ _)) e = absurd (cc)

-- The packet number that is decoded was not received.
pub decode_pn-fresh :
    (j : RcvdJournal) (n : PacketNumber) (pn : ℕ)
    → decode_pn j n ≡ decoded pn
    → was_received j.queue pn ≡ false
unfolding decode_pn
decode_pn-fresh j n pn e =
    let from = decode n (largest j.queue) in
    elim (Bool-cases (ltb from j.queue.offset)) [
      | inl old ↦ let no : too_old ≡ decoded pn = rw old at e in absurd (cc)
      | inr at ↦
          let (same, free) = verdict-decoded from pn (get j.queue from) (rw at at e) in
          subst (λ x. was_received j.queue x ≡ false) same (was_received-get j.queue from at ∙ free)
    ]

pub rotate-keeps :
    (now offset : ℕ) (xs : List State) (pn : ℕ)
    → was_received (record { deque = xs; offset = offset }) pn ≡ true
    → was_received (rotate now offset xs) pn ≡ true
unfolding rotate
rotate-keeps now offset [] pn h = h
rotate-keeps now offset (s ∷ rest) pn h = elim (Bool-cases (is_expired now s)) [
  | inr stays ↦ rw stays h
  | inl goes ↦ rw goes (
      rotate-keeps now (offset + 1) rest pn (elim (Bool-cases (ltb pn (offset + 1))) [
        | inl before ↦ rw before refl
        | inr behind ↦
            let ge = ltb→le pn (offset + 1) behind in
            let not_before : ltb pn offset ≡ false = le→ltb pn offset (omega arith) in
            let index : pn - offset ≡ suc (pn - (offset + 1)) = omega arith in
            rw behind (sym (ap (bit_at (map is_received (s ∷ rest))) index) ∙ rw not_before at h)
      ]))
]

pub confirm-is_received :
    (acked : List ℕ) (xs : List State)
    → map is_received (map (confirm acked) xs) ≡ map is_received xs
unfolding confirm
confirm-is_received acked [] = refl
confirm-is_received acked (empty ∷ xs) = ap (λ l. false ∷ l) (confirm-is_received acked xs)
confirm-is_received acked (packet_received _ _ _ ∷ xs) =
    ap (λ l. true ∷ l) (confirm-is_received acked xs)
confirm-is_received acked (ack_sent a b c pns ∷ xs) = elim (Bool-cases (any_in pns acked)) [
  | inl yes_in ↦ rw yes_in (ap (λ l. true ∷ l) (confirm-is_received acked xs))
  | inr not_in ↦ rw not_in (ap (λ l. true ∷ l) (confirm-is_received acked xs))
]
confirm-is_received acked (ack_confirmed _ _ _ ∷ xs) =
    ap (λ l. true ∷ l) (confirm-is_received acked xs)
