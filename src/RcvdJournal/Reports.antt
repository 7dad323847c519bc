-- ===== src/RcvdJournal/Reports.antt =====
-- An ACK frame that is generated changes nothing of which packets were received.
use gm_quic.Prelude.{
  ℕ, ◌+◌, ◌-◌, ◌≡◌, refl, ap, sym, ◌∙◌, List, [], ◌∷◌, ◌++◌, Option, none, some, Bool, false, ltb,
  Bool-cases, Option-cases, inl, inr, length, take, drop, map, ◌>>=◌, bind-some, take-append-drop,
}
use mathlib.Core.Option.{some-injective}
use gm_quic.IndexDeque.{IndexDeque}
use gm_quic.VarInt.{from_u64, encoding_size}
use gm_quic.RcvdJournal.{State, empty, packet_received, ack_sent, ack_confirmed, track, RcvdJournal}
use gm_quic.RcvdJournal.Generate.{
  reversed, take_first, pack, range_size, finish_ranges, report, gen_ack_frame_util, Packed,
  Generated,
}
use gm_quic.RcvdJournal.Once.{is_received}

abbrev flags : List State → List Bool
flags xs = map is_received xs

track-is_received : (pn : ℕ) (s : State) → is_received (track pn s).0 ≡ is_received s
unfolding track
track-is_received pn empty = refl
track-is_received pn (packet_received _ _ _) = refl
track-is_received pn (ack_sent _ _ _ _) = refl
track-is_received pn (ack_confirmed _ _ _) = refl

track-again : (pn : ℕ) (s : State) → is_received (track pn (track pn s).0).0 ≡ is_received s
track-again pn s = track-is_received pn (track pn s).0 ∙ track-is_received pn s

flags-append : (xs ys : List State) → flags (xs ++ ys) ≡ flags xs ++ flags ys
flags-append [] ys = refl
flags-append (x ∷ xs) ys = ap (λ l. is_received x ∷ l) (flags-append xs ys)

take_first-flags :
    (pn : ℕ) (xs : List State)
    → flags ((take_first pn xs).visited ++ (take_first pn xs).rest) ≡ flags xs
unfolding take_first
take_first-flags pn [] = refl
take_first-flags pn (s ∷ rest) =
    let ih = take_first-flags pn rest in
    elim (Bool-cases (track pn s).1) [
      | inl received ↦ rw received (
          ap (λ b. b ∷ flags ((take_first pn rest).visited ++ (take_first pn rest).rest))
            (track-is_received pn s)
          ∙ ap (λ l. is_received s ∷ l) ih)
      | inr missed ↦ rw missed (ap (λ b. b ∷ flags rest) (track-is_received pn s))
    ]

-- A step of `pack` that tracks a state and goes on.
pack-step :
    (pn : ℕ) (s : State) (rest : List State) (later : Option Packed) (p : Packed)
    → ((q : Packed) → later ≡ some q → flags q.states ≡ flags rest)
    → (later >>= λ q. some (record q { states = (track pn (track pn s).0).0 ∷ q.states })) ≡ some p
    → flags p.states ≡ flags (s ∷ rest)
pack-step pn s rest later p keeps e =
    let (q, f, g) =
      bind-some later (λ q. some (record q { states = (track pn (track pn s).0).0 ∷ q.states })) p
        e in
    ap (λ (r : Packed). flags r.states) (sym (some-injective _ _ g))
    ∙ ap (λ b. b ∷ flags q.states) (track-again pn s)
    ∙ ap (λ l. is_received s ∷ l) (keeps q f)

pack-flags :
    (pn capacity : ℕ) (ranges : List (ℕ × ℕ)) (gap ack : ℕ) (last : Bool) (xs : List State)
    (p : Packed)
    → pack pn capacity ranges gap ack last xs ≡ some p
    → flags p.states ≡ flags xs
unfolding pack
pack-flags pn capacity ranges gap ack last [] p e =
    ap (λ (r : Packed). flags r.states) (sym (some-injective _ _ e))
pack-flags pn capacity ranges gap ack last (s ∷ rest) p e =
    let again = (track pn (track pn s).0).1 in
    let closed = ranges ++ ((gap - 1, ack - 1) ∷ []) in
    elim (Bool-cases (track pn s).1) [
      | inl received ↦
          pack-step pn s rest (pack pn capacity ranges gap (ack + 1) again rest) p
            (λ q f. pack-flags pn capacity ranges gap (ack + 1) again rest q f) (rw received at e)
      | inr missed ↦ elim (Bool-cases last) [
        | inr gap_goes_on ↦
            pack-step pn s rest (pack pn capacity ranges (gap + 1) ack again rest) p
              (λ q f. pack-flags pn capacity ranges (gap + 1) ack again rest q f)
              (rw gap_goes_on at (rw missed at e))
        | inl range_ends ↦ elim (Option-cases (range_size (length ranges) (gap - 1) (ack - 1))) [
          | inl too_many ↦
              absurd
                (let no : none ≡ some p = rw too_many at (rw range_ends at (rw missed at e)) in cc)
          | inr (size, fits) ↦ elim (Bool-cases (ltb capacity size)) [
            | inl full ↦
                let stopped =
                  some-injective _ _
                    (rw full at (rw fits at (rw range_ends at (rw missed at e)))) in
                ap (λ (r : Packed). flags r.states) (sym stopped)
                ∙ ap (λ b. b ∷ flags rest) (track-is_received pn s)
            | inr room ↦
                pack-step pn s rest (pack pn (capacity - size) closed 1 0 again rest) p
                  (λ q f. pack-flags pn (capacity - size) closed 1 0 again rest q f)
                  (rw room at (rw fits at (rw range_ends at (rw missed at e))))
          ]
        ]
      ]
    ]

bits_reversed : List Bool → List Bool
bits_reversed [] = []
bits_reversed (b ∷ bits) = bits_reversed bits ++ (b ∷ [])

flags-reversed : (xs : List State) → flags (reversed xs) ≡ bits_reversed (flags xs)
unfolding bits_reversed
flags-reversed [] = refl
flags-reversed (x ∷ xs) =
    flags-append (reversed xs) (x ∷ []) ∙ ap (λ l. l ++ (is_received x ∷ [])) (flags-reversed xs)

reversed-append : (xs : List State) (x : State) → reversed (xs ++ (x ∷ [])) ≡ x ∷ reversed xs
reversed-append [] x = refl
reversed-append (y ∷ xs) x = ap (λ l. l ++ (y ∷ [])) (reversed-append xs x)

reversed-reversed : (xs : List State) → reversed (reversed xs) ≡ xs
reversed-reversed [] = refl
reversed-reversed (x ∷ xs) =
    reversed-append (reversed xs) x ∙ ap (λ l. x ∷ l) (reversed-reversed xs)

-- States with the flags of the first `n` in reverse, put back in their place.
restored-flags :
    (n : ℕ) (xs ys : List State)
    → flags ys ≡ flags (reversed (take n xs))
    → flags (reversed ys ++ drop n xs) ≡ flags xs
restored-flags n xs ys e =
    flags-append (reversed ys) (drop n xs)
    ∙ ap (λ l. l ++ flags (drop n xs))
        (flags-reversed ys
          ∙ ap bits_reversed e
          ∙ sym (flags-reversed (reversed (take n xs)))
          ∙ ap flags (reversed-reversed (take n xs)))
    ∙ sym (flags-append (take n xs) (drop n xs))
    ∙ ap flags (take-append-drop n xs)

-- A queue with the same offset, in which the same packets were received.
abbrev pub IsSame : IndexDeque State → IndexDeque State → Type 0
IsSame q q' = (q'.offset ≡ q.offset) × (flags q'.deque ≡ flags q.deque)

report-IsSame :
    (j : RcvdJournal) (pn largest delay capacity min_len : ℕ) (j' : RcvdJournal) (r : Generated)
    → (let first = take_first pn (reversed (take (largest + 1 - j.queue.offset) j.queue.deque)) in
        report j pn largest delay capacity min_len first ≡ some (j', r))
    → IsSame j.queue j'.queue
unfolding report
report-IsSame j pn largest delay capacity min_len j' r e =
    let n = largest + 1 - j.queue.offset in
    let first = take_first pn (reversed (take n j.queue.deque)) in
    let taken = take_first-flags pn (reversed (take n j.queue.deque)) in
    let queue = λ (t : RcvdJournal × Generated). t.0.queue in
    elim (Bool-cases (ltb capacity min_len)) [
      | inl short ↦
          let same = ap queue (some-injective _ _ (rw short at e)) in
          (
            ap (λ (q : IndexDeque State). q.offset) (sym same),
            ap (λ (q : IndexDeque State). flags q.deque) (sym same)
                ∙ restored-flags n j.queue.deque (first.visited ++ first.rest) taken,
          )
      | inr enough ↦ elim (Option-cases (pack pn (capacity - min_len) [] 1 0 false first.rest)) [
        | inl failed ↦ absurd (let no : none ≡ some (j', r) = rw failed at (rw enough at e) in cc)
        | inr (packed, f) ↦ elim (Option-cases (finish_ranges packed)) [
          | inl failed ↦
              absurd (let no : none ≡ some (j', r) = rw failed at (rw f at (rw enough at e)) in cc)
          | inr (ranges, g) ↦
              let same = ap queue (some-injective _ _ (rw g at (rw f at (rw enough at e)))) in
              let kept : flags (first.visited ++ packed.states)
                  ≡ flags (reversed (take n j.queue.deque)) =
                flags-append first.visited packed.states
                ∙ ap (λ l. flags first.visited ++ l)
                    (pack-flags pn (capacity - min_len) [] 1 0 false first.rest packed f)
                ∙ sym (flags-append first.visited first.rest)
                ∙ taken in
              (
                ap (λ (q : IndexDeque State). q.offset) (sym same),
                ap (λ (q : IndexDeque State). flags q.deque) (sym same)
                    ∙ restored-flags n j.queue.deque (first.visited ++ packed.states) kept,
              )
        ]
      ]
    ]

pub gen_ack_frame_util-IsSame :
    (now : ℕ) (j : RcvdJournal) (pn largest rcvd_time capacity : ℕ) (j' : RcvdJournal)
    (r : Generated)
    → gen_ack_frame_util now j pn largest rcvd_time capacity ≡ some (j', r)
    → IsSame j.queue j'.queue
unfolding gen_ack_frame_util
gen_ack_frame_util-IsSame now j pn largest rcvd_time capacity j' r e =
    let first = take_first pn (reversed (take (largest + 1 - j.queue.offset) j.queue.deque)) in
    elim (Option-cases (from_u64 largest >>= encoding_size)) [
      | inl f ↦ absurd (let no : none ≡ some (j', r) = rw f at e in cc)
      | inr (of_largest, f) ↦ elim (Option-cases (from_u64 (now - rcvd_time))) [
        | inl g ↦ absurd (let no : none ≡ some (j', r) = rw g at (rw f at e) in cc)
        | inr (delay, g) ↦ elim (Option-cases (encoding_size delay)) [
          | inl h ↦ absurd (let no : none ≡ some (j', r) = rw h at (rw g at (rw f at e)) in cc)
          | inr (of_delay, h) ↦ elim (Option-cases (encoding_size (first.count - 1))) [
            | inl k ↦
                absurd
                  (let no : none ≡ some (j', r) = rw k at (rw h at (rw g at (rw f at e))) in cc)
            | inr (of_first, k) ↦
                report-IsSame j pn largest delay capacity (1 + of_largest + of_delay + of_first + 1)
                  j' r (rw k at (rw h at (rw g at (rw f at e))))
          ]
        ]
      ]
    ]
