-- ===== src/Flow/Recver.antt =====
-- The receiving side: the amounts of new data that the streams report, one after the other.
use gm_quic.Prelude.{
  ℕ, ◌+◌, ◌-◌, ◌/◌, ◌≤◌, ◌<◌, ◌≡◌, refl, ap, sym, subst, ◌∙◌, ◌⊎◌, List, [], ◌∷◌, ◌++◌, Option,
  none, some, arith, ltb, leb, ◌>>=◌, ltb→lt, ltb→le, Bool-cases, Bool, true, false, inl, inr,
}
use mathlib.Core.Option.{some-injective}
use gm_quic.VarInt.{varint_max}
use gm_quic.Flow.{Result, ok, err, RecvController, new_recver, widen, on_new_rcvd, u64_limit}

-- The amounts that were accepted since the controller was new.
pub data Accepted : ℕ → List ℕ → RecvController → Type 0 where
  start : (initial : ℕ) → initial ≤ varint_max → Accepted initial [] (new_recver initial)
  next :
      (initial : ℕ) (amounts : List ℕ) (c c' : RecvController) (amount : ℕ)
      → Accepted initial amounts c
      → on_new_rcvd c amount ≡ some (c', ok amount)
      → Accepted initial (amount ∷ amounts) c'

abbrev pub sum : List ℕ → ℕ
sum [] = 0
sum (n ∷ ns) = n + sum ns

-- The limit that the peer knows: that of the last frame, or the one it had at first.
abbrev pub advertised : ℕ → List ℕ → ℕ
advertised initial [] = initial
advertised initial (n ∷ ns) = advertised n ns

advertised-append : (initial n : ℕ) (ns : List ℕ) → advertised initial (ns ++ (n ∷ [])) ≡ n
advertised-append initial n [] = refl
advertised-append initial n (m ∷ ns) = advertised-append m n ns

abbrev IsOpen : ℕ → ℕ → RecvController → Type 0
IsOpen initial rcvd c =
    (c.rcvd_data ≡ rcvd)
    × (c.step ≡ initial / 2)
    × (rcvd + c.step ≤ c.max_data)
    × (c.max_data ≤ varint_max)
    × (advertised initial c.broker ≡ c.max_data)

new_recver-IsOpen : (initial : ℕ) → initial ≤ varint_max → IsOpen initial 0 (new_recver initial)
unfolding new_recver
new_recver-IsOpen initial h = (refl, refl, omega arith, h, refl)

widen-IsOpen :
    (initial rcvd : ℕ) (c c' : RecvController)
    → c.rcvd_data ≡ rcvd
    → c.step ≡ initial / 2
    → rcvd ≤ c.max_data
    → c.max_data ≤ varint_max
    → advertised initial c.broker ≡ c.max_data
    → widen c ≡ some c'
    → IsOpen initial rcvd c'
unfolding widen
widen-IsOpen initial rcvd c c' a b d f g e =
    elim (Bool-cases (leb c.max_data (c.rcvd_data + c.step))) [
      | inl low ↦ elim (Bool-cases (leb (c.max_data + c.step) varint_max)) [
        | inl fits ↦ subst (IsOpen initial rcvd) (some-injective _ _ (rw fits at (rw low at e))) (
          a,
          b,
          omega (arith, d),
          ground arith,
          advertised-append initial (c.max_data + c.step) c.broker,
        )
        | inr beyond ↦ absurd (let h = rw beyond at (rw low at e) in cc)
      ]
      | inr high ↦
          subst (IsOpen initial rcvd) (some-injective _ _ (rw high at e)) (a, b, ground arith, f, g)
    ]

widen-IsSome :
    (c : RecvController)
    → c.max_data + c.step ≤ varint_max
    → (c' : RecvController) × (widen c ≡ some c')
unfolding widen
widen-IsSome c h = elim (Bool-cases (leb c.max_data (c.rcvd_data + c.step))) [
  | inl low ↦
      let fits : leb (c.max_data + c.step) varint_max ≡ true = ground arith in
      (
        record c {
          max_data = c.max_data + c.step;
          broker = c.broker ++ ((c.max_data + c.step) ∷ []);
        },
        rw low (rw fits),
      )
  | inr high ↦ (c, rw high)
]

abbrev with_amount : ℕ → Option RecvController → Option (RecvController × Result ℕ ℕ)
with_amount amount o = o >>= λ c. some (c, ok amount)

-- What an amount that fits leads to, if the limit can be announced.
accepted :
    (c : RecvController) (amount : ℕ)
    → c.rcvd_data + amount < u64_limit
    → c.rcvd_data + amount ≤ c.max_data
    → on_new_rcvd c amount
      ≡ with_amount amount (widen (record c { rcvd_data = c.rcvd_data + amount }))
unfolding on_new_rcvd
accepted c amount small h =
    let below : ltb (c.rcvd_data + amount) u64_limit ≡ true = ground arith in
    let fits : leb (c.rcvd_data + amount) c.max_data ≡ true = ground arith in rw below (rw fits)

refused :
    (c : RecvController) (amount : ℕ)
    → c.rcvd_data + amount < u64_limit
    → c.max_data < c.rcvd_data + amount
    → on_new_rcvd c amount
      ≡ some
          (record c { rcvd_data = c.rcvd_data + amount }, err (c.rcvd_data + amount - c.max_data))
unfolding on_new_rcvd
refused c amount small h =
    let below : ltb (c.rcvd_data + amount) u64_limit ≡ true = ground arith in
    let beyond : leb (c.rcvd_data + amount) c.max_data ≡ false = ground arith in
    rw below (rw beyond)

overflown :
    (c : RecvController) (amount : ℕ)
    → u64_limit ≤ c.rcvd_data + amount
    → on_new_rcvd c amount ≡ none
unfolding on_new_rcvd
overflown c amount h =
    let beyond : ltb (c.rcvd_data + amount) u64_limit ≡ false = ground arith in rw beyond

abbrev is_refused : Result ℕ ℕ → Bool
is_refused (ok n) = false
is_refused (err n) = true

on_new_rcvd-IsOpen :
    (initial rcvd : ℕ) (c c' : RecvController) (amount : ℕ)
    → IsOpen initial rcvd c
    → on_new_rcvd c amount ≡ some (c', ok amount)
    → IsOpen initial (amount + rcvd) c'
on_new_rcvd-IsOpen initial rcvd c c' amount (a, b, d, f, g) e =
    elim (Bool-cases (ltb (c.rcvd_data + amount) u64_limit)) [
      | inr large ↦
          absurd (
            let h = sym e ∙ overflown c amount (ltb→le (c.rcvd_data + amount) u64_limit large) in
            cc)
      | inl small ↦ elim (Bool-cases (ltb c.max_data (c.rcvd_data + amount))) [
        | inl beyond ↦ absurd (
            let h =
              ap (λ (r : RecvController × Result ℕ ℕ). is_refused r.1)
                (some-injective _ _ (
                  sym e
                  ∙ refused c amount (ltb→lt (c.rcvd_data + amount) u64_limit small)
                      (ltb→lt c.max_data (c.rcvd_data + amount) beyond))) in
            cc)
        | inr within ↦
            go (widen (record c { rcvd_data = c.rcvd_data + amount })) refl
              (sym (
                  accepted c amount (ltb→lt (c.rcvd_data + amount) u64_limit small)
                    (ltb→le c.max_data (c.rcvd_data + amount) within))
                ∙ e)
              (ltb→le c.max_data (c.rcvd_data + amount) within)
      ]
    ]
  where
    go :
        (o : Option RecvController)
        → widen (record c { rcvd_data = c.rcvd_data + amount }) ≡ o
        → with_amount amount o ≡ some (c', ok amount)
        → c.rcvd_data + amount ≤ c.max_data
        → IsOpen initial (amount + rcvd) c'
    go none h k fits = absurd (cc)
    go (some k) h l fits =
        let same = ap (λ (r : RecvController × Result ℕ ℕ). r.0) (some-injective _ _ l) in
        widen-IsOpen initial (amount + rcvd) (record c { rcvd_data = c.rcvd_data + amount }) c'
          (omega arith) b (omega arith) f g (h ∙ ap some same)

accepted-IsOpen :
    (initial : ℕ) (amounts : List ℕ) (c : RecvController)
    → Accepted initial amounts c
    → IsOpen initial (sum amounts) c
accepted-IsOpen initial _ _ (start _ h) = new_recver-IsOpen initial h
accepted-IsOpen initial _ c' (next _ amounts c _ amount run e) =
    on_new_rcvd-IsOpen initial (sum amounts) c c' amount (accepted-IsOpen initial amounts c run) e

-- After any amounts that were accepted, an amount of new data is accepted if all data together fits
-- the limit that the peer was told last; then the peer is told of a limit that leaves it at least
-- half of the first limit, or knows one already. Otherwise the call is a flow control error that
-- tells by how much the limit is exceeded. The sum of the data must fit 64 bits, and the next limit
-- a variable-length integer.
pub on_new_rcvd_lem :
    (initial : ℕ) (amounts : List ℕ) (c : RecvController) (amount : ℕ)
    → Accepted initial amounts c
    → sum amounts + amount < u64_limit
    → advertised initial c.broker + initial / 2 ≤ varint_max
    → ((amount + sum amounts ≤ advertised initial c.broker)
        × ((c' : RecvController) × (on_new_rcvd c amount ≡ some (c', ok amount))
            × (amount + sum amounts + initial / 2 ≤ advertised initial c'.broker)))
      ⊎ ((advertised initial c.broker < amount + sum amounts)
          × ((c' : RecvController) × (on_new_rcvd c amount
                ≡ some (c', err (amount + sum amounts - advertised initial c.broker)))))
on_new_rcvd_lem initial amounts c amount run small room =
    let (a, b, d, f, g) = accepted-IsOpen initial amounts c run in
    let small' : c.rcvd_data + amount < u64_limit = omega arith in
    let n : c.rcvd_data + amount ≡ amount + sum amounts = omega arith in
    elim (Bool-cases (ltb c.max_data (c.rcvd_data + amount))) [
      | inl beyond ↦
          let lt = ltb→lt c.max_data (c.rcvd_data + amount) beyond in
          let m : c.rcvd_data + amount - c.max_data
              ≡ amount + sum amounts - advertised initial c.broker =
            omega arith in
          inr (
            omega arith,
            (
              record c { rcvd_data = c.rcvd_data + amount },
              refused c amount small' lt
                  ∙ ap (λ k. some (record c { rcvd_data = c.rcvd_data + amount }, err k)) m,
            ),
          )
      | inr within ↦
          let le = ltb→le c.max_data (c.rcvd_data + amount) within in
          let (c', widened) =
            widen-IsSome (record c { rcvd_data = c.rcvd_data + amount }) (omega arith) in
          let done = accepted c amount small' le ∙ ap (with_amount amount) widened in
          let (a', b', d', f', g') =
            accepted-IsOpen initial (amount ∷ amounts) c'
              (next initial amounts c c' amount run done) in
          inl (omega arith, (c', done, omega arith))
    ]
