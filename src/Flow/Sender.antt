-- ===== src/Flow/Sender.antt =====
-- One call on the controller of the sending side.
use gm_quic.Prelude.{
  ℕ, ◌+◌, ◌-◌, ◌≤◌, ◌<◌, max, min, ◌≡◌, refl, ap, subst, List, [], ◌∷◌, ◌++◌, Option, some, arith,
  ltb, leb, ◌==◌, ◌>>=◌, if◌then◌else◌, not, ◌&&◌, ltb→lt, ltb→le, Bool-cases, Bool, true, false,
  inl, inr,
}
use gm_quic.VarInt.{varint_max}
use gm_quic.Flow.{
  SendControler, Credit, new_sender, increase, data_blocked, take_credit, return_credit,
}

abbrev pub EachBelow : ℕ → List ℕ → Type 0
EachBelow n [] = Unit {0}
EachBelow n (x ∷ xs) = (x < n) × EachBelow n xs

abbrev pub EachAbove : ℕ → List ℕ → Type 0
EachAbove n [] = Unit {0}
EachAbove n (x ∷ xs) = (n < x) × EachAbove n xs

abbrev pub IsRising : List ℕ → Type 0
IsRising [] = Unit {0}
IsRising (x ∷ xs) = EachAbove x xs × IsRising xs

EachBelow-mono : (m n : ℕ) (xs : List ℕ) → m ≤ n → EachBelow m xs → EachBelow n xs
EachBelow-mono m n [] h b = tt
EachBelow-mono m n (x ∷ xs) h b = (omega (arith, b.0), EachBelow-mono m n xs h b.1)

EachBelow-append : (n x : ℕ) (xs : List ℕ) → EachBelow n xs → x < n → EachBelow n (xs ++ (x ∷ []))
EachBelow-append n x [] b h = (h, tt)
EachBelow-append n x (y ∷ ys) b h = (b.0, EachBelow-append n x ys b.1 h)

EachAbove-append : (n x : ℕ) (xs : List ℕ) → EachAbove n xs → n < x → EachAbove n (xs ++ (x ∷ []))
EachAbove-append n x [] b h = (h, tt)
EachAbove-append n x (y ∷ ys) b h = (b.0, EachAbove-append n x ys b.1 h)

IsRising-append : (x : ℕ) (xs : List ℕ) → IsRising xs → EachBelow x xs → IsRising (xs ++ (x ∷ []))
IsRising-append x [] r b = (tt, tt)
IsRising-append x (y ∷ ys) r b = (EachAbove-append y x ys r.0 b.0, IsRising-append x ys r.1 b.1)

-- The frames rise, and each is below the limit, or is the limit while the controller is blocked.
abbrev IsToldOnce : SendControler → Type 0
IsToldOnce c =
    IsRising c.broker × EachBelow (if c.blocking then c.max_data + 1 else c.max_data) c.broker

-- A controller that has given out `out` and keeps to the limit.
abbrev pub IsKept : SendControler → ℕ → ℕ → Type 0
IsKept c out granted =
    (c.sent_data ≡ out)
    × (out ≤ granted)
    × (c.max_data ≡ granted)
    × (granted ≤ varint_max)
    × IsToldOnce c

pub new_sender-IsKept : (initial : ℕ) → initial ≤ varint_max → IsKept (new_sender initial) 0 initial
unfolding new_sender
new_sender-IsKept initial h = (refl, omega arith, refl, h, (tt, tt))

pub increase-IsKept :
    (c : SendControler) (out granted limit : ℕ)
    → limit ≤ varint_max
    → IsKept c out granted
    → IsKept (increase limit c) out (max granted limit)
unfolding increase
increase-IsKept c out granted limit h (a, b, d, e, (f, g)) =
    elim (Bool-cases (ltb c.max_data limit)) [
      | inl more ↦
          let lt = ltb→lt c.max_data limit more in
          let bound : (if c.blocking then c.max_data + 1 else c.max_data) ≤ limit = ground arith in
          rw more (
            a,
            omega arith,
            omega arith,
            omega arith,
            (
              f,
              EachBelow-mono (if c.blocking then c.max_data + 1 else c.max_data) limit c.broker
                  bound g,
            ),
          )
      | inr less ↦
          let le = ltb→le c.max_data limit less in
          rw less (a, omega arith, omega arith, omega arith, (f, g))
    ]

data_blocked-IsKept :
    (c : SendControler) (out granted : ℕ)
    → IsKept c out granted
    → (c' : SendControler) × (data_blocked c ≡ some c') × IsKept c' out granted
unfolding data_blocked
data_blocked-IsKept c out granted (a, b, d, e, (f, g)) =
    elim (Bool-cases ((c.sent_data == c.max_data) && not c.blocking)) [
      | inl full ↦
          let fits : leb c.max_data varint_max ≡ true = ground arith in
          let clear : c.blocking ≡ false = ground arith in
          let g' : EachBelow c.max_data c.broker =
            subst (λ (b : Bool). EachBelow (if b then c.max_data + 1 else c.max_data) c.broker)
              clear g in
          (
            record c { blocking = true; broker = c.broker ++ (c.max_data ∷ []) },
            rw full (rw fits),
            (
              a,
              b,
              d,
              e,
              (
                IsRising-append c.max_data c.broker f g',
                EachBelow-append (c.max_data + 1) c.max_data c.broker
                    (EachBelow-mono c.max_data (c.max_data + 1) c.broker (omega arith) g')
                    (omega arith),
              ),
            ),
          )
      | inr quiet ↦ (c, rw quiet, (a, b, d, e, (f, g)))
    ]

take_credit-blocked :
    (c c' : SendControler) (out granted quota : ℕ)
    → IsKept c out granted
    → data_blocked (record c { sent_data = c.sent_data + min (granted - out) quota }) ≡ some c'
    → take_credit c quota ≡ some (c', record { available = min (granted - out) quota })
unfolding take_credit
take_credit-blocked c c' out granted quota (a, b, d, e, f) blocked =
    let allowed : leb c.sent_data c.max_data ≡ true = ground arith in
    let same : min (c.max_data - c.sent_data) quota ≡ min (granted - out) quota =
      ap (λ n. min n quota) (omega arith) in
    rw allowed (
      rw same (
        ap
          (λ (o : Option SendControler).
            o >>= λ k. some (k, record { available = min (granted - out) quota }))
          blocked))

pub take_credit-IsKept :
    (c : SendControler) (out granted quota : ℕ)
    → IsKept c out granted
    → (c' : SendControler) × (take_credit c quota
        ≡ some (c', record { available = min (granted - out) quota }))
      × IsKept c' (out + min (granted - out) quota) granted
take_credit-IsKept c out granted quota (a, b, d, e, f) =
    let (c', blocked, kept) =
      data_blocked-IsKept (record c { sent_data = c.sent_data + min (granted - out) quota })
        (out + min (granted - out) quota) granted (omega arith, omega arith, d, e, f) in
    (c', take_credit-blocked c c' out granted quota (a, b, d, e, f) blocked, kept)

pub return_credit-IsKept :
    (c : SendControler) (rest granted : ℕ) (left : Credit)
    → IsKept c (rest + left.available) granted
    → (c' : SendControler) × (return_credit c left ≡ some c') × IsKept c' rest granted
unfolding return_credit
return_credit-IsKept c rest granted left (a, b, d, e, f) = (
  record c {
    sent_data = c.sent_data - left.available;
    tx_wakers = if ltb 0 left.available then c.tx_wakers + 1 else c.tx_wakers;
  },
  ground arith,
  (omega arith, omega arith, d, e, f),
)
