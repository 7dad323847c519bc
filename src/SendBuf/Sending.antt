-- ===== src/SendBuf/Sending.antt =====
-- `SendBuf::pick_up` and `BufMap::pick`: what is sent next.
use gm_quic.Prelude.{
  ℕ, suc, ◌+◌, ◌-◌, ◌≤◌, ◌<◌, ◌≡◌, refl, ap, sym, subst, ◌∙◌, List, ◌∷◌, ◌++◌, Option, some, arith,
  Bool, true, false, ltb, if◌then◌else◌, Bool-cases, inl, inr, ltb→lt, ltb→le, length, take, drop,
  min, ◌⊎◌,
}
use gm_quic.SendBuf.Map.{Color, recved, pending, flighting, lost, ◌is◌, State, BufMap}
use gm_quic.SendBuf.Pick.{Picked, picked, blocked, pick}
use gm_quic.SendBuf.Buffer.{SendBuf, PickUp, sending, waiting}
use gm_quic.SendBuf.Colors.{color_at, IsOrdered, color_at-front}
use gm_quic.SendBuf.Splice.{IsOrdered-get}
use gm_quic.SendBuf.Cuts.{split-get}
use gm_quic.SendBuf.Assemble.{marked}
use gm_quic.SendBuf.Found.{is_ready, NoneReady-color_at, IsFirst}
use gm_quic.SendBuf.Picks.{IsOrdered-split}
use gm_quic.SendBuf.PickFirst.{IsPick, pick_lem, allowance_of}
use gm_quic.SendBuf.Holding.{color_of}

-- No byte in front of the first state that can be sent can be sent.
IsFirst-before :
    (m : BufMap) (flow_limit j : ℕ) (s : State) (x : ℕ)
    → IsOrdered 0 m.size m.states
    → IsFirst flow_limit m.states j s
    → x < s.offset
    → is_ready flow_limit (color_at recved m.states x) ≡ false
IsFirst-before m flow_limit j s x ordered (at, ready, before) lt =
    let (front, back) = IsOrdered-split 0 m.size m.states j s ordered at in
    let (low, inside) = IsOrdered-get 0 m.size m.states j s ordered at in
    let rest = drop (suc j) m.states in
    let same : color_at recved m.states x ≡ color_at recved (take j m.states) x =
      ap (λ u. color_at recved u x) (sym (split-get m.states j s at))
      ∙ color_at-front 0 s.offset m.size recved (take j m.states) (s ∷ rest) x
          (omega arith, inside, back) lt in
    ap (is_ready flow_limit) same
    ∙ NoneReady-color_at flow_limit recved (take j m.states) x refl before

allowance_of-pending :
    (c : Color) (n flow_limit : ℕ)
    → is_ready flow_limit c ≡ true
    → allowance_of c n flow_limit ≡ (if c is pending then min n flow_limit else n)
allowance_of-pending pending n flow_limit h = refl
allowance_of-pending flighting n flow_limit h = absurd (cc)
allowance_of-pending recved n flow_limit h = absurd (cc)
allowance_of-pending lost n flow_limit h = refl

module _ (m : BufMap) (predicate : ℕ → Option ℕ) (flow_limit : ℕ)
    (ordered : IsOrdered 0 m.size m.states)
    (positive : (x n : ℕ) → predicate x ≡ some n → 0 < n) where
  known : (r : BufMap × Picked) → pick m predicate flow_limit ≡ r → IsPick m predicate flow_limit r
  known r e =
      subst (IsPick m predicate flow_limit) e (pick_lem m predicate flow_limit ordered positive)

  -- With states in order and a predicate that never allows less than one byte: the bytes of a range
  -- that is picked are in flight then, and no other byte changes its color.
  pub pick-colors :
      (m' : BufMap) (start end : ℕ) (fresh : Bool) (x : ℕ)
      → pick m predicate flow_limit ≡ (m', picked start end fresh)
      → x < m.size
      → color_at recved m'.states x ≡ marked (λ _. flighting) start end (color_at recved m.states) x
  pick-colors m' start end fresh x e inside =
      let (j, s, n, first, at, _, _, (_, _, _, _, changed, _)) =
        known (m', picked start end fresh) e in
      changed.1 x inside ∙ ap (λ y. marked (λ _. flighting) y end (color_at recved m.states) x) at

  -- With states in order and a predicate that never allows less than one byte: a range that is picked
  -- is not empty, and its bytes all have the color of its first one, which can be sent, while none in
  -- front of it can. The range counts as fresh just if this color is that of data never sent. It is
  -- no longer than what the predicate allows there, and data never sent no longer than the flow
  -- control allows.
  pub pick-first :
      (m' : BufMap) (start end : ℕ) (fresh : Bool) (x : ℕ)
      → pick m predicate flow_limit ≡ (m', picked start end fresh)
      → let color = color_at recved m.states in
        (n : ℕ) × (predicate start ≡ some n)
        × (fresh ≡ (color start is pending))
        × (end ≤ start + (if color start is pending then min n flow_limit else n))
        × (start < end)
        × (is_ready flow_limit (color start) ≡ true)
        × (((x < start) × (is_ready flow_limit (color x) ≡ false))
            ⊎ ((start ≤ x) × ((end ≤ x) ⊎ (color x ≡ color start))))
  pick-first m' start end fresh x e =
      let (j, s, n, first, at, is_fresh, available, (longer, bound, _, _, _, color)) =
        known (m', picked start end fresh) e in
      let here : color_at recved m.states start ≡ s.color =
        color start (omega (arith, at)) (omega (arith, at, longer)) in
      let allowed : allowance_of s.color n flow_limit
          ≡ (if color_at recved m.states start is pending then min n flow_limit else n) =
        allowance_of-pending s.color n flow_limit first.1
        ∙ ap (λ c. if c is pending then min n flow_limit else n) (sym here) in
      (
        n,
        available,
        is_fresh ∙ ap (λ c. c is pending) (sym here),
        omega (arith, at, bound, allowed),
        omega (arith, at, longer),
        ap (is_ready flow_limit) here ∙ first.1,
        elim (Bool-cases (ltb x start)) [
          | inl before ↦
              let lt = ltb→lt x start before in
              inl (lt, IsFirst-before m flow_limit j s x ordered first (omega (arith, at, lt)))
          | inr behind ↦
              let le = ltb→le x start behind in
              inr (
                le,
                elim (Bool-cases (ltb x end)) [
                  | inl inside ↦
                      inr (color x (omega (arith, at, le)) (ltb→lt x end inside) ∙ sym here)
                  | inr beyond ↦ inl (ltb→le x end beyond)
                ],
              )
        ],
      )

  live_cases :
      (x : ℕ) (r : BufMap × Picked)
      → ((y : ℕ) → (n : ℕ) × (predicate y ≡ some n))
      → is_ready flow_limit (color_at recved m.states x) ≡ true
      → pick m predicate flow_limit ≡ r
      → (m' : BufMap) × (start : ℕ) × (end : ℕ) × (fresh : Bool) × (pick m predicate flow_limit
          ≡ (m', picked start end fresh))
        × (start ≤ x)
  live_cases x (m', blocked signals) accepts ready e = elim (known (m', blocked signals) e).1 [
    | inl no_one ↦
        let not_ready = NoneReady-color_at flow_limit recved m.states x refl no_one in absurd (cc)
    | inr (j, s, first, refused) ↦ let (n, accepted) = accepts s.offset in absurd (cc)
  ]
  live_cases x (m', picked start end fresh) accepts ready e =
      let (n, _, _, _, _, _, where_x) = pick-first m' start end fresh x e in
      (
        m',
        start,
        end,
        fresh,
        e,
        elim where_x [ inl (lt, not_ready) ↦ absurd (cc) | inr (le, inside) ↦ le ],
      )

  -- With states in order and a predicate that refuses no offset and never allows less than one byte:
  -- if some byte can be sent, a range is picked that starts there or in front of it.
  pub pick-live :
      (x : ℕ)
      → ((y : ℕ) → (n : ℕ) × (predicate y ≡ some n))
      → is_ready flow_limit (color_at recved m.states x) ≡ true
      → (m' : BufMap) × (start : ℕ) × (end : ℕ) × (fresh : Bool) × (pick m predicate flow_limit
          ≡ (m', picked start end fresh))
        × (start ≤ x)
  pick-live x accepts ready = live_cases x (pick m predicate flow_limit) accepts ready refl

-- What is given to be sent, against the buffer before and after: the bytes that were written at its
-- offset, as many as go in flight, while byte `x` keeps its color outside of them.
abbrev pub IsPickUp : List ℕ → SendBuf → SendBuf → ℕ → PickUp → Type 0
IsPickUp w b b' x (sending start fresh s1 s2) =
    let end = start + length (s1 ++ s2) in
    (start < end)
    × (end ≤ length w)
    × (s1 ++ s2 ≡ take (end - start) (drop start w))
    × (color_of b' x ≡ marked (λ _. flighting) start end (color_of b) x)
IsPickUp w b b' x (waiting signals) = b' ≡ b
