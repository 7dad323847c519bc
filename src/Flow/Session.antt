-- ===== src/Flow/Session.antt =====
-- The sending side while credits are out: the calls of all tasks in any order.
use gm_quic.Prelude.{
  ℕ, ◌+◌, ◌-◌, ◌≤◌, max, min, ◌≡◌, ap, sym, subst, ◌∙◌, List, [], ◌∷◌, ◌++◌, Option, some, arith,
  leb, ◌>>=◌, Bool-cases, inl, inr,
}
use mathlib.Core.Option.{some-injective}
use gm_quic.VarInt.{varint_max}
use gm_quic.Flow.{
  Result, ok, err, SendControler, Credit, ArcSendControler, new_sender, post_sent, increase_limit,
  credit, drop_credit, on_error,
}
use gm_quic.Flow.Sender.{
  IsRising, IsKept, new_sender-IsKept, increase-IsKept, take_credit-IsKept, return_credit-IsKept,
}

-- A controller, the credits that were given out and not dropped yet, the new data that was sent
-- with the credits so far, and the largest limit that the peer has granted.
pub record Session {ℓ} (E : Type ℓ) : Type ℓ where
  pub control : ArcSendControler E
  pub credits : List Credit
  pub posted : ℕ
  pub granted : ℕ

abbrev pub total : List Credit → ℕ
total [] = 0
total (c ∷ cs) = c.available + total cs

total-append : (xs ys : List Credit) → total (xs ++ ys) ≡ total xs + total ys
total-append [] ys = omega arith
total-append (x ∷ xs) ys = omega (arith, total-append xs ys)

post_sent-available :
    (c c' : Credit) (amount : ℕ)
    → post_sent c amount ≡ some c'
    → c'.available + amount ≡ c.available
unfolding post_sent
post_sent-available c c' amount e = elim (Bool-cases (leb amount c.available)) [
  | inl enough ↦
      let n = ap (λ (k : Credit). k.available) (some-injective _ _ (rw enough at e)) in ground arith
  | inr short ↦ absurd (let h = rw short at e in cc)
]

module _ {ℓ} {E : Type ℓ} where
  -- The controller keeps to the limit, or the connection has failed.
  abbrev IsControlled : ArcSendControler E → ℕ → ℕ → Type 0
  IsControlled (ok c) out granted = IsKept c out granted
  IsControlled (err e) out granted = out ≤ granted

  abbrev IsWithin : Session E → Type 0
  IsWithin s = IsControlled s.control (s.posted + total s.credits) s.granted

  -- One call of a task: it takes a credit, sends with a credit that it holds no more than that
  -- allows, or drops a credit; or a MAX_DATA frame arrives, or the connection fails.
  pub data Step : Session E → Session E → Type ℓ where
    takes :
        (s : Session E) (quota : ℕ) (control : ArcSendControler E) (given : Credit)
        → credit s.control quota ≡ some (control, ok given)
        → Step s (record s { control = control; credits = given ∷ s.credits })
    posts :
        (s : Session E) (front back : List Credit) (c c' : Credit) (amount : ℕ)
        → s.credits ≡ front ++ c ∷ back
        → post_sent c amount ≡ some c'
        → Step s (record s { credits = front ++ c' ∷ back; posted = s.posted + amount })
    drops :
        (s : Session E) (front back : List Credit) (c : Credit) (control : ArcSendControler E)
        → s.credits ≡ front ++ c ∷ back
        → drop_credit s.control c ≡ some control
        → Step s (record s { control = control; credits = front ++ back })
    grants :
        (s : Session E) (max_data : ℕ)
        → max_data ≤ varint_max
        → Step s (record s {
          control = increase_limit s.control max_data;
          granted = max s.granted max_data;
        })
    fails : (s : Session E) (e : E) → Step s (record s { control = on_error s.control e })

  abbrev pub opened : ℕ → Session E
  opened initial_max_data = record {
    control = ok (new_sender initial_max_data);
    credits = [];
    posted = 0;
    granted = initial_max_data;
  }

  pub data Reach : ℕ → Session E → Type ℓ where
    start : (initial : ℕ) → initial ≤ varint_max → Reach initial (opened initial)
    next : (initial : ℕ) (s s' : Session E) → Reach initial s → Step s s' → Reach initial s'

  IsControlled-le :
      (k : ArcSendControler E) (out granted : ℕ) → IsControlled k out granted → out ≤ granted
  IsControlled-le (ok c) out granted w = w.1
  IsControlled-le (err e) out granted w = w

  credit_of : Result E Credit → ℕ
  credit_of (ok c) = c.available
  credit_of (err e) = 0

  credit-IsControlled :
      (k k' : ArcSendControler E) (quota out granted : ℕ) (given : Credit)
      → credit k quota ≡ some (k', ok given)
      → IsControlled k out granted
      → IsControlled k' (out + given.available) granted
  unfolding credit credit_of
  credit-IsControlled (ok c) k' quota out granted given e w =
      let (c', taken, kept) = take_credit-IsKept c out granted quota w in
      let same = some-injective _ _ (
        sym e
        ∙ ap (λ (o : Option (SendControler × Credit)). o >>= λ r. some (ok r.0, ok r.1)) taken) in
      let n = ap (λ (r : ArcSendControler E × Result E Credit). credit_of r.1) same in
      subst (λ k. IsControlled k (out + given.available) granted)
        (sym (ap (λ (r : ArcSendControler E × Result E Credit). r.0) same))
        (subst (λ a. IsKept c' (out + a) granted) (sym n) kept)
  credit-IsControlled (err x) k' quota out granted given e w = absurd (cc)

  drop_credit-IsControlled :
      (k k' : ArcSendControler E) (left : Credit) (rest granted : ℕ)
      → drop_credit k left ≡ some k'
      → IsControlled k (rest + left.available) granted
      → IsControlled k' rest granted
  unfolding drop_credit
  drop_credit-IsControlled (ok c) k' left rest granted e w =
      let (c', returned, kept) = return_credit-IsKept c rest granted left w in
      subst (λ k. IsControlled k rest granted)
        (sym (
          some-injective _ _
            (sym e ∙ ap (λ (o : Option SendControler). o >>= λ r. some (ok r)) returned)))
        kept
  drop_credit-IsControlled (err x) k' left rest granted e w =
      subst (λ k. IsControlled k rest granted) (some-injective _ _ e) (omega arith)

  increase_limit-IsControlled :
      (k : ArcSendControler E) (out granted limit : ℕ)
      → limit ≤ varint_max
      → IsControlled k out granted
      → IsControlled (increase_limit k limit) out (max granted limit)
  unfolding increase_limit
  increase_limit-IsControlled (ok c) out granted limit h w = increase-IsKept c out granted limit h w
  increase_limit-IsControlled (err x) out granted limit h w = omega arith

  on_error-IsControlled :
      (k : ArcSendControler E) (e : E) (out granted : ℕ)
      → IsControlled k out granted
      → IsControlled (on_error k e) out granted
  unfolding on_error
  on_error-IsControlled (ok c) e out granted w = w.1
  on_error-IsControlled (err x) e out granted w = w

  Step-IsWithin : (s s' : Session E) → Step s s' → IsWithin s → IsWithin s'
  Step-IsWithin s _ (takes _ quota control given e) w =
      let kept =
        credit-IsControlled s.control control quota (s.posted + total s.credits) s.granted given e
          w in
      subst (λ n. IsControlled control n s.granted) (omega arith) kept
  Step-IsWithin s _ (posts _ front back c c' amount e f) w =
      let n = post_sent-available c c' amount f in
      let same : s.posted + total s.credits ≡ s.posted + amount + total (front ++ c' ∷ back) =
        omega (arith, ap total e, total-append front (c ∷ back), total-append front (c' ∷ back)) in
      subst (λ n. IsControlled s.control n s.granted) same w
  Step-IsWithin s _ (drops _ front back c control e f) w =
      let same : s.posted + total s.credits ≡ s.posted + total (front ++ back) + c.available =
        omega (arith, ap total e, total-append front (c ∷ back), total-append front back) in
      drop_credit-IsControlled s.control control c (s.posted + total (front ++ back)) s.granted f
        (subst (λ n. IsControlled s.control n s.granted) same w)
  Step-IsWithin s _ (grants _ max_data h) w =
      increase_limit-IsControlled s.control (s.posted + total s.credits) s.granted max_data h w
  Step-IsWithin s _ (fails _ e) w =
      on_error-IsControlled s.control e (s.posted + total s.credits) s.granted w

  reach-IsWithin : (initial : ℕ) (s : Session E) → Reach initial s → IsWithin s
  reach-IsWithin initial _ (start _ h) = new_sender-IsKept initial h
  reach-IsWithin initial s' (next _ s _ reach step) =
      Step-IsWithin s s' step (reach-IsWithin initial s reach)

  -- Whatever the tasks do with their credits, in any order, and whenever MAX_DATA frames arrive or
  -- the connection fails: the new data that was sent, with all that the credits still allow, is
  -- never more than the largest limit that the peer has granted.
  pub posted_lem :
      (initial : ℕ) (s : Session E) → Reach initial s → s.posted + total s.credits ≤ s.granted
  posted_lem initial s reach =
      IsControlled-le s.control (s.posted + total s.credits) s.granted
        (reach-IsWithin initial s reach)

  IsControlled-ok :
      (k : ArcSendControler E) (c : SendControler) (out granted : ℕ)
      → IsControlled k out granted
      → k ≡ ok c
      → IsKept c out granted
  IsControlled-ok k c out granted w e = subst (λ k. IsControlled k out granted) e w

  -- While the connection has not failed, the controller counts as sent just what was sent and what
  -- the credits that are out allow, its limit is the largest that was granted, and the limits of the
  -- DATA_BLOCKED frames rise: the peer is told of a limit that blocks the sender once at most.
  pub reach-IsRising :
      (initial : ℕ) (s : Session E) (c : SendControler)
      → Reach initial s
      → s.control ≡ ok c
      → (c.sent_data ≡ s.posted + total s.credits) × (c.max_data ≡ s.granted) × IsRising c.broker
  reach-IsRising initial s c reach e =
      let (a, _, d, _, (f, _)) =
        IsControlled-ok s.control c (s.posted + total s.credits) s.granted
          (reach-IsWithin initial s reach) e in
      (a, d, f)

  -- Whatever the tasks did with their credits before, and whatever limits arrived: while the
  -- connection has not failed, a task that asks for credit does not panic and gets as much as it asks
  -- for, or, if that is less, all that the limit leaves beyond what was sent and what the credits
  -- that are out allow.
  pub credit_lem :
      (initial : ℕ) (s : Session E) (c : SendControler) (quota : ℕ)
      → Reach initial s
      → s.control ≡ ok c
      → (c' : SendControler) × (credit s.control quota
          ≡ some (
            ok c',
            ok (record { available = min (s.granted - (s.posted + total s.credits)) quota }),
          ))
  unfolding credit
  credit_lem initial s c quota reach e =
      let kept =
        IsControlled-ok s.control c (s.posted + total s.credits) s.granted
          (reach-IsWithin initial s reach) e in
      let (c', taken, _) = take_credit-IsKept c (s.posted + total s.credits) s.granted quota kept in
      (
        c',
        ap (λ k. credit k quota) e
            ∙ ap (λ (o : Option (SendControler × Credit)). o >>= λ r. some (ok r.0, ok r.1)) taken,
      )

  -- While the connection has not failed, a credit that is out can be dropped without a panic.
  drop_credit_lem :
      (initial : ℕ) (s : Session E) (c : SendControler) (front back : List Credit) (left : Credit)
      → Reach initial s
      → s.control ≡ ok c
      → s.credits ≡ front ++ left ∷ back
      → (c' : SendControler) × (drop_credit s.control left ≡ some (ok c'))
  unfolding drop_credit
  drop_credit_lem initial s c front back left reach e f =
      let kept =
        IsControlled-ok s.control c (s.posted + total s.credits) s.granted
          (reach-IsWithin initial s reach) e in
      let same : s.posted + total s.credits ≡ s.posted + total (front ++ back) + left.available =
        omega (arith, ap total f, total-append front (left ∷ back), total-append front back) in
      let (c', returned, _) =
        return_credit-IsKept c (s.posted + total (front ++ back)) s.granted left
          (subst (λ n. IsKept c n s.granted) same kept) in
      (
        c',
        ap (λ k. drop_credit k left) e
            ∙ ap (λ (o : Option SendControler). o >>= λ r. some (ok r)) returned,
      )
