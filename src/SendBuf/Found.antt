-- ===== src/SendBuf/Found.antt =====
-- The search for the first state that can be sent.
use gm_quic.Prelude.{
  ℕ, suc, ◌+◌, ◌≡◌, refl, ap, subst, ◌∙◌, List, [], ◌∷◌, Option, none, some, arith, Bool, true,
  false, not, ltb, ◌==◌, Bool-cases, inl, inr, get_elem?, take, ◌⊎◌,
}
use gm_quic.SendBuf.Map.{Color, recved, pending, flighting, lost, State}
use gm_quic.SendBuf.Pick.{find_sendable}
use gm_quic.SendBuf.Colors.{color_at}

-- What can be sent: lost data, and with an allowance of the flow control pending data.
abbrev pub is_ready : ℕ → Color → Bool
is_ready flow_limit pending = not (flow_limit == 0)
is_ready flow_limit flighting = false
is_ready flow_limit recved = false
is_ready flow_limit lost = true

abbrev pub NoneReady : ℕ → List State → Type 0
NoneReady flow_limit [] = Unit {0}
NoneReady flow_limit (s ∷ rest) = (is_ready flow_limit s.color ≡ false) × NoneReady flow_limit rest

pub NoneReady-color_at :
    (flow_limit : ℕ) (pre : Color) (states : List State) (x : ℕ)
    → is_ready flow_limit pre ≡ false
    → NoneReady flow_limit states
    → is_ready flow_limit (color_at pre states x) ≡ false
NoneReady-color_at flow_limit pre [] x h ready = h
NoneReady-color_at flow_limit pre (s ∷ rest) x h (a, ready) = elim (Bool-cases (ltb x s.offset)) [
  | inl before ↦ rw before h
  | inr behind ↦ rw behind (NoneReady-color_at flow_limit s.color rest x a ready)
]

-- The first state that can be sent.
abbrev pub IsFirst : ℕ → List State → ℕ → State → Type 0
IsFirst flow_limit states j s =
    (get_elem? states j ≡ some s)
    × (is_ready flow_limit s.color ≡ true)
    × NoneReady flow_limit (take j states)

abbrev pub IsFound : ℕ → ℕ → List State → Option (ℕ × State) → Type 0
IsFound flow_limit k states none = NoneReady flow_limit states
IsFound flow_limit k states (some (index, s)) =
    (j : ℕ) × (index ≡ k + j) × IsFirst flow_limit states j s

IsFound-cons :
    (flow_limit k : ℕ) (s : State) (rest : List State) (r : Option (ℕ × State))
    → is_ready flow_limit s.color ≡ false
    → IsFound flow_limit (suc k) rest r
    → IsFound flow_limit k (s ∷ rest) r
IsFound-cons flow_limit k s rest none h f = (h, f)
IsFound-cons flow_limit k s rest (some (index, t)) h (j, e, (at, ready, before)) =
    (suc j, omega (arith, e), (at, ready, (h, before)))

Color-cases : (c : Color) → (c ≡ pending) ⊎ ((c ≡ flighting) ⊎ ((c ≡ recved) ⊎ (c ≡ lost)))
Color-cases pending = inl refl
Color-cases flighting = inr (inl refl)
Color-cases recved = inr (inr (inl refl))
Color-cases lost = inr (inr (inr refl))

pub find_sendable_lem :
    (flow_limit k : ℕ) (states : List State)
    → IsFound flow_limit k states ((find_sendable flow_limit k states).1)
unfolding find_sendable
find_sendable_lem flow_limit k [] = tt
find_sendable_lem flow_limit k (s ∷ rest) =
    let later = (find_sendable flow_limit (suc k) rest).1 in
    let passed : is_ready flow_limit s.color ≡ false → IsFound flow_limit k (s ∷ rest) later =
      λ h. IsFound-cons flow_limit k s rest later h (find_sendable_lem flow_limit (suc k) rest) in
    let taken : is_ready flow_limit s.color ≡ true → IsFound flow_limit k (s ∷ rest) (some (k, s)) =
      λ h. (0, omega arith, (refl, h, tt)) in
    elim (Color-cases s.color) [
      | inl e ↦ elim (Bool-cases (flow_limit == 0)) [
        | inl closed ↦
            subst (IsFound flow_limit k (s ∷ rest)) {x = later} (rw e (rw closed refl))
              (passed (ap (is_ready flow_limit) e ∙ ap not closed))
        | inr allowed ↦
            subst (IsFound flow_limit k (s ∷ rest)) {x = some (k, s)} (rw e (rw allowed refl))
              (taken (ap (is_ready flow_limit) e ∙ ap not allowed))
      ]
      | inr (inl e) ↦
          subst (IsFound flow_limit k (s ∷ rest)) {x = later} (rw e refl)
            (passed (ap (is_ready flow_limit) e))
      | inr (inr (inl e)) ↦
          subst (IsFound flow_limit k (s ∷ rest)) {x = later} (rw e refl)
            (passed (ap (is_ready flow_limit) e))
      | inr (inr (inr e)) ↦
          subst (IsFound flow_limit k (s ∷ rest)) {x = some (k, s)} (rw e refl)
            (taken (ap (is_ready flow_limit) e))
    ]
