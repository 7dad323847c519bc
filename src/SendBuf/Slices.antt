-- ===== src/SendBuf/Slices.antt =====
-- The two parts of a ring buffer against its bytes.
use gm_quic.Prelude.{
  ℕ, zero, suc, ◌+◌, ◌-◌, ◌≤◌, ◌≡◌, refl, ap, sym, ◌∙◌, min, List, [], ◌∷◌, ◌++◌, some, arith, true,
  leb, length, take, drop, length-append,
}
use gm_quic.SendBuf.Buffer.{slice, parts}

pieces :
    (l r : List ℕ) (a k p n q m : ℕ)
    → p ≡ min a (length l)
    → n ≡ min (length l) (a + k) - p
    → q ≡ a - length l
    → m ≡ (a + k) - length l - q
    → take n (drop p l) ++ take m (drop q r) ≡ take k (drop a (l ++ r))
pieces [] r a k p n q m e f g h =
    let e' : p ≡ 0 = omega (arith, e) in
    let f' : n ≡ 0 = omega (arith, f) in
    let g' : q ≡ a = omega (arith, g) in
    let h' : m ≡ k = omega (arith, h, g) in rw (e', f', g', h') refl
pieces (x ∷ l) r zero zero p n q m e f g h =
    let f' : n ≡ 0 = omega (arith, f) in let h' : m ≡ 0 = omega (arith, h) in rw (f', h') refl
pieces (x ∷ l) r zero (suc k) p n q m e f g h =
    let e' : p ≡ 0 = omega (arith, e) in
    let f' : n ≡ suc (n - 1) = omega (arith, e, f) in
    let g' : q ≡ 0 = omega (arith, g) in
    let ih =
      pieces l r zero k 0 (n - 1) 0 m (omega arith) (omega (arith, e, f)) (omega arith)
        (omega (arith, g, h)) in
    rw (e', f', g') (ap (λ u. x ∷ u) ih)
pieces (x ∷ l) r (suc a) k p n q m e f g h =
    let e' : p ≡ suc (p - 1) = omega (arith, e) in
    let ih =
      pieces l r a k (p - 1) n q m (omega (arith, e)) (omega (arith, e, f)) (omega (arith, g))
        (omega (arith, h)) in
    rw e' ih

slice-some :
    (l : List ℕ) (from to : ℕ)
    → from ≤ to
    → to ≤ length l
    → slice l from to ≡ some (take (to - from) (drop from l))
unfolding slice
slice-some l from to h k =
    let order : leb from to ≡ true = ground (arith, h) in
    let inside : leb to (length l) ≡ true = ground (arith, k) in rw order (rw inside refl)

-- The two parts are the bytes of the range.
pub parts_lem :
    (as_slices : List ℕ → List ℕ × List ℕ) (bytes : List ℕ) (start end : ℕ)
    → (as_slices bytes).0 ++ (as_slices bytes).1 ≡ bytes
    → start ≤ end
    → end ≤ length bytes
    → (s1 : List ℕ) × (s2 : List ℕ) × (parts as_slices bytes start end ≡ some (s1, s2))
      × (s1 ++ s2 ≡ take (end - start) (drop start bytes))
unfolding parts
parts_lem as_slices bytes start end whole h k =
    let l = (as_slices bytes).0 in
    let r = (as_slices bytes).1 in
    let size : length bytes ≡ length l + length r = ap length (sym whole) ∙ length-append l r in
    let first =
      slice-some l (min start (length l)) (min (length l) end) (omega (arith, h)) (omega arith) in
    let second =
      slice-some r (start - length l) (end - length l) (omega (arith, h))
        (omega (arith, k, size)) in
    (
      take (min (length l) end - min start (length l)) (drop (min start (length l)) l),
      take (end - length l - (start - length l)) (drop (start - length l) r),
      rw first (rw second refl),
      pieces l r start (end - start) (min start (length l))
            (min (length l) end - min start (length l)) (start - length l)
            (end - length l - (start - length l)) refl (omega (arith, h)) refl (omega (arith, h))
          ∙ ap (λ u. take (end - start) (drop start u)) whole,
    )
