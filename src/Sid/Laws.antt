-- ===== src/Sid/Laws.antt =====
-- Lemmas on the fields of a stream identifier (qbase/src/sid.rs).
use gm_quic.Prelude.{ℕ, ◌+◌, ◌*◌, ◌/◌, ◌%◌, ◌^◌, ◌≤◌, ◌<◌, ◌≡◌, ◌≢◌, refl, none, some, arith}
use Prim.Native.Nat.{bit_and}
use gm_quic.Prelude.Bits.{or-shift, and-mask, and-high}
use gm_quic.Sid.{
  Role, client, server, Dir, bi, uni, role_bit, dir_index, max_streams_limit, new, role, dir, id,
  next_unchecked, ByDir, at, set_at,
}

pub role_bit-lt : (r : Role) → role_bit r < 2
role_bit-lt client = omega arith
role_bit-lt server = omega arith

pub dir_index-lt : (d : Dir) → dir_index d < 2
dir_index-lt bi = omega arith
dir_index-lt uni = omega arith

-- The identifier as a number: two low bits under the number of the stream.
pub new_lem :
    (r : Role) (d : Dir) (n : ℕ)
    → n ≤ max_streams_limit
    → new r d n ≡ some (4 * n + 2 * dir_index d + role_bit r)
unfolding new
new_lem r d n h = ground (
  arith,
  dir_index-lt d,
  role_bit-lt r,
  or-shift 1 n (dir_index d),
  or-shift 1 (2 * n + dir_index d) (role_bit r),
)

pub role-parts : (r : Role) (d : Dir) (n : ℕ) → role (4 * n + 2 * dir_index d + role_bit r) ≡ r
unfolding role
role-parts client d n = ground (arith, and-mask 1 (4 * n + 2 * dir_index d + 0))
role-parts server d n = ground (arith, and-mask 1 (4 * n + 2 * dir_index d + 1))

second_bit : (a : ℕ) → bit_and a 2 ≡ a / 2 % 2 * 2
second_bit a = omega (arith, and-high 1 a 1, and-mask 1 (a / 2))

pub dir-parts : (r : Role) (d : Dir) (n : ℕ) → dir (4 * n + 2 * dir_index d + role_bit r) ≡ d
unfolding dir
dir-parts r bi n = ground (arith, role_bit-lt r, second_bit (4 * n + 2 * 0 + role_bit r))
dir-parts r uni n = ground (arith, role_bit-lt r, second_bit (4 * n + 2 * 1 + role_bit r))

pub id-parts : (r : Role) (d : Dir) (n : ℕ) → id (4 * n + 2 * dir_index d + role_bit r) ≡ n
unfolding id
id-parts r d n = omega (arith, role_bit-lt r, dir_index-lt d)

-- Every identifier is put together from its parts.
pub sid_parts : (sid : ℕ) → sid ≡ 4 * id sid + 2 * dir_index (dir sid) + role_bit (role sid)
unfolding id dir role
sid_parts sid = ground (arith, second_bit sid, and-mask 1 sid)

-- `StreamId::new` loses nothing: role, direction and number are read back, up to the limit, and
-- beyond it there is no identifier. Identifiers of one role and direction are ordered as their
-- numbers, and `next_unchecked` is the identifier of the next number.
pub new_fields :
    (r : Role) (d : Dir) (n : ℕ)
    → n ≤ max_streams_limit
    → (sid : ℕ) × (new r d n ≡ some sid)
      × (role sid ≡ r)
      × (dir sid ≡ d)
      × (id sid ≡ n)
      × (sid < 2 ^ 62)
      × (next_unchecked sid ≡ 4 * (n + 1) + 2 * dir_index d + role_bit r)
unfolding next_unchecked
new_fields r d n h = (
  4 * n + 2 * dir_index d + role_bit r,
  new_lem r d n h,
  role-parts r d n,
  dir-parts r d n,
  id-parts r d n,
  omega (arith, role_bit-lt r, dir_index-lt d),
  omega (arith, role_bit-lt r, dir_index-lt d),
)

pub new-none : (r : Role) (d : Dir) (n : ℕ) → max_streams_limit < n → new r d n ≡ none
unfolding new
new-none r d n h = ground arith

module _ {ℓ} {A : Type ℓ} where
  pub at-set_at_self : (p : ByDir A) (d : Dir) (a : A) → at (set_at p d a) d ≡ a
  at-set_at_self p bi a = refl
  at-set_at_self p uni a = refl

  pub at-set_at_ne : (p : ByDir A) (d e : Dir) (a : A) → d ≢ e → at (set_at p d a) e ≡ at p e
  at-set_at_ne p bi bi a h = absurd (h refl)
  at-set_at_ne p bi uni a h = refl
  at-set_at_ne p uni bi a h = refl
  at-set_at_ne p uni uni a h = absurd (h refl)
