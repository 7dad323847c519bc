-- ===== src/Sid.antt =====
-- qbase/src/sid.rs: stream identifiers. A `StreamId` is its `u64`.
pub mod Laws
pub mod Concurrency
pub mod Local
pub mod Remote
mod Tests
use Prim.Native.Nat.{bit_or, bit_and}
use gm_quic.Prelude.{
  ℕ, ◌+◌, ◌-◌, ◌*◌, ◌/◌, ◌%◌, ◌^◌, Option, none, some, leb, ◌==◌, if◌then◌else◌, ◌>>◌, guard, Bool,
  true, false,
}

pub data Role : Type 0 where
  client server : Role

pub data Dir : Type 0 where
  bi uni : Dir

-- `!role`
pub opposite : Role → Role
opposite client = server
opposite server = client

abbrev pub role_bit : Role → ℕ
role_bit client = 0
role_bit server = 1

-- `dir as usize`
abbrev pub dir_index : Dir → ℕ
dir_index bi = 0
dir_index uni = 1

abbrev pub same_role : Role → Role → Bool
same_role client client = true
same_role server server = true
same_role _ _ = false

abbrev pub max_streams_limit : ℕ
max_streams_limit = 2 ^ 60 - 1

-- `none` is the failed `assert!`; shifts keep 64 bits.
unfoldable pub new : Role → Dir → ℕ → Option ℕ
new r d n = do
  guard (leb n max_streams_limit)
  some (bit_or (bit_or (n * 2 % 2 ^ 64) (dir_index d) * 2 % 2 ^ 64) (role_bit r))

unfoldable pub role : ℕ → Role
role sid = if bit_and sid 0x1 == 0 then client else server

unfoldable pub dir : ℕ → Dir
dir sid = if bit_and sid 2 == 0 then bi else uni

unfoldable pub id : ℕ → ℕ
id sid = sid / 2 ^ 2

unfoldable pub next_unchecked : ℕ → ℕ
next_unchecked sid = (sid + 4) % 2 ^ 64

-- An array of two, indexed by `dir as usize`.
pub record ByDir {ℓ} (A : Type ℓ) : Type ℓ where
  pub at_bi : A
  pub at_uni : A

abbrev pub at {ℓ} : {A : Type ℓ} → ByDir A → Dir → A
at p bi = p.at_bi
at p uni = p.at_uni

abbrev pub set_at {ℓ} : {A : Type ℓ} → ByDir A → Dir → A → ByDir A
set_at p bi a = record p { at_bi = a }
set_at p uni a = record p { at_uni = a }
