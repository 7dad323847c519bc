-- ===== src/Bytes.antt =====
-- What the program takes from the type `Bytes` of the crate `bytes`: a `Bytes` is the list of its
-- bytes, and the crate's operations that cut it are parameters with their documented behaviour.
use gm_quic.Prelude.{ℕ, ◌≤◌, ◌≡◌, refl, List, length, take, drop}

pub record BytesOps : Type 0 where
  pub advance : ℕ → List ℕ → List ℕ
  pub split_to : ℕ → List ℕ → List ℕ × List ℕ  -- what is split off, and what stays
  pub split_off : ℕ → List ℕ → List ℕ × List ℕ
  pub advance_lem : (n : ℕ) (b : List ℕ) → n ≤ length b → advance n b ≡ drop n b
  pub split_to_lem : (n : ℕ) (b : List ℕ) → n ≤ length b → split_to n b ≡ (take n b, drop n b)
  pub split_off_lem : (n : ℕ) (b : List ℕ) → n ≤ length b → split_off n b ≡ (drop n b, take n b)

abbrev pub list_bytes : BytesOps
list_bytes = record {
  advance = drop;
  split_to = λ n b. (take n b, drop n b);
  split_off = λ n b. (drop n b, take n b);
  advance_lem = λ n b h. refl;
  split_to_lem = λ n b h. refl;
  split_off_lem = λ n b h. refl;
}
