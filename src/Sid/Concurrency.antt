-- ===== src/Sid/Concurrency.antt =====
-- qbase/src/sid/handy.rs and the trait `ControlStreamsConcurrency` of qbase/src/sid.rs: who may raise
-- the limit on the peer's streams. An answer of `none` leaves the limit as it is.
use gm_quic.Prelude.{ℕ, ◌+◌, Option, none, some}
use gm_quic.Sid.{Dir, ByDir, at, set_at}

-- A strategy with its state: each callback returns the new state and the new limit, if any.
pub record ControlStreamsConcurrency : Type 1 where
  pub Ctrl : Type 0
  pub on_accept_streams : Ctrl → Dir → ℕ → Ctrl × Option ℕ
  pub on_end_of_stream : Ctrl → Dir → ℕ → Ctrl × Option ℕ
  pub on_streams_blocked : Ctrl → Dir → ℕ → Ctrl × Option ℕ

-- `ConsistentConcurrency`: a limit that grows by one with each stream that ends.
abbrev pub consistent_concurrency : ControlStreamsConcurrency
consistent_concurrency = record {
  Ctrl = ByDir ℕ;
  on_accept_streams = λ c d sid. (c, none);
  on_end_of_stream = λ c d sid. (set_at c d (at c d + 1), some (at c d + 1));
  on_streams_blocked = λ c d max_streams. (c, none);
}

-- `DemandConcurrency`: one more than the peer says that it is blocked at.
abbrev pub demand_concurrency : ControlStreamsConcurrency
demand_concurrency = record {
  Ctrl = Unit {0};
  on_accept_streams = λ c d sid. (c, none);
  on_end_of_stream = λ c d sid. (c, none);
  on_streams_blocked = λ c d max_streams. (c, some (max_streams + 1));
}
