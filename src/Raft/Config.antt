-- ===== src/Raft/Config.antt =====
-- pkg/protocols/raft/config.go: the configuration and its defaults.
use protorun.Prelude.{ℕ, ◌*◌, ◌^◌, ◌<◌, ◌≡◌, refl, ap, List, Option, none, some, arith}
use protorun.Transport.Host.{Host}
use protorun.Runtime.Durations.{
  ℤ, pos, millisecond, dur_or, window, IsPositive, dur_or-IsPositive, window_lem,
}

-- `storage` is none for a nil Storage; `S` is the state of an implementation.
pub record Config (S : Type 0) : Type 0 where
  pub peers : List Host
  pub heartbeat_interval : ℤ
  pub election_timeout_min : ℤ
  pub election_timeout_max : ℤ
  pub reconnect_interval : ℤ
  pub storage : Option S

module _ {S : Type 0} where
  unfoldable pub storage_or : S → Option S → S
  storage_or memory none = memory
  storage_or memory (some s) = s

  -- `memory` is what `NewMemoryStorage` returns.
  unfoldable pub fill_defaults : S → Config S → Config S
  unfolding dur_or window storage_or
  fill_defaults memory c =
      let (low, high) = window c.election_timeout_min c.election_timeout_max in
      record c {
        heartbeat_interval = dur_or c.heartbeat_interval (pos (50 * millisecond));
        election_timeout_min = low;
        election_timeout_max = high;
        reconnect_interval = dur_or c.reconnect_interval (pos (100 * millisecond));
        storage = some (storage_or memory c.storage);
      }

  -- With the defaults filled in, the intervals are positive, and the election timeouts span a window
  -- that is not empty, as the random draw requires, if the lower bound is below 2 ^ 62 nanoseconds.
  pub fill_defaults_lem :
      (memory : S) (c : Config S) (n : ℕ)
      → dur_or c.election_timeout_min (pos (150 * millisecond)) ≡ pos n
      → n < 2 ^ 62
      → let d = fill_defaults memory c in
        IsPositive d.heartbeat_interval
        × IsPositive d.reconnect_interval
        × (d.election_timeout_min ≡ pos n)
        × ((m : ℕ) × (d.election_timeout_max ≡ pos m) × (n < m))
  unfolding fill_defaults
  fill_defaults_lem memory c n e small =
      let (m, w, _, lt) = window_lem c.election_timeout_min c.election_timeout_max n e small in
      (
        dur_or-IsPositive c.heartbeat_interval (pos (50 * millisecond)) (_, refl, omega arith),
        dur_or-IsPositive c.reconnect_interval (pos (100 * millisecond)) (_, refl, omega arith),
        ap (λ (p : ℤ × ℤ). p.0) w,
        (m, ap (λ (p : ℤ × ℤ). p.1) w, lt),
      )
