-- ===== src/Plumtree/Config.antt =====
-- pkg/protocols/plumtree/config.go: Config, with durations in nanoseconds, and its defaults.
use protorun.Prelude.{◌*◌, refl, arith}
use protorun.Runtime.Durations.{ℤ, pos, millisecond, dur_or, IsPositive, dur_or-IsPositive}

pub record Config : Type 0 where
  pub missing_timeout : ℤ
  pub graft_retry_timeout : ℤ
  pub lazy_interval : ℤ
  pub cache_size : ℤ

-- `withDefaults`: each test for a value that is not positive is that of `dur_or`.
unfoldable pub with_defaults : Config → Config
unfolding dur_or
with_defaults c = record {
  missing_timeout = dur_or c.missing_timeout (pos (1000 * millisecond));
  graft_retry_timeout = dur_or c.graft_retry_timeout (pos (500 * millisecond));
  lazy_interval = dur_or c.lazy_interval (pos (100 * millisecond));
  cache_size = dur_or c.cache_size (pos 1024);
}

-- With the defaults, whatever was set, the timers have a positive period and the cache a positive size.
pub with_defaults-IsPositive :
    (c : Config)
    → let d = with_defaults c in
      IsPositive d.missing_timeout
      × IsPositive d.graft_retry_timeout
      × IsPositive d.lazy_interval
      × IsPositive d.cache_size
unfolding with_defaults
with_defaults-IsPositive c = (
  dur_or-IsPositive c.missing_timeout (pos (1000 * millisecond)) (_, refl, omega arith),
  dur_or-IsPositive c.graft_retry_timeout (pos (500 * millisecond)) (_, refl, omega arith),
  dur_or-IsPositive c.lazy_interval (pos (100 * millisecond)) (_, refl, omega arith),
  dur_or-IsPositive c.cache_size (pos 1024) (_, refl, omega arith),
)
