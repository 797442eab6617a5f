-- ===== src/Hyparview/Config.antt =====
-- pkg/protocols/hyparview/config.go: Config and the defaults of its unset fields. Sizes, walk lengths
-- and durations (in nanoseconds) are signed in Go.
use protorun.Prelude.{ℕ, ◌-◌, ◌<◌, List, leb, ◌==◌, if◌then◌else◌, arith}
use protorun.Transport.Host.{Host}
use protorun.Runtime.Durations.{ℤ, pos, negsuc}

pub record Config : Type 0 where
  pub contacts : List Host
  pub active_size : ℤ
  pub passive_size : ℤ
  pub arwl : ℤ
  pub prwl : ℤ
  pub shuffle_active : ℤ
  pub shuffle_passive : ℤ
  pub shuffle_interval : ℤ
  pub join_interval : ℤ
  pub neighbor_timeout : ℤ

-- A configuration with its defaults, in which no number is negative.
pub record Settings : Type 0 where
  pub contacts : List Host
  pub active_size : ℕ
  pub passive_size : ℕ
  pub arwl : ℕ
  pub prwl : ℕ
  pub shuffle_active : ℕ
  pub shuffle_passive : ℕ
  pub shuffle_interval : ℕ
  pub join_interval : ℕ
  pub neighbor_timeout : ℕ

-- `intOr` and `durOr`, whose default is positive.
unfoldable pub int_or : ℤ → ℕ → ℕ
int_or (pos n) default = if n == 0 then default else n
int_or (negsuc n) default = default

unfoldable pub fill_defaults : Config → Settings
unfolding int_or
fill_defaults c =
    let arwl = int_or c.arwl 6 in
    let prwl = int_or c.prwl 3 in
    record {
      contacts = c.contacts;
      active_size = int_or c.active_size 5;
      passive_size = int_or c.passive_size 30;
      arwl = arwl;
      prwl = if leb arwl prwl then arwl - 1 else prwl;
      shuffle_active = int_or c.shuffle_active 3;
      shuffle_passive = int_or c.shuffle_passive 4;
      shuffle_interval = int_or c.shuffle_interval 10000000000;
      join_interval = int_or c.join_interval 5000000000;
      neighbor_timeout = int_or c.neighbor_timeout 3000000000;
    }

-- What the protocol relies on.
pub record IsUsable (c : Settings) : Type 0 where
  pub active : 0 < c.active_size
  pub passive : 0 < c.passive_size
  pub walk : c.prwl < c.arwl
  pub timers : 0 < c.shuffle_interval × 0 < c.join_interval × 0 < c.neighbor_timeout

int_or-positive : (v : ℤ) (default : ℕ) → 0 < default → 0 < int_or v default
unfolding int_or
int_or-positive (pos n) default h = ground arith
int_or-positive (negsuc n) default h = h

-- Whatever the configuration, with its defaults the views have room for a peer, the timers have a
-- positive period, and the passive walk length is below the active one.
pub fill_defaults-IsUsable : (c : Config) → IsUsable (fill_defaults c)
unfolding fill_defaults
fill_defaults-IsUsable c = record {
  active = int_or-positive c.active_size 5 (omega arith);
  passive = int_or-positive c.passive_size 30 (omega arith);
  walk = ground (arith, int_or-positive c.arwl 6 (omega arith));
  timers = (
    int_or-positive c.shuffle_interval 10000000000 (omega arith),
    int_or-positive c.join_interval 5000000000 (omega arith),
    int_or-positive c.neighbor_timeout 3000000000 (omega arith),
  );
}
