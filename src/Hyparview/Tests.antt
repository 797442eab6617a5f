-- ===== src/Hyparview/Tests.antt =====
-- Runs of the hyparview model with a simple source of choices, and the theorems at those inputs.
use protorun.Prelude.{ℕ, zero, suc, ◌+◌, refl, List, [], ◌∷◌, Bool, true, false}
use protorun.Runtime.Durations.{pos, negsuc}
use protorun.Transport.Host.{Host}
use protorun.Hyparview.Config.{Config, fill_defaults}
use protorun.Hyparview.Random.{Outside, IsRandom}
use protorun.Hyparview.Node.{new}
use protorun.Hyparview.Node.Step.{Input, run}
use protorun.Hyparview.Node.Views.{AreViews}
use protorun.Hyparview.Node.Runs.{run-AreViews}
use protorun.Hyparview.Node.Routes.{path_of, newest, Carried, path_of-Carried}

abbrev pub node_a : Host
node_a = record { port = 7001; ip = 97 ∷ [] }

abbrev pub node_b : Host
node_b = record { port = 7002; ip = 98 ∷ [] }

abbrev pub node_c : Host
node_c = record { port = 7003; ip = 99 ∷ [] }

abbrev is_first : ℕ → Bool
is_first zero = true
is_first (suc n) = false

-- Always the first choice; every dial but the first fails.
instance abbrev pub first : Outside ℕ
first = record {
  int_n = λ n w. (0, w + 1);
  shuffle = λ hs w. (hs, w + 1);
  connect = λ h w. (is_first w, w + 1);
}

abbrev pub first-IsRandom : IsRandom first
first-IsRandom = record { int_n-lt = λ n w lt. lt; contains-shuffle = λ h hs w. refl }

-- Views of one peer each.
abbrev pub small : Config
small = record {
  contacts = node_b ∷ [];
  active_size = pos 1;
  passive_size = pos 1;
  arwl = pos 0;
  prwl = negsuc 0;
  shuffle_active = pos 0;
  shuffle_passive = pos 0;
  shuffle_interval = pos 0;
  join_interval = pos 0;
  neighbor_timeout = pos 0;
}

-- The contact is joined, and makes room for another node.
abbrev pub history : List Input
history =
    Input.started ∷ Input.session_connected node_b ∷ Input.got_join node_c ∷ Input.shuffle_tick ∷ []

run-AreViews_example :
    let s = run {W = ℕ} history (new node_a small 0) in
    AreViews (fill_defaults small) node_a s.active s.passive
run-AreViews_example = run-AreViews first-IsRandom node_a small 0 history

path_of-Carried_example :
    Carried ℕ
      (node_c ∷ [])
      (path_of node_a (node_c ∷ node_b ∷ []))
      (newest node_a (node_c ∷ node_b ∷ []))
      node_a
path_of-Carried_example = path_of-Carried (node_c ∷ []) node_a (node_c ∷ node_b ∷ [])
