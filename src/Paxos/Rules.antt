-- ===== src/Paxos/Rules.antt =====
-- pkg/protocols/paxos/state.go: ballots, the acceptor's tests, quorums and the choice of a value.
pub mod Laws
use protorun.Prelude.{
  ℕ, ◌+◌, ◌*◌, ◌/◌, ◌%◌, ◌^◌, Bool, true, false, not, ◌&&◌, ◌||◌, List, [], ◌∷◌, ltb, leb,
  if◌then◌else◌,
}
use protorun.Wire.{Bytes}

-- uint64 arithmetic
abbrev pub u64 : ℕ → ℕ
u64 n = n % 2 ^ 64

pub record PromiseInfo : Type 0 where
  pub accepted_ballot : ℕ
  pub accepted_value : Bytes
  pub has_accepted : Bool

unfoldable pub majority_size : ℕ → ℕ
majority_size n = n / 2 + 1

unfoldable pub next_ballot : ℕ → ℕ → ℕ → ℕ
next_ballot max_seen n index = let round = u64 (max_seen / n + 1) in u64 (u64 (round * n) + index)

unfoldable pub can_promise : ℕ → ℕ → Bool
can_promise ballot promised = ltb promised ballot

unfoldable pub can_accept : ℕ → ℕ → Bool
can_accept ballot promised = leb promised ballot

-- The loop's variables: `best`, `bestBal` and `adopted`.
pub record Choice : Type 0 where
  pub best : Bytes
  pub best_ballot : ℕ
  pub adopted : Bool

unfoldable pub better : PromiseInfo → Choice → Bool
better info c = info.has_accepted && (not c.adopted || ltb c.best_ballot info.accepted_ballot)

unfoldable pub scan_infos : List PromiseInfo → Choice → Choice
unfolding better
scan_infos [] c = c
scan_infos (info ∷ infos) c = scan_infos infos (
    if better info c
    then record { best = info.accepted_value; best_ballot = info.accepted_ballot; adopted = true }
    else c)

unfoldable pub choose_value : List PromiseInfo → Bytes → Bytes × Bool
unfolding scan_infos
choose_value infos own =
    let c = scan_infos infos (record { best = []; best_ballot = 0; adopted = false }) in
    if c.adopted then (c.best, true) else (own, false)
