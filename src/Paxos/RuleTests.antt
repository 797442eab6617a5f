-- ===== src/Paxos/RuleTests.antt =====
-- The theorems on the ballots and values of paxos, at concrete inputs.
use protorun.Prelude.{ℕ, ◌<◌, ◌≡◌, ◌≢◌, refl, true, false, List, [], ◌∷◌, arith, ◌⊎◌}
use protorun.Transport.Host.{host_eq}
use protorun.Wire.{Bytes}
use protorun.Paxos.Rules.{PromiseInfo, next_ballot, choose_value}
use protorun.Paxos.Rules.Laws.{
  Reports, NoneAbove, NoneAccepted, choose_value_lem, next_ballot_disjoint, next_ballot_wraps,
}

abbrev value_x : Bytes
value_x = 120 ∷ []

abbrev value_y : Bytes
value_y = 121 ∷ []

-- A quorum in which two report, the second at a higher ballot.
abbrev reports : List PromiseInfo
reports =
    record { accepted_ballot = 4; accepted_value = value_x; has_accepted = true }
    ∷ record { accepted_ballot = 0; accepted_value = []; has_accepted = false }
    ∷ record { accepted_ballot = 5; accepted_value = value_y; has_accepted = true }
    ∷ []

choose_value_lem_example :
    let (v, adopted) = choose_value reports [] in
    ((adopted ≡ true) × ((b : ℕ) × Reports reports b v × NoneAbove b reports))
    ⊎ ((adopted ≡ false) × (v ≡ []) × NoneAccepted reports)
choose_value_lem_example = choose_value_lem reports []

choose_value_test : choose_value reports [] ≡ (value_y, true)
unfolding choose_value
choose_value_test = refl

next_ballot_disjoint_example : next_ballot 7 3 1 ≢ next_ballot 6 3 2
next_ballot_disjoint_example =
    next_ballot_disjoint 7 6 3 1 2 (omega arith) (omega arith) (λ e. omega (arith, e)) (omega arith)
      (omega arith)

next_ballot_wraps_example : next_ballot 18446744073709551615 3 1 < 18446744073709551615
next_ballot_wraps_example =
    next_ballot_wraps 18446744073709551615 3 1 (omega arith) (omega arith) (omega arith)
      (omega arith) (omega arith)
