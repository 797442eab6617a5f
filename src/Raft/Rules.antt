-- ===== src/Raft/Rules.antt =====
-- The decision helpers of pkg/protocols/raft/log.go.
pub mod Laws
use protorun.Prelude.{
  ℕ, zero, suc, ◌+◌, ◌-◌, ◌/◌, Bool, not, List, [], ◌∷◌, ltb, leb, ◌==◌, if◌then◌else◌,
}
use protorun.Raft.Log.{Log, last_index, term_at}

unfoldable pub log_is_up_to_date : ℕ → ℕ → ℕ → ℕ → Bool
log_is_up_to_date cand_term cand_index our_term our_index =
    if not (cand_term == our_term) then ltb our_term cand_term else leb our_index cand_index

-- The inner loop: how many members have replicated index `n`.
unfoldable pub count_replicas : ℕ → List ℕ → ℕ
count_replicas n [] = 0
count_replicas n (m ∷ ms) = if leb n m then suc (count_replicas n ms) else count_replicas n ms

abbrev pub majority_of : ℕ → ℕ
majority_of cluster_size = cluster_size / 2 + 1

-- The outer loop, with `rounds` = n - current_commit rounds left at index n.
unfoldable pub scan_commit : ℕ → ℕ → ℕ → Log → List ℕ → ℕ → ℕ → ℕ
scan_commit zero commit term l ms size n = commit
scan_commit (suc rounds) commit term l ms size n =
    let rest = scan_commit rounds commit term l ms size (n - 1) in
    if not (term_at l n == term)
    then commit
    else if leb (majority_of size) (count_replicas n ms)
    then n
    else rest

unfoldable pub advance_commit_index : ℕ → ℕ → Log → List ℕ → ℕ → ℕ
advance_commit_index commit term l ms size =
    scan_commit (last_index l - commit) commit term l ms size (last_index l)
