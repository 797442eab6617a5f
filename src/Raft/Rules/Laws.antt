-- ===== src/Raft/Rules/Laws.antt =====
-- The vote restriction and the commit rule of pkg/protocols/raft/log.go.
use protorun.Prelude.{
  [], ℕ, zero, suc, ◌+◌, ◌-◌, ◌≤◌, ◌<◌, ◌≡◌, refl, true, List, ◌⊎◌, inl, ◌↔◌, arith, dec_lt, length,
  ◌*◌, ◌∷◌, filter, dec_le,
}
use protorun.Raft.Log.{Log, last_index, term_at}
use protorun.Raft.Rules.{log_is_up_to_date, count_replicas, scan_commit, advance_commit_index}

-- A candidate's log is accepted exactly if its last term is later, or the same with no lower index.
pub log_is_up_to_date_iff :
    (ct ci ot oi : ℕ)
    → (log_is_up_to_date ct ci ot oi ≡ true) ↔ ((ot < ct) ⊎ ((ct ≡ ot) × (oi ≤ ci)))
unfolding log_is_up_to_date
log_is_up_to_date_iff ct ci ot oi = (λ h. ground arith, λ h. ground arith)

pub log_is_up_to_date-total :
    (ct ci ot oi : ℕ)
    → (log_is_up_to_date ct ci ot oi ≡ true) ⊎ (log_is_up_to_date ot oi ct ci ≡ true)
unfolding log_is_up_to_date
log_is_up_to_date-total ct ci ot oi = ground arith

pub log_is_up_to_date_trans :
    (at ai bt bi ct ci : ℕ)
    → log_is_up_to_date at ai bt bi ≡ true
    → log_is_up_to_date bt bi ct ci ≡ true
    → log_is_up_to_date at ai ct ci ≡ true
unfolding log_is_up_to_date
log_is_up_to_date_trans at ai bt bi ct ci h k = ground arith

-- The match indices that reach `n`.
abbrev pub reaching : ℕ → List ℕ → List ℕ
reaching n ms = filter (λ m. dec_le n m) ms

count_replicas-reaching : (n : ℕ) (ms : List ℕ) → count_replicas n ms ≡ length (reaching n ms)
unfolding count_replicas
count_replicas-reaching n [] = refl
count_replicas-reaching n (m ∷ ms) = elim (dec_le n m) [
  | yes le ↦ ground (arith, count_replicas-reaching n ms)
  | no gt ↦ ground (arith, count_replicas-reaching n ms)
]

-- What the scan may return above the current commit index: an entry of the current term that more than
-- half of the members have.
abbrev pub Committable : Log → ℕ → List ℕ → ℕ → ℕ → Type 0
Committable l term ms size n =
    (n ≤ last_index l) × (term_at l n ≡ term) × (size < 2 * length (reaching n ms))

scan_commit_sound :
    (rounds commit term : ℕ) (l : Log) (ms : List ℕ) (size n : ℕ)
    → n ≡ commit + rounds
    → n ≤ last_index l
    → let r = scan_commit rounds commit term l ms size n in
      (r ≡ commit) ⊎ ((commit < r) × Committable l term ms size r)
unfolding scan_commit
scan_commit_sound zero commit term l ms size n e h = inl refl
scan_commit_sound (suc rounds) commit term l ms size n e h =
    ground
      (arith, count_replicas-reaching n ms, scan_commit_sound rounds commit term l ms size (n - 1))

scan_commit_highest :
    (rounds commit term : ℕ) (l : Log) (ms : List ℕ) (size n : ℕ)
    → n ≡ commit + rounds
    → (m : ℕ) → m ≤ n
    → commit < m
    → ((j : ℕ) → m ≤ j → j ≤ n → term_at l j ≡ term)
    → size < 2 * length (reaching m ms)
    → m ≤ scan_commit rounds commit term l ms size n
unfolding scan_commit
scan_commit_highest zero commit term l ms size n e m le lt same q = absurd (omega arith)
scan_commit_highest (suc rounds) commit term l ms size n e m le lt same q = elim (dec_lt m n) [
  | yes below ↦ ground (
    arith,
    same n le (omega arith),
    scan_commit_highest rounds commit term l ms size (n - 1) (omega arith) m (omega arith) lt
        (λ j a b. same j a (omega arith)) q,
  )
  | no here ↦ ground (arith, same n le (omega arith), count_replicas-reaching n ms)
]

-- The new commit index is the old one, or a higher index in the log whose entry is of the current
-- term and which more than half of the members have replicated.
pub advance_commit_index_sound :
    (commit term : ℕ) (l : Log) (ms : List ℕ) (size : ℕ)
    → let r = advance_commit_index commit term l ms size in
      (r ≡ commit) ⊎ ((commit < r) × Committable l term ms size r)
unfolding advance_commit_index scan_commit
advance_commit_index_sound commit term l ms size = elim (dec_lt commit (last_index l)) [
  | yes below ↦
      scan_commit_sound (last_index l - commit) commit term l ms size (last_index l) (omega arith)
        (omega arith)
  | no above ↦ let e : last_index l - commit ≡ 0 = omega arith in rw e (inl refl)
]

-- No index that may be committed is left out: if more than half have replicated `m`, and the entries from
-- `m` to the end of the log are of the current term, the new commit index is `m` or higher.
pub advance_commit_index_highest :
    (commit term : ℕ) (l : Log) (ms : List ℕ) (size m : ℕ)
    → commit < m
    → m ≤ last_index l
    → ((j : ℕ) → m ≤ j → j ≤ last_index l → term_at l j ≡ term)
    → size < 2 * length (reaching m ms)
    → m ≤ advance_commit_index commit term l ms size
unfolding advance_commit_index
advance_commit_index_highest commit term l ms size m lt le same q =
    scan_commit_highest (last_index l - commit) commit term l ms size (last_index l) (omega arith) m
      le lt same q
