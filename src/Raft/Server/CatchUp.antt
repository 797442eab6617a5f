-- ===== src/Raft/Server/CatchUp.antt =====
-- A message of `sendAppendEntries` and the `onAppendEntries` that handles it: the follower's log and commit
-- index when it accepts what the leader built from its own log.
use protorun.Prelude.{
  ℕ, zero, suc, ◌+◌, ◌-◌, ◌≤◌, ◌≡◌, refl, sym, ap, ◌∙◌, subst, max, true, List, [], ◌∷◌, ◌++◌,
  append-nil, append_assoc, length, length-append, take, take_of_le, take-append_length,
  length-take, some, lookup, or_default, arith,
}
use protorun.Transport.Host.{Host, host_eq}
use protorun.Raft.Log.{Log, LogEntry, last_index, term_at}
use protorun.Raft.Log.Laws.{Agrees-append, take-append-slice_from, length-slice_from}
use protorun.Raft.Storage.{Storage}
use protorun.Raft.Server.{Server}
use protorun.Raft.Server.Replication.{entries_for}
use protorun.Raft.Server.Handlers.{on_append_entries}
use protorun.Raft.Server.Splice.{Spliced}
use protorun.Raft.Server.Following.{newest, answer, on_append_entries-accepts}

-- Log Matching, as Raft calls it: if two logs have the same term at an index, they are the same up to it.
abbrev pub LogMatching : Log → Log → Type 0
LogMatching l l' =
    (i : ℕ)
    → 1 ≤ i
    → i ≤ last_index l
    → i ≤ last_index l'
    → term_at l i ≡ term_at l' i
    → take i l ≡ take i l'

take_same :
    (l l' : Log) (i : ℕ)
    → LogMatching l l'
    → i ≤ last_index l
    → i ≤ last_index l'
    → term_at l i ≡ term_at l' i
    → take i l ≡ take i l'
take_same l l' zero m le le' t = refl
take_same l l' (suc i) m le le' t = m (suc i) (omega arith) le le' t

Spliced-take :
    (l : Log) (idx : ℕ) (es : List LogEntry) (l' pre : Log)
    → Spliced l idx es l'
    → idx ≡ length pre + 1
    → take (length pre) l ≡ pre
    → LogMatching l (pre ++ es)
    → take (length (pre ++ es)) l' ≡ pre ++ es
Spliced-take l _ _ _ pre (Spliced.done idx) n same m = rw (append-nil pre) same
Spliced-take l _ _ _ pre (Spliced.there idx e es l' le t more) n same m =
    let next = pre ++ e ∷ [] in
    let whole : next ++ es ≡ pre ++ e ∷ es = append_assoc pre (e ∷ []) es in
    let len : length next ≡ length pre + 1 = omega (arith, length-append pre (e ∷ [])) in
    let held = Agrees-append pre (e ∷ es) in
    let upto : take idx l ≡ take idx (pre ++ e ∷ es) =
      m idx (omega arith) le (subst (λ (k : ℕ). k ≤ last_index (pre ++ e ∷ es)) (sym n) held.0)
        (t ∙ sym held.1 ∙ ap (term_at (pre ++ e ∷ es)) (sym n)) in
    let at_next : idx ≡ length next = omega arith in
    let known : take (length next) l ≡ next =
      subst (λ (k : ℕ). take k l ≡ next) at_next
        (upto
          ∙ ap (take idx) (sym whole)
          ∙ ap (λ k. take k (next ++ es)) at_next
          ∙ take-append_length next es) in
    let rest : take (length (next ++ es)) l' ≡ next ++ es =
      Spliced-take l (idx + 1) es l' next more (omega arith) known
        (subst (λ (x : Log). LogMatching l x) (sym whole) m) in
    subst (λ (x : Log). take (length x) l' ≡ x) whole rest
Spliced-take l _ _ _ pre (Spliced.cut idx e es new) n same m =
    let k : idx - 1 ≡ length pre = omega arith in
    let cut : take (idx - 1) l ≡ pre = ap (λ j. take j l) k ∙ same in
    rw cut (take_of_le (length (pre ++ e ∷ es)) (pre ++ e ∷ es) (omega arith))

module _ {S : Type 0} (st : Storage S) where
  -- A follower of no later term, whose log matches the leader's, and which has the entry before those that
  -- the leader sends it, accepts the leader's message: its log then starts with the whole log of the
  -- leader, commands included; its commit index is the higher of the two, so that it never falls; and it
  -- answers with the end of the leader's log. The leader's next index for it is one past the end of the
  -- leader's log at most, and the leader's commit index is in its log.
  pub on_append_entries-entries_for :
      (l s : Server S) (peer from : Host)
      → or_default 0 (lookup peer l.next_index) ≤ last_index l.log + 1
      → l.commit_index ≤ last_index l.log
      → s.current_term ≤ l.current_term
      → LogMatching s.log l.log
      → (entries_for l peer).prev_log_index ≤ last_index s.log
      → term_at s.log (entries_for l peer).prev_log_index ≡ (entries_for l peer).prev_log_term
      → (t : Server S) × (on_append_entries st (entries_for l peer) from s ≡ some t)
        × (take (last_index l.log) t.log ≡ l.log)
        × (t.commit_index ≡ max s.commit_index l.commit_index)
        × (newest t.trace ≡ answer l.current_term (last_index l.log) true from)
  unfolding entries_for
  on_append_entries-entries_for l s peer from next commit term match prev same =
      let ni = max (or_default 0 (lookup peer l.next_index)) 1 in
      let pre = take (ni - 1) l.log in
      let m = entries_for l peer in
      let (t, e, spliced, _, _, c, a) = on_append_entries-accepts st m from s term prev same in
      let whole : pre ++ m.entries ≡ l.log = take-append-slice_from l.log ni (omega arith) in
      let end : ni - 1 + length m.entries ≡ last_index l.log =
        length-slice_from l.log ni (omega arith) (omega arith) in
      let len : length pre ≡ ni - 1 = omega (arith, length-take (ni - 1) l.log) in
      let upto : take (ni - 1) s.log ≡ pre =
        take_same s.log l.log (ni - 1) match prev (omega arith) same in
      let all : take (length (pre ++ m.entries)) t.log ≡ pre ++ m.entries =
        Spliced-take s.log (ni - 1 + 1) m.entries t.log pre spliced (omega arith)
          (ap (λ k. take k s.log) len ∙ upto)
          (subst (λ (x : Log). LogMatching s.log x) (sym whole) match) in
      (
        t,
        e,
        subst (λ (x : Log). take (length x) t.log ≡ x) whole all,
        ground arith,
        a ∙ ap (λ k. answer l.current_term k true from) end,
      )
