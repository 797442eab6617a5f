-- ===== src/Raft/Server/Following.antt =====
-- `onAppendEntries` on every branch, and the message of `sendAppendEntries` that it answers.
use protorun.Prelude.{
  ℕ, ◌+◌, ◌≤◌, ◌<◌, ◌≡◌, refl, ap, ◌∙◌, sym, max, min, Bool, true, false, List, [], ◌∷◌, ◌++◌,
  Option, none, some, length, take, ltb, if◌then◌else◌, arith, inl, inr, Bool-cases, lookup,
  or_default, subst, ◌⊎◌, ◌≢◌,
}
use protorun.Transport.Host.{Host, host_eq, host_beq_iff}
use protorun.Raft.Log.{Log, LogEntry, last_index, term_at}
use protorun.Raft.Log.Laws.{Agrees, take-append-slice_from, length-slice_from}
use protorun.Raft.Storage.{Storage}
use protorun.Raft.Messages.{AppendEntries}
use protorun.Raft.Server.{Server, Message, Effect, follower, sent, step_down, set_leader}
use protorun.Raft.Server.Replication.{append_conflict_free, entries_for, splice}
use protorun.Raft.Server.Handlers.{
  on_append_entries, accept_entries, advance_to_leader, follow, fails_check, reply_entries,
  adopt_term,
}
use protorun.Raft.Server.Frame.{apply_committed-Frame}
use protorun.Raft.Server.Splice.{
  append_from-cases, append_conflict_free_lem, Spliced, append_from-Spliced,
}

abbrev pub newest : List Effect → Option Effect
newest [] = none
newest (e ∷ es) = some e

abbrev pub answer : ℕ → ℕ → Bool → Host → Option Effect
answer term index done from = some (
    sent
      (Message.append_entries_reply (record { term = term; match_index = index; success = done }))
      from)

module _ {S : Type 0} (st : Storage S) where
  follow-fields :
      (term : ℕ) (from : Host) (s : Server S)
      → s.current_term ≤ term
      → let t = follow st term from s in
        (t.current_term ≡ term)
        × (t.log ≡ s.log)
        × (t.commit_index ≡ s.commit_index)
        × (t.last_applied ≡ s.last_applied)
        × (t.role ≡ follower)
        × (t.leader ≡ from)
        × (t.has_leader ≡ true)
  unfolding follow adopt_term step_down set_leader
  follow-fields term from s h = ground (arith, host_beq_iff s.leader from)

  append_conflict_free-fields :
      (prev : ℕ) (es : List LogEntry) (s : Server S)
      → let t = append_conflict_free st prev es s in
        (t.current_term ≡ s.current_term)
        × (t.commit_index ≡ s.commit_index)
        × (t.last_applied ≡ s.last_applied)
  unfolding append_conflict_free splice
  append_conflict_free-fields prev es s =
      elim (append_from-cases st (prev + 1) es s (omega arith)) [
        | inl e ↦ rw e (refl, refl, refl)
        | inr (j, fs, e, _, _) ↦ rw e (refl, refl, refl)
      ]

  advance_to_leader-fields :
      (commit index : ℕ) (s : Server S)
      → index ≤ last_index s.log
      → (t : Server S) × (advance_to_leader commit index s ≡ some t)
        × (t.log ≡ s.log)
        × (t.current_term ≡ s.current_term)
        × (t.commit_index
            ≡ (if ltb s.commit_index commit then min commit index else s.commit_index))
  unfolding advance_to_leader
  advance_to_leader-fields commit index s h = elim (Bool-cases (ltb s.commit_index commit)) [
    | inl lt ↦
        let s₁ = record s { commit_index = min commit index } in
        let (t, e, f, _) = apply_committed-Frame s₁ (omega arith) in
        rw lt (t, e, f.log_kept, f.term_kept, f.commit_kept)
    | inr ge ↦ rw ge (s, refl, refl, refl, refl)
  ]

  append_conflict_free-Spliced :
      (prev : ℕ) (es : List LogEntry) (s : Server S)
      → prev ≤ last_index s.log
      → Spliced s.log (prev + 1) es (append_conflict_free st prev es s).log
  unfolding append_conflict_free
  append_conflict_free-Spliced prev es s h =
      append_from-Spliced st (prev + 1) es s (omega arith) (omega arith)

  passes-check :
      (m : AppendEntries) (s : Server S)
      → m.prev_log_index ≤ last_index s.log
      → term_at s.log m.prev_log_index ≡ m.prev_log_term
      → fails_check s m ≡ false
  unfolding fails_check
  passes-check m s p q = ground arith

  -- A message of a term that is not stale, whose previous entry is in the log, is accepted: the log is
  -- then as `Spliced` says, so that entries that were there by term stay and the others of the message are
  -- in it with their commands; it holds every entry of the message, by term, at its index, and is as
  -- before up to the previous entry;
  -- the commit index goes to the leader's, or to the last entry of the message, if the leader's is
  -- higher; and the answer is the index of that entry, at the message's term.
  pub on_append_entries-accepts :
      (m : AppendEntries) (from : Host) (s : Server S)
      → s.current_term ≤ m.term
      → m.prev_log_index ≤ last_index s.log
      → term_at s.log m.prev_log_index ≡ m.prev_log_term
      → let index = m.prev_log_index + length m.entries in
        (t : Server S) × (on_append_entries st m from s ≡ some t)
        × Spliced s.log (m.prev_log_index + 1) m.entries t.log
        × Agrees t.log (m.prev_log_index + 1) m.entries
        × (take m.prev_log_index t.log ≡ take m.prev_log_index s.log)
        × (t.commit_index ≡ (
            if ltb s.commit_index m.leader_commit
            then min m.leader_commit index
            else s.commit_index))
        × (newest t.trace ≡ answer m.term index true from)
  unfolding on_append_entries accept_entries reply_entries
  on_append_entries-accepts m from s h p q =
      let s₁ = follow st m.term from s in
      let f = follow-fields m.term from s h in
      let s₂ = append_conflict_free st m.prev_log_index m.entries s₁ in
      let index = m.prev_log_index + length m.entries in
      let prev : m.prev_log_index ≤ last_index s₁.log = rw f.1 p in
      let l = append_conflict_free_lem st m.prev_log_index m.entries s₁ prev in
      let g = append_conflict_free-fields m.prev_log_index m.entries s₁ in
      let (t, e, same_log, same_term, new_commit) =
        advance_to_leader-fields m.leader_commit index s₂ l.2 in
      let fresh : ltb m.term s.current_term ≡ false = ground arith in
      let passes : fails_check s₁ m ≡ false = passes-check m s₁ prev (rw f.1 q) in
      (
        reply_entries t.current_term index true from t,
        rw (fresh, passes, e) refl,
        subst (λ (x : Log). Spliced x (m.prev_log_index + 1) m.entries t.log) f.1
            (subst (λ (x : Log). Spliced s₁.log (m.prev_log_index + 1) m.entries x) (sym same_log)
              (append_conflict_free-Spliced m.prev_log_index m.entries s₁ prev)),
        subst (λ (x : Log). Agrees x (m.prev_log_index + 1) m.entries) (sym same_log) l.0,
        ap (take m.prev_log_index) same_log ∙ l.1 ∙ ap (take m.prev_log_index) f.1,
        ground arith,
        ground arith,
      )

  -- A stale term, or a previous entry that is beyond the end of the log or has another term there: the
  -- answer is a refusal at the higher of the two terms, which is the server's from then on, and log and
  -- commit index stay.
  pub on_append_entries-rejects :
      (m : AppendEntries) (from : Host) (s : Server S)
      → (m.term < s.current_term)
        ⊎ ((last_index s.log < m.prev_log_index)
            ⊎ (term_at s.log m.prev_log_index ≢ m.prev_log_term))
      → (t : Server S) × (on_append_entries st m from s ≡ some t)
        × (t.current_term ≡ max s.current_term m.term)
        × (t.log ≡ s.log)
        × (t.commit_index ≡ s.commit_index)
        × (newest t.trace ≡ answer (max s.current_term m.term) 0 false from)
  unfolding on_append_entries fails_check reply_entries
  on_append_entries-rejects m from s h = elim (Bool-cases (ltb m.term s.current_term)) [
    | inl stale ↦
        rw stale (
          reply_entries s.current_term 0 false from s,
          refl,
          ground arith,
          refl,
          refl,
          ground arith,
        )
    | inr fresh ↦
        let s₁ = follow st m.term from s in
        let f = follow-fields m.term from s (ground arith) in
        let fails : fails_check s₁ m ≡ true = ground arith in
        rw (fresh, fails)
          (
            reply_entries s₁.current_term 0 false from s₁,
            refl,
            ground arith,
            f.1,
            f.2,
            ground arith,
          )
  ]

-- What a leader sends follows from its log, if the next index is one past the end at most and the
-- commit index is not above the end: with the entries before, those of the message make up the whole
-- log, and their end is not below the commit index that is sent.
pub entries_for_lem :
    {S : Type 0} (s : Server S) (peer : Host)
    → or_default 0 (lookup peer s.next_index) ≤ last_index s.log + 1
    → s.commit_index ≤ last_index s.log
    → let m = entries_for s peer in
      (take m.prev_log_index s.log ++ m.entries ≡ s.log)
      × (m.leader_commit ≤ m.prev_log_index + length m.entries)
unfolding entries_for
entries_for_lem s peer h c =
    let ni = max (or_default 0 (lookup peer s.next_index)) 1 in
    (
      take-append-slice_from s.log ni (omega arith),
      omega (arith, length-slice_from s.log ni (omega arith) (omega arith)),
    )
