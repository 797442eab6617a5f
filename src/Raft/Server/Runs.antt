-- ===== src/Raft/Server/Runs.antt =====
-- The results of the replication handlers and of `step`, and what they keep.
use protorun.Raft.Server.Steps.{
  on_request_vote-Kept, on_request_vote_reply-Kept, on_election_timeout-Kept,
}
use protorun.Raft.Server.Splice.{append_conflict_free_lem}
use protorun.Wire.{Bytes}
use protorun.Raft.Server.Replication.{
  maybe_advance_commit, apply_committed, append_conflict_free, send_append_entries, match_list,
  broadcast_append_entries,
}
use protorun.Raft.Server.Kept.{append_conflict_free-Kept}
use protorun.Raft.Rules.Laws.{advance_commit_index_sound}
use protorun.Raft.Rules.{advance_commit_index}
use protorun.Raft.Server.Step.{
  Input, step, got_request_vote, got_request_vote_reply, got_append_entries,
  got_append_entries_reply, proposed, asked_debug_state, election_timeout, heartbeat_tick,
  reconnect_tick, session_connected, session_disconnected, session_given_up,
}
use protorun.Raft.Server.{replied, ◌>>=◌, emit, failed_not_leader}
use protorun.Raft.Server.Frame.{
  broadcast_append_entries-Frame, apply_committed-Frame, ensure_connections-Frame,
}
use protorun.Raft.Log.{last_index, append, LogEntry}
use protorun.Raft.Messages.{AppendEntries, AppendEntriesReply}
use protorun.Raft.Server.Handlers.{
  adopt_term, accept_entries, advance_to_leader, follow, reply_entries, on_append_entries,
  on_append_entries_reply, handle_propose, fails_check, append_own, handle_debug_state, back_off,
  record_match,
}
use protorun.Prelude.{
  ℕ, ◌+◌, ◌-◌, ◌^◌, ◌≤◌, ◌<◌, ◌≡◌, refl, Bool, true, false, not, ◌||◌, [], ◌∷◌, Option, some, arith,
  ltb, if_elim, ltb→lt, min, length, ◌++◌, take_of_le, length-append, ◌==◌, or_default, lookup,
}
use protorun.Transport.Host.{Host, host_eq}
use protorun.Raft.Storage.{Storage}
use protorun.Raft.Server.{Server, last_index, set_leader, is_leader, Bytes, follower}
use protorun.Raft.Server.Kept.{
  Kept, Kept-refl, Kept-trans, Frame-Kept, Kept-of_same, set_leader-Kept, adopt_term-Kept,
  step_down-Kept, append_conflict_free-Kept,
}

module _ {S : Type 0} (st : Storage S) where
  -- The handler does not panic, and keeps its part.
  abbrev pub Runs : Server S → Option (Server S) → Type 0
  Runs s r = (t : Server S) × (r ≡ some t) × Kept st s t

  Runs-of_Kept : {s t : Server S} → Kept st s t → Runs s (some t)
  Runs-of_Kept {t} k = (t, refl, k)

  Runs-trans : {s t : Server S} {r : Option (Server S)} → Kept st s t → Runs t r → Runs s r
  Runs-trans k (u, e, l) = (u, e, Kept-trans k l)

  -- Work after a run that only adds to the trace.
  Runs-bind :
      {s : Server S} (r : Option (Server S)) (f : Server S → Server S)
      → Runs s r
      → ((t : Server S) → Kept st t (f t))
      → Runs s (r >>= λ t. some (f t))
  Runs-bind r f (t, e, k) h = rw e (f t, refl, Kept-trans k (h t))

  apply_committed-Runs :
      (s : Server S) → s.commit_index ≤ last_index s.log → Runs s (apply_committed s)
  apply_committed-Runs s h = let (t, e, f, _) = apply_committed-Frame s h in (t, e, Frame-Kept f)

  advance_to_leader-Runs :
      (commit index : ℕ) (s : Server S)
      → index ≤ last_index s.log
      → Runs s (advance_to_leader commit index s)
  unfolding advance_to_leader
  advance_to_leader-Runs commit index s h =
      if_elim (Runs s) (ltb s.commit_index commit) _ _
        (λ _.
          let t = record s { commit_index = min commit index } in
          Runs-trans {t = t} (Kept-of_same s t refl) (apply_committed-Runs t (omega arith)))
        (λ _. Runs-of_Kept (Kept-refl s))

  follow-Kept : (term : ℕ) (from : Host) (s : Server S) → Kept st s (follow st term from s)
  unfolding follow
  follow-Kept term from s =
      let s₁ = adopt_term st term s in
      let s₂ = record s₁ { role = follower } in
      let s₃ = set_leader from s₂ in
      Kept-trans {t = s₁} (adopt_term-Kept st term s) (
        Kept-trans {t = s₂} (Kept-of_same s₁ s₂ refl)
          (Kept-trans {t = s₃} (set_leader-Kept st from s₂) (Kept-of_same s₃ _ refl)))

  reply_entries-Kept :
      (term index : ℕ) (done : Bool) (from : Host) (s : Server S)
      → Kept st s (reply_entries term index done from s)
  unfolding reply_entries
  reply_entries-Kept term index done from s = Kept-of_same s _ refl

  accept_entries-Runs :
      (m : AppendEntries) (from : Host) (s : Server S)
      → fails_check s m ≡ false
      → Runs s (accept_entries st m from s)
  unfolding accept_entries fails_check
  accept_entries-Runs m from s h =
      let s₁ = append_conflict_free st m.prev_log_index m.entries s in
      let index = m.prev_log_index + length m.entries in
      let prev : m.prev_log_index ≤ last_index s.log = ground arith in
      let reach = (append_conflict_free_lem st m.prev_log_index m.entries s prev).2 in
      Runs-trans {t = s₁} (append_conflict_free-Kept st m.prev_log_index m.entries s prev) (
        Runs-bind (advance_to_leader m.leader_commit index s₁)
          (λ t. reply_entries t.current_term index true from t)
          (advance_to_leader-Runs m.leader_commit index s₁ reach)
          (λ t. reply_entries-Kept t.current_term index true from t))

  on_append_entries-Runs :
      (m : AppendEntries) (from : Host) (s : Server S) → Runs s (on_append_entries st m from s)
  unfolding on_append_entries
  on_append_entries-Runs m from s =
      if_elim (Runs s) (ltb m.term s.current_term) _ _
        (λ _. Runs-of_Kept (reply_entries-Kept s.current_term 0 false from s))
        λ _.
          let s₁ = follow st m.term from s in
          Runs-trans {t = s₁} (follow-Kept m.term from s) (
            if_elim (Runs s₁) (fails_check s₁ m) _ _
              (λ _. Runs-of_Kept (reply_entries-Kept s₁.current_term 0 false from s₁))
              (accept_entries-Runs m from s₁))

  maybe_advance_commit-Runs : (s : Server S) → Runs s (maybe_advance_commit s)
  unfolding maybe_advance_commit
  maybe_advance_commit-Runs s =
      let new =
        advance_commit_index s.commit_index s.current_term s.log
          (last_index s.log ∷ match_list s s.peers) (length s.peers + 1) in
      let sound =
        advance_commit_index_sound s.commit_index s.current_term s.log
          (last_index s.log ∷ match_list s s.peers) (length s.peers + 1) in
      if_elim (Runs s) (ltb s.commit_index new) _ _
        (λ lt.
          let t = record s { commit_index = new } in
          let small : new ≤ last_index s.log = ground arith in
          Runs-trans {t = t} (Kept-of_same s t refl) (apply_committed-Runs t small))
        (λ _. Runs-of_Kept (Kept-refl s))

  back_off-Kept : (from : Host) (s : Server S) → Kept st s (back_off from s)
  unfolding back_off
  back_off-Kept from s =
      if_elim (Kept st s) (ltb 1 (or_default 0 (lookup from s.next_index))) _ _
        (λ _. Kept-of_same s _ refl) (λ _. Kept-refl s)

  on_append_entries_reply-Runs :
      (m : AppendEntriesReply) (from : Host) (s : Server S)
      → Runs s (on_append_entries_reply st m from s)
  unfolding on_append_entries_reply send_append_entries record_match
  on_append_entries_reply-Runs m from s =
      if_elim (Runs s) (ltb s.current_term m.term) _ _
        (λ lt. Runs-of_Kept (step_down-Kept st m.term s (ltb→lt _ _ lt)))
        λ _.
          if_elim (Runs s) (not (is_leader s.role) || not (m.term == s.current_term)) _ _
            (λ _. Runs-of_Kept (Kept-refl s))
            λ _.
              if_elim (Runs s) m.success _ _
                (λ _.
                  let t = record_match from m.match_index s in
                  Runs-trans {t = t} (Kept-of_same s t refl) (maybe_advance_commit-Runs t))
                (λ _. Runs-of_Kept (
                  Kept-trans (back_off-Kept from s) (
                    Kept-of_same (back_off from s) (send_append_entries from (back_off from s))
                      refl)))

  append_own-Kept : (command : Bytes) (s : Server S) → Kept st s (append_own st command s)
  unfolding append_own append
  append_own-Kept command s = record {
    self_same = refl;
    term_le = omega arith;
    vote_same = λ e h. (h, refl);
    stored_same = λ h.
        let entry : LogEntry = record { term = s.current_term; command = command } in
        let index = last_index (s.log ++ entry ∷ []) in
        let whole =
          take_of_le (index - 1) s.log (omega (arith, length-append s.log (entry ∷ []))) in
        ground (arith, whole, st.load-append_entries s.storage index (entry ∷ []));
    order_same = λ h. h;
  }

  handle_propose-Runs : (command : Bytes) (s : Server S) → Runs s (handle_propose st command s)
  unfolding handle_propose
  handle_propose-Runs command s =
      if_elim (Runs s) (not (is_leader s.role)) _ _
        (λ _.
          let t = emit (failed_not_leader s.leader s.has_leader) s in
          Runs-of_Kept (Kept-of_same s t refl))
        λ _.
          let s₁ = append_own st command s in
          let answer = λ (t : Server S). emit (replied (last_index s₁.log) t.current_term) t in
          Runs-trans {t = s₁} (append_own-Kept command s) (
            Runs-bind (maybe_advance_commit s₁) (λ t. broadcast_append_entries (answer t))
              (maybe_advance_commit-Runs s₁)
              (λ t.
                Kept-trans {t = answer t} (Kept-of_same t (answer t) refl)
                  (Frame-Kept (broadcast_append_entries-Frame (answer t)))))

  -- No event makes a server panic; the storage goes on mirroring the durable fields, the term does
  -- not fall, and a vote cast in a term stays as it is while that term lasts. (The term may not be
  -- the last of a uint64.)
  pub step-Runs : (i : Input) (s : Server S) → s.current_term + 1 < 2 ^ 64 → Runs s (step st i s)
  unfolding step handle_debug_state
  step-Runs (got_request_vote m from) s small = Runs-of_Kept (on_request_vote-Kept st m from s)
  step-Runs (got_request_vote_reply m from) s small =
      Runs-of_Kept (on_request_vote_reply-Kept st m from s)
  step-Runs (got_append_entries m from) s small = on_append_entries-Runs m from s
  step-Runs (got_append_entries_reply m from) s small = on_append_entries_reply-Runs m from s
  step-Runs (proposed command) s small = handle_propose-Runs command s
  step-Runs asked_debug_state s small = Runs-of_Kept (Kept-of_same s _ refl)
  step-Runs election_timeout s small =
      if_elim (Runs s) s.election_armed _ _
        (λ _.
          let t = record s { election_armed = false } in
          Runs-of_Kept
            (Kept-trans {t = t} (Kept-of_same s t refl) (on_election_timeout-Kept st t small)))
        (λ _. Runs-of_Kept (Kept-refl s))
  step-Runs heartbeat_tick s small =
      if_elim (Runs s) s.heartbeat_armed _ _
        (λ _. Runs-of_Kept (Frame-Kept (broadcast_append_entries-Frame s)))
        (λ _. Runs-of_Kept (Kept-refl s))
  step-Runs reconnect_tick s small = Runs-of_Kept (Frame-Kept (ensure_connections-Frame s))
  step-Runs (session_connected h) s small = Runs-of_Kept (Kept-of_same s _ refl)
  step-Runs (session_disconnected h) s small = Runs-of_Kept (Kept-of_same s _ refl)
  step-Runs (session_given_up h n) s small = Runs-of_Kept (Kept-of_same s _ refl)
