-- ===== src/Raft/Server/Kept.antt =====
-- What an event keeps of a raft server: its storage, its term and vote, the order of application.
use protorun.Raft.Server.Handlers.{adopt_term}
use protorun.Prelude.{
  ℕ, ◌+◌, ◌≤◌, ◌<◌, ◌≡◌, refl, ap, ◌∙◌, sym, true, false, List, ◌⊎◌, inl, inr, arith, ltb,
  Bool-cases, ltb→lt,
}
use protorun.Transport.Host.{Host, host_eq, zero_host}
use protorun.Raft.Log.{LogEntry, last_index}
use protorun.Raft.Storage.{Storage, PersistentState}
use protorun.Raft.Server.{
  Server, persist_term, step_down, set_leader, zero_host, applied_indices, down_from,
}
use protorun.Raft.Server.Replication.{splice, append_conflict_free}
use protorun.Raft.Server.Splice.{append_from-cases, splice-eq}
use protorun.Raft.Server.Frame.{Frame, InOrder}

module _ {S : Type 0} where
  -- The durable fields, as `Load` returns them.
  abbrev pub durable : Server S → PersistentState
  durable s = record {
    current_term = s.current_term;
    voted_for = s.voted_for;
    has_voted = s.has_voted;
    log = s.log;
  }

  -- What is in the storage is what the server holds.
  abbrev pub Stored : Storage S → Server S → Type 0
  Stored st s = st.load s.storage ≡ durable s

-- What `Kept` reads.
pub record Core (S : Type 0) : Type 0 where
  pub identity : Host
  pub held : PersistentState
  pub kept_in : S
  pub applied_to : ℕ
  pub indices : List ℕ

abbrev pub core : {S : Type 0} → Server S → Core S
core s = record {
  identity = s.self;
  held = durable s;
  kept_in = s.storage;
  applied_to = s.last_applied;
  indices = applied_indices s.trace;
}

-- One or more events took the server from `s` to `t`.
pub record Kept {S : Type 0} (st : Storage S) (s t : Server S) : Type 0 where
  pub self_same : t.self ≡ s.self
  pub term_le : s.current_term ≤ t.current_term
  pub vote_same :
      t.current_term ≡ s.current_term
      → s.has_voted ≡ true
      → (t.has_voted ≡ true) × (t.voted_for ≡ s.voted_for)
  pub stored_same : Stored st s → Stored st t
  pub order_same : InOrder s → InOrder t

module _ {S : Type 0} {st : Storage S} where
  pub Kept-refl : (s : Server S) → Kept st s s
  Kept-refl s = record {
    self_same = refl;
    term_le = omega arith;
    vote_same = λ _ h. (h, refl);
    stored_same = λ h. h;
    order_same = λ h. h;
  }

  pub Kept-trans : {s t u : Server S} → Kept st s t → Kept st t u → Kept st s u
  Kept-trans {s} {t} {u} k l = record {
    self_same = l.self_same ∙ k.self_same;
    term_le = omega (arith, k.term_le, l.term_le);
    vote_same = λ e h.
        let a = k.vote_same (omega (arith, k.term_le, l.term_le)) h in
        let b = l.vote_same (omega (arith, k.term_le, l.term_le)) a.0 in (b.0, b.1 ∙ a.1);
    stored_same = λ h. l.stored_same (k.stored_same h);
    order_same = λ h. l.order_same (k.order_same h);
  }

  pub Frame-Kept : {s t : Server S} → Frame s t → Kept st s t
  Frame-Kept {s} {t} f = record {
    self_same = f.self_kept;
    term_le = omega (arith, f.term_kept);
    vote_same = λ e h. (f.has_voted_kept ∙ h, f.voted_for_kept);
    stored_same = λ h. ground (arith, f);
    order_same = f.order_kept;
  }

  -- Nothing that matters changed.
  pub Kept-of_same : (s t : Server S) → core t ≡ core s → Kept st s t
  Kept-of_same s t e =
      let d = ap (λ (c : Core S). c.held) e in
      let m = ap (λ (c : Core S). c.kept_in) e in
      record {
        self_same = ap (λ (c : Core S). c.identity) e;
        term_le = omega (arith, ap (λ (p : PersistentState). p.current_term) d);
        vote_same = λ _ h. ground arith;
        stored_same = λ h. ap st.load m ∙ h ∙ sym d;
        order_same = λ h.
            ap (λ (c : Core S). c.indices) e
            ∙ h
            ∙ sym (ap (λ (c : Core S). down_from c.applied_to) e);
      }

module _ {S : Type 0} (st : Storage S) where
  -- `persistTerm` writes what is missing, if the stored log was right.
  pub persist_term-Stored :
      (s : Server S) → (st.load s.storage).log ≡ s.log → Stored st (persist_term st s)
  unfolding persist_term
  persist_term-Stored s h =
      ground (arith, st.load-save_term s.storage s.current_term s.voted_for s.has_voted)

  -- A step down to a higher term.
  pub step_down-Kept :
      (term : ℕ) (s : Server S) → s.current_term < term → Kept st s (step_down st term s)
  unfolding step_down
  step_down-Kept term s lt = record {
    self_same = refl;
    term_le = omega arith;
    vote_same = λ e h. absurd (omega arith);
    stored_same = λ h. ground (arith, st.load-save_term s.storage term zero_host false);
    order_same = λ h. h;
  }

  pub adopt_term-Kept : (term : ℕ) (s : Server S) → Kept st s (adopt_term st term s)
  unfolding adopt_term
  adopt_term-Kept term s = elim (Bool-cases (ltb s.current_term term)) [
    | inl lt ↦ rw lt (step_down-Kept term s (ltb→lt _ _ lt))
    | inr ge ↦ rw ge (Kept-refl s)
  ]

  -- A vote for a host that had it already, or that nobody had.
  pub cast_vote-Kept :
      (from : Host) (s : Server S)
      → (s.has_voted ≡ false) ⊎ (s.voted_for ≡ from)
      → Kept st s (persist_term st (record s { voted_for = from; has_voted = true }))
  unfolding persist_term
  cast_vote-Kept from s free = record {
    self_same = refl;
    term_le = omega arith;
    vote_same = λ e h. ground arith;
    stored_same = λ h. ground (arith, st.load-save_term s.storage s.current_term from true);
    order_same = λ h. h;
  }

  splice-Kept :
      (idx : ℕ) (es : List LogEntry) (s : Server S)
      → 1 ≤ idx
      → idx ≤ last_index s.log + 1
      → Kept st s (splice st idx es s)
  splice-Kept idx es s lo hi = rw (splice-eq st idx es s lo hi) (record {
    self_same = refl;
    term_le = omega arith;
    vote_same = λ e h. (h, refl);
    stored_same = λ h. ground (arith, st.load-append_entries s.storage idx es);
    order_same = λ h. h;
  })

  pub append_conflict_free-Kept :
      (prev : ℕ) (es : List LogEntry) (s : Server S)
      → prev ≤ last_index s.log
      → Kept st s (append_conflict_free st prev es s)
  unfolding append_conflict_free
  append_conflict_free-Kept prev es s h =
      elim (append_from-cases st (prev + 1) es s (omega arith)) [
        | inl e ↦ rw e (Kept-refl s)
        | inr (j, fs, e, lo, hi) ↦ rw e (splice-Kept j fs s (omega arith) (ground arith))
      ]

  pub set_leader-Kept : (h : Host) (s : Server S) → Kept st s (set_leader h s)
  unfolding set_leader
  set_leader-Kept h s = Kept-of_same s _ (ground arith)
