-- ===== src/Paxos/Node/Acceptor.antt =====
-- The acceptor of pkg/protocols/paxos/protocol.go: what `onPrepare` and `onAccept` write and send.
use protorun.Prelude.{
  nat_eq, ◌||◌, if_elim, or_default, lookup, length, max, ◌⊎◌, inl, inr, Bool-cases, append_assoc,
  ap, ◌∙◌, sym, leb→le, ℕ, ◌≤◌, ◌<◌, ◌≡◌, refl, Bool, true, false, if◌then◌else◌, arith, [], ◌∷◌,
  ◌++◌, List, ltb, leb,
}
use protorun.Transport.Host.{Host, host_eq}
use protorun.Wire.{Bytes}
use protorun.Paxos.Storage.{Storage, PersistentState}
use protorun.Paxos.Rules.{majority_size, can_promise, can_accept, PromiseInfo}
use protorun.Paxos.Messages.{Prepare, Accept}
use protorun.Paxos.Node.{
  published_decided, no_info, send, Node, Effect, Message, sent, persisted, durable, observe_ballot,
  persist, accept_prepare, accept_accept, decide, tally, record_accepted, broadcast_accepted,
  send_all,
}
use protorun.Paxos.Node.Proposer.{on_prepare, on_accept}

-- What a promise tells of the acceptor: its acceptance if it promised, nothing if it refused.
abbrev pub reported : {S : Type 0} → Bool → Node S → PromiseInfo
reported given s =
    if given
    then record {
      accepted_ballot = s.accepted_ballot;
      accepted_value = s.accepted_value;
      has_accepted = s.has_accepted;
    }
    else no_info

module _ {S : Type 0} (st : Storage S) where
  -- A prepare is promised exactly if its ballot is above the promise in force. The reply bears the
  -- higher of the two ballots and, with a promise, what the acceptor had accepted; the new promise
  -- is persisted before the reply, and nothing else is written or sent. The acceptor's state is
  -- then its former one with the higher ballot promised.
  pub on_prepare-trace :
      (m : Prepare) (from : Host) (s : Node S)
      → let t = on_prepare st m from s in
        let given = ltb s.promised m.ballot in
        let info = reported given s in
        (durable t ≡ record (durable s) { promised = max s.promised m.ballot })
        × (t.trace
            ≡ sent
                  (Message.promise (record {
                    ballot = m.ballot;
                    ok_flag = given;
                    max_ballot = max s.promised m.ballot;
                    accepted_ballot = info.accepted_ballot;
                    accepted_value = info.accepted_value;
                    has_accepted = info.has_accepted;
                  }))
                  from
                ∷ (if given then persisted (durable t) ∷ [] else [])
              ++ s.trace)
  unfolding on_prepare accept_prepare persist can_promise observe_ballot
  on_prepare-trace m from s = (ground arith, ground arith)

  -- The acceptor did not change, and the trace only grew.
  record Grows (s t : Node S) : Type 0 where
    same_acceptor : durable t ≡ durable s
    more : List Effect
    grown : t.trace ≡ more ++ s.trace

  Grows-refl : (s : Node S) → Grows s s
  Grows-refl s = record { same_acceptor = refl; more = []; grown = refl }

  Grows-trans : {s t u : Node S} → Grows s t → Grows t u → Grows s u
  Grows-trans {s} g h = record {
    same_acceptor = h.same_acceptor ∙ g.same_acceptor;
    more = h.more ++ g.more;
    grown = h.grown ∙ ap (λ x. h.more ++ x) g.grown ∙ sym (append_assoc h.more g.more s.trace);
  }

  send_all-Grows : (m : Message) (hs : List Host) (s : Node S) → Grows s (send_all m hs s)
  unfolding send_all
  send_all-Grows m [] s = Grows-refl s
  send_all-Grows m (h ∷ hs) s =
      Grows-trans {t = send m h s}
        (record { same_acceptor = refl; more = sent m h ∷ []; grown = refl })
        (send_all-Grows m hs (send m h s))

  Grows-of_same : {s t : Node S} → durable t ≡ durable s → t.trace ≡ s.trace → Grows s t
  Grows-of_same d e = record { same_acceptor = d; more = []; grown = e }

  decide-Grows : (b : ℕ) (v : Bytes) (s : Node S) → Grows s (decide b v s)
  unfolding decide
  decide-Grows b v s = record {
    same_acceptor = ground arith;
    more = if s.decided || s.announced then [] else published_decided v b ∷ [];
    grown = ground arith;
  }

  record_accepted-Grows :
      (b : ℕ) (v : Bytes) (from : Host) (s : Node S) → Grows s (record_accepted b v from s)
  unfolding record_accepted observe_ballot tally
  record_accepted-Grows b v from s =
      let s₁ = observe_ballot b s in
      let s₂ = tally b v from s₁ in
      let chosen = or_default [] (lookup b s₂.value_at) in
      let full = leb (majority_size s₂.size) (length (or_default [] (lookup b s₂.accepts))) in
      Grows-trans {t = s₁} (Grows-of_same (ground arith) (ground arith)) (
        if_elim (Grows s₁) s₁.decided s₁ _ (λ _. Grows-refl s₁)
          λ _.
            if_elim (Grows s₁)
              (or_default false (lookup from (or_default [] (lookup b s₁.accepts)))) s₁
              (if full then decide b chosen s₂ else s₂) (λ _. Grows-refl s₁)
              λ _. Grows-trans {t = s₂} (Grows-of_same (ground arith) (ground arith)) (
                if_elim (Grows s₂) full (decide b chosen s₂) s₂ (λ _. decide-Grows b chosen s₂)
                  (λ _. Grows-refl s₂)))

  broadcast_accepted-Grows : (b : ℕ) (v : Bytes) (s : Node S) → Grows s (broadcast_accepted b v s)
  unfolding broadcast_accepted
  broadcast_accepted-Grows b v s =
      Grows-trans (record_accepted-Grows b v s.self s) (send_all-Grows _ s.peers _)

  -- The state in which an accepted ballot is broadcast.
  abbrev written : Accept → Node S → Node S
  written m s = persist st (record (observe_ballot m.ballot s) {
    promised = m.ballot;
    accepted_ballot = m.ballot;
    accepted_value = m.value;
    has_accepted = true;
  })

  on_accept-eq :
      (m : Accept) (from : Host) (s : Node S)
      → leb s.promised m.ballot ≡ true
      → on_accept st m from s ≡ broadcast_accepted m.ballot m.value (written m s)
  unfolding on_accept accept_accept can_accept observe_ballot
  on_accept-eq m from s h = ground arith

  -- An accept at a ballot that is not below the promise is accepted: the acceptor then holds the
  -- message's ballot and value, and wrote that to the storage before anything else that it did.
  -- Below the promise it is refused with the promise in force, and the acceptor stays as it was.
  pub on_accept-trace :
      (m : Accept) (from : Host) (s : Node S)
      → let t = on_accept st m from s in
        let ps : PersistentState = record {
          promised = m.ballot;
          accepted_ballot = m.ballot;
          accepted_value = m.value;
          has_accepted = true;
        } in
        ((s.promised ≤ m.ballot)
          × (durable t ≡ ps)
          × ((es : List Effect) × (t.trace ≡ es ++ persisted ps ∷ s.trace)))
        ⊎ ((m.ballot < s.promised)
            × (durable t ≡ durable s)
            × (t.trace
                ≡ sent (Message.accept_nack (record { max_ballot = s.promised })) from ∷ s.trace))
  unfolding on_accept accept_accept persist can_accept observe_ballot
  on_accept-trace m from s = elim (Bool-cases (leb s.promised m.ballot)) [
    | inl h ↦
        let g = broadcast_accepted-Grows m.ballot m.value (written m s) in
        inl (
          leb→le _ _ h,
          rw (on_accept-eq m from s h) g.same_acceptor,
          (g.more, rw (on_accept-eq m from s h) (g.grown ∙ ap (λ x. g.more ++ x) (ground arith))),
        )
    | inr h ↦ inr (ground arith, ground arith, ground arith)
  ]
