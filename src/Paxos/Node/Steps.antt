-- ===== src/Paxos/Node/Steps.antt =====
-- Each operation and each event of a paxos participant keeps what `Kept` lists.
use protorun.Prelude.{
  nat_eq, ℕ, refl, true, false, not, [], ◌∷◌, ◌++◌, arith, leb, if◌then◌else◌, if_elim, or_default,
  lookup, insert, length, ◌==◌,
}
use protorun.Transport.Host.{Host, host_eq}
use protorun.Wire.{Bytes}
use protorun.Paxos.Storage.{Storage}
use protorun.Paxos.Rules.{can_promise, can_accept, majority_size, choose_value, next_ballot}
use protorun.Paxos.Node.{
  durable, Node, Message, send_all, observe_ballot, persist, accept_prepare, accept_accept, decide,
  tally, record_accepted, broadcast_accepted,
}
use protorun.Paxos.Node.Proposer.{infos_of, begin_phase2, phase2_if_quorum, open_round, start_round}
use protorun.Paxos.Node.Kept.{
  Kept, Kept-refl, Kept-trans, Kept-of_same, send_all-Kept, observe_ballot-Kept, decide-Kept,
}

module _ {S : Type 0} (st : Storage S) where
  tally-Kept : (b : ℕ) (v : Bytes) (from : Host) (s : Node S) → Kept st s (tally b v from s)
  unfolding tally
  tally-Kept b v from s = Kept-of_same s _ (ground arith)

  -- The decision, once a majority has accepted the ballot.
  abbrev settle : ℕ → Node S → Node S
  settle b s =
      if leb (majority_size s.size) (length (or_default [] (lookup b s.accepts)))
      then decide b (or_default [] (lookup b s.value_at)) s
      else s

  settle-Kept : (b : ℕ) (s : Node S) → Kept st s (settle b s)
  settle-Kept b s =
      if_elim (Kept st s) (leb (majority_size s.size) (length (or_default [] (lookup b s.accepts))))
        (decide b (or_default [] (lookup b s.value_at)) s) s
        (λ _. decide-Kept b (or_default [] (lookup b s.value_at)) s) (λ _. Kept-refl s)

  pub record_accepted-Kept :
      (b : ℕ) (v : Bytes) (from : Host) (s : Node S) → Kept st s (record_accepted b v from s)
  unfolding record_accepted
  record_accepted-Kept b v from s =
      let s₁ = observe_ballot b s in
      Kept-trans {t = s₁} (observe_ballot-Kept b s) (
        if_elim (Kept st s₁) s₁.decided _ _ (λ _. Kept-refl s₁)
          λ _.
            if_elim (Kept st s₁)
              (or_default false (lookup from (or_default [] (lookup b s₁.accepts)))) s₁
              (settle b (tally b v from s₁)) (λ _. Kept-refl s₁)
              λ _. Kept-trans (tally-Kept b v from s₁) (settle-Kept b (tally b v from s₁)))

  pub broadcast_accepted-Kept :
      (b : ℕ) (v : Bytes) (s : Node S) → Kept st s (broadcast_accepted b v s)
  unfolding broadcast_accepted
  broadcast_accepted-Kept b v s =
      Kept-trans (record_accepted-Kept b v s.self s) (send_all-Kept _ s.peers _)

  -- The acceptor's promise.
  pub accept_prepare-Kept : (b : ℕ) (s : Node S) → Kept st s (accept_prepare st b s).0
  unfolding accept_prepare persist can_promise observe_ballot
  accept_prepare-Kept b s =
      let s₁ = observe_ballot b s in
      let t = record s₁ { promised = b } in
      let stored = st.load-persist t.storage (durable t) in
      record {
        promised_le = ground arith;
        max_seen_le = ground arith;
        within = λ h. ground arith;
        accepted_le = λ w h. ground arith;
        stored_same = λ h. ground (arith, stored);
        decided_same = λ h. ground arith;
        told_same = λ h. ground arith;
      }

  pub accept_accept-Kept : (b : ℕ) (v : Bytes) (s : Node S) → Kept st s (accept_accept st b v s).0
  unfolding accept_accept persist can_accept observe_ballot
  accept_accept-Kept b v s =
      let s₁ = observe_ballot b s in
      let t = record s₁ {
        promised = b;
        accepted_ballot = b;
        accepted_value = v;
        has_accepted = true;
      } in
      let stored = st.load-persist t.storage (durable t) in
      record {
        promised_le = ground arith;
        max_seen_le = ground arith;
        within = λ h. ground arith;
        accepted_le = λ w h. ground arith;
        stored_same = λ h. ground (arith, stored);
        decided_same = λ h. ground arith;
        told_same = λ h. ground arith;
      }

  begin_phase2-Kept : (s : Node S) → Kept st s (begin_phase2 st s)
  unfolding begin_phase2
  begin_phase2-Kept s =
      let s₁ = record s { phase = 2 } in
      let infos = infos_of s₁.promises (s₁.peers ++ s₁.self ∷ []) in
      let value = (choose_value infos s₁.my_value).0 in
      let r = accept_accept st s₁.my_ballot value s₁ in
      let s₂ = r.0 in
      let s₃ = (if r.1 then broadcast_accepted s₁.my_ballot value s₂ else s₂) in
      if_elim (Kept st s) (not (s.phase == 1)) s
        (send_all (Message.accept (record { ballot = s₃.my_ballot; value = value })) s₃.peers s₃)
        (λ _. Kept-refl s)
        λ _. Kept-trans {t = s₁} (Kept-of_same s s₁ refl) (
          Kept-trans {t = s₂} (accept_accept-Kept s₁.my_ballot value s₁) (
            Kept-trans {t = s₃}
              (if_elim (Kept st s₂) r.1 (broadcast_accepted s₁.my_ballot value s₂) s₂
                (λ _. broadcast_accepted-Kept s₁.my_ballot value s₂) (λ _. Kept-refl s₂))
              (send_all-Kept (Message.accept (record { ballot = s₃.my_ballot; value = value }))
                s₃.peers s₃)))

  pub phase2_if_quorum-Kept : (s : Node S) → Kept st s (phase2_if_quorum st s)
  unfolding phase2_if_quorum
  phase2_if_quorum-Kept s =
      if_elim (Kept st s) (leb (majority_size s.size) (length s.promises)) (begin_phase2 st s) s
        (λ _. begin_phase2-Kept s) (λ _. Kept-refl s)

  open_round-Kept : (s : Node S) → Kept st s (open_round st s)
  unfolding open_round
  open_round-Kept s =
      let s₁ = record s {
        proposing = true;
        phase = 1;
        my_ballot = next_ballot s.max_seen s.size s.index;
      } in
      let s₂ = observe_ballot s₁.my_ballot s₁ in
      let s₃ = record s₂ { promises = [] } in
      let r = accept_prepare st s₃.my_ballot s₃ in
      let s₄ = r.0 in
      let s₅ = record s₄ { promises = insert s₄.self r.3 s₄.promises } in
      Kept-trans {t = s₁} (Kept-of_same s s₁ refl) (
        Kept-trans {t = s₂} (observe_ballot-Kept s₁.my_ballot s₁) (
          Kept-trans {t = s₃} (Kept-of_same s₂ s₃ refl) (
            Kept-trans {t = s₄} (accept_prepare-Kept s₃.my_ballot s₃)
              (if_elim (Kept st s₄) r.1 s₅ s₄ (λ _. Kept-of_same s₄ s₅ refl) (λ _. Kept-refl s₄)))))

  pub start_round-Kept : (s : Node S) → Kept st s (start_round st s)
  unfolding start_round
  start_round-Kept s =
      let s₁ = open_round st s in
      let m = Message.prepare (record { ballot = s₁.my_ballot }) in
      let s₂ = send_all m s₁.peers s₁ in
      let s₃ = record s₂ { retry_armed = true } in
      if_elim (Kept st s) s.decided s (phase2_if_quorum st s₃) (λ _. Kept-refl s)
        λ _. Kept-trans {t = s₁} (open_round-Kept s) (
          Kept-trans {t = s₂} (send_all-Kept m s₁.peers s₁)
            (Kept-trans {t = s₃} (Kept-of_same s₂ s₃ refl) (phase2_if_quorum-Kept s₃)))
