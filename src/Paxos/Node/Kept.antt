-- ===== src/Paxos/Node/Kept.antt =====
-- What an event keeps of a paxos participant: its storage, its promise and acceptance, its decision.
use protorun.Prelude.{
  ℕ, ◌≤◌, ◌≡◌, refl, ap, ◌∙◌, sym, true, List, [], ◌∷◌, arith, if◌then◌else◌, Bool,
}
use protorun.Transport.Host.{Host, host_eq}
use protorun.Wire.{Bytes}
use protorun.Paxos.Storage.{Storage, PersistentState}
use protorun.Paxos.Node.{
  Node, Effect, Message, published_decided, durable, send_all, observe_ballot, decide, send, Bool,
}

-- The decisions that a trace publishes, newest first.
abbrev pub decisions : List Effect → List (Bytes × ℕ)
decisions [] = []
decisions (published_decided value ballot ∷ es) = (value, ballot) ∷ decisions es
decisions (e ∷ es) = decisions es

module _ {S : Type 0} where
  -- What is in the storage is what the acceptor holds.
  abbrev pub Stored : Storage S → Node S → Type 0
  Stored st s = st.load s.storage ≡ durable s

  -- The decision, if there is one, has been published, and nothing else.
  abbrev pub told : Node S → List (Bytes × ℕ)
  told s = if s.decided then (s.decided_value, s.decided_ballot) ∷ [] else []

  abbrev pub Told : Node S → Type 0
  Told s = (s.announced ≡ s.decided) × (decisions s.trace ≡ told s)

-- What `Kept` reads.
pub record Core (S : Type 0) : Type 0 where
  pub held : PersistentState
  pub kept_in : S
  pub seen : ℕ
  pub announcement : Bool × Bool × Bytes × ℕ
  pub published : List (Bytes × ℕ)

abbrev pub core : {S : Type 0} → Node S → Core S
core s = record {
  held = durable s;
  kept_in = s.storage;
  seen = s.max_seen;
  announcement = (s.announced, s.decided, s.decided_value, s.decided_ballot);
  published = decisions s.trace;
}

pub record Kept {S : Type 0} (st : Storage S) (s t : Node S) : Type 0 where
  pub promised_le : s.promised ≤ t.promised
  pub max_seen_le : s.max_seen ≤ t.max_seen
  pub within : s.accepted_ballot ≤ s.promised → t.accepted_ballot ≤ t.promised
  pub accepted_le :
      s.accepted_ballot ≤ s.promised
      → s.has_accepted ≡ true
      → (t.has_accepted ≡ true) × (s.accepted_ballot ≤ t.accepted_ballot)
  pub stored_same : Stored st s → Stored st t
  pub decided_same :
      s.decided ≡ true
      → (t.decided ≡ true)
        × (t.decided_value ≡ s.decided_value)
        × (t.decided_ballot ≡ s.decided_ballot)
  pub told_same : Told s → Told t

module _ {S : Type 0} {st : Storage S} where
  pub Kept-refl : (s : Node S) → Kept st s s
  Kept-refl s = record {
    promised_le = omega arith;
    max_seen_le = omega arith;
    within = λ h. h;
    accepted_le = λ _ h. (h, omega arith);
    stored_same = λ h. h;
    decided_same = λ h. (h, refl, refl);
    told_same = λ h. h;
  }

  pub Kept-trans : {s t u : Node S} → Kept st s t → Kept st t u → Kept st s u
  Kept-trans {s} {t} {u} k l = record {
    promised_le = omega (arith, k.promised_le, l.promised_le);
    max_seen_le = omega (arith, k.max_seen_le, l.max_seen_le);
    within = λ h. l.within (k.within h);
    accepted_le = λ w h.
        let a = k.accepted_le w h in
        let b = l.accepted_le (k.within w) a.0 in (b.0, omega (arith, a.1, b.1));
    stored_same = λ h. l.stored_same (k.stored_same h);
    decided_same =
        λ h. let a = k.decided_same h in let b = l.decided_same a.0 in (b.0, b.1 ∙ a.1, b.2 ∙ a.2);
    told_same = λ h. l.told_same (k.told_same h);
  }

  -- Neither the acceptor nor the decision changed.
  pub Kept-of_same : (s t : Node S) → core t ≡ core s → Kept st s t
  Kept-of_same s t e =
      let d = ap (λ (c : Core S). c.held) e in
      let m = ap (λ (c : Core S). c.kept_in) e in
      let x = ap (λ (c : Core S). c.seen) e in
      let a = ap (λ (c : Core S). c.announcement) e in
      let i = ap (λ (c : Core S). c.published) e in
      record {
        promised_le = ground arith;
        max_seen_le = ground arith;
        within = λ h. ground arith;
        accepted_le = λ w h. ground arith;
        stored_same = λ h. ap st.load m ∙ h ∙ sym d;
        decided_same = λ h. ground arith;
        told_same = λ h. ground arith;
      }

  -- Nothing but the trace changed, and no decision was published.
  pub send_all-Kept : (m : Message) (hs : List Host) (s : Node S) → Kept st s (send_all m hs s)
  unfolding send_all
  send_all-Kept m [] s = Kept-refl s
  send_all-Kept m (h ∷ hs) s =
      let t = send m h s in Kept-trans {t = t} (Kept-of_same s t refl) (send_all-Kept m hs t)

  pub observe_ballot-Kept : (b : ℕ) (s : Node S) → Kept st s (observe_ballot b s)
  unfolding observe_ballot
  observe_ballot-Kept b s = record {
    promised_le = ground arith;
    max_seen_le = ground arith;
    within = λ h. ground arith;
    accepted_le = λ w h. ground arith;
    stored_same = λ h. ground arith;
    decided_same = λ h. ground arith;
    told_same = λ h. ground arith;
  }

  pub decide-Kept : (b : ℕ) (v : Bytes) (s : Node S) → Kept st s (decide b v s)
  unfolding decide
  decide-Kept b v s = record {
    promised_le = ground arith;
    max_seen_le = ground arith;
    within = λ h. ground arith;
    accepted_le = λ w h. ground arith;
    stored_same = λ h. ground arith;
    decided_same = λ h. ground arith;
    told_same = λ h. ground arith;
  }
