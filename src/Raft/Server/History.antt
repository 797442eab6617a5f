-- ===== src/Raft/Server/History.antt =====
-- What holds over any history of events of a raft server.
use mathlib.Core.Option.{some-injective}
use protorun.Prelude.{◌+◌, ◌^◌, ◌≤◌, ◌<◌, ◌≡◌, refl, true, some, arith, ap, ◌∙◌, sym, List, subst}
use protorun.Transport.Host.{Host}
use protorun.Raft.Storage.{Storage}
use protorun.Raft.Server.{Server, applied_indices, down_from, new}
use protorun.Raft.Server.Frame.{ensure_connections-Frame}
use protorun.Raft.Server.Kept.{Kept, Kept-refl, Kept-trans, durable}
use protorun.Raft.Server.Runs.{step-Runs}
use protorun.Raft.Server.Step.{Input, step, init}

module _ {S : Type 0} (st : Storage S) where
  -- `t` comes from `s` by events in any order, as long as the term counter has room.
  pub data Reach (s : Server S) : Server S → Type 0 where
    here : Reach s s
    next :
        {t u : Server S} (i : Input)
        → Reach s t
        → t.current_term + 1 < 2 ^ 64
        → step st i t ≡ some u
        → Reach s u

  Step-Kept :
      (i : Input) {s t : Server S}
      → s.current_term + 1 < 2 ^ 64
      → step st i s ≡ some t
      → Kept st s t
  Step-Kept i {s} {t} small e =
      let (u, f, k) = step-Runs st i s small in subst (Kept st s) (some-injective _ _ (sym f ∙ e)) k

  Reach-Kept : {s t : Server S} → Reach s t → Kept st s t
  Reach-Kept {s} here = Kept-refl s
  Reach-Kept (next i r small e) = Kept-trans (Reach-Kept r) (Step-Kept i small e)

  -- No event makes a server panic: while the term counter has room, every event has a next state.
  pub step-total :
      (i : Input) (s : Server S)
      → s.current_term + 1 < 2 ^ 64
      → (t : Server S) × (step st i s ≡ some t)
  step-total i s small = let (t, e, _) = step-Runs st i s small in (t, e)

  -- A server votes for at most one candidate in a term: over any history that ends in the same
  -- term, a vote that was cast stays cast, for the same host. (In a history,
  -- the term counter has room at each event.)
  pub vote_stable :
      {s t : Server S}
      → Reach s t
      → t.current_term ≡ s.current_term
      → s.has_voted ≡ true
      → (t.has_voted ≡ true) × (t.voted_for ≡ s.voted_for)
  vote_stable r e h = (Reach-Kept r).vote_same e h

  -- The term never falls, over any history.
  pub term_mono : {s t : Server S} → Reach s t → s.current_term ≤ t.current_term
  term_mono r = (Reach-Kept r).term_le

  -- What `Load` would return is the server's term, vote and log, after any history of a server for
  -- which this held at the start. (In a history, the term counter has room at each event.)
  pub storage_mirrors :
      {s t : Server S} → Reach s t → st.load s.storage ≡ durable s → st.load t.storage ≡ durable t
  storage_mirrors r h = (Reach-Kept r).stored_same h

  abbrev loaded : Server S → Server S
  loaded s = record s {
    current_term = (st.load s.storage).current_term;
    voted_for = (st.load s.storage).voted_for;
    has_voted = (st.load s.storage).has_voted;
    log = (st.load s.storage).log;
  }

  -- `Init` reads back what the storage holds, so a server starts as its own storage says.
  pub init-Stored : (s : Server S) → st.load (init st s).storage ≡ durable (init st s)
  unfolding init
  init-Stored s = ground (arith, ensure_connections-Frame (loaded s))

  init-storage : (s : Server S) → (init st s).storage ≡ s.storage
  unfolding init
  init-storage s = (ensure_connections-Frame (loaded s)).storage_kept

  -- A restart on the storage of a server reached from one whose storage held its state has the same
  -- term, vote and log. (In a history, the term counter has room at each event.)
  pub restart :
      {s t : Server S} (peers_list : List Host)
      → Reach s t
      → st.load s.storage ≡ durable s
      → durable (init st (new t.self peers_list t.storage)) ≡ durable t
  unfolding new
  restart {s} {t} peers_list r h =
      let fresh = new t.self peers_list t.storage in
      sym (init-Stored fresh) ∙ ap st.load (init-storage fresh) ∙ storage_mirrors r h

  -- After any history of a fresh server, the Applied notifications that were published bear the
  -- indices 1, 2, …, `last_applied`: each once, in order.
  pub applied_in_order :
      (self : Host) (peers : List Host) (storage : S) {t : Server S}
      → Reach (init st (new self peers storage)) t
      → applied_indices t.trace ≡ down_from t.last_applied
  unfolding init new
  applied_in_order self peers storage r =
      (Reach-Kept r).order_same
        ((ensure_connections-Frame (loaded (new self peers storage))).order_kept refl)
