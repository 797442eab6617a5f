-- ===== src/Raft/Server/Splice.antt =====
-- `appendConflictFree`: what the log and the storage hold afterwards.
use protorun.Prelude.{
  ℕ, ◌+◌, ◌-◌, ◌≤◌, ◌<◌, ◌≡◌, refl, ap, ◌∙◌, sym, ◌&&◌, List, [], ◌∷◌, ◌++◌, append_assoc,
  append-nil, length, take, get_elem?, leb, ◌==◌, ◌⊎◌, inl, inr, arith, length-append, length-take,
  take_of_le, Bool-cases, subst, take-cong, ◌≢◌,
}
use protorun.Raft.Log.{Log, LogEntry, last_index, term_at, append, truncate_from}
use protorun.Raft.Log.Laws.{Agrees, Agrees-append, get_elem?-take-append, term_at-cong}
use protorun.Raft.Storage.{Storage}
use protorun.Raft.Server.{Server, saved_entries, emit}
use protorun.Raft.Server.Replication.{append_all, splice, append_from, append_conflict_free}

-- The log that Raft asks for when these entries arrive for the indices from `idx` on. Entries that are
-- there, by term, stay; at the first one that is missing or of another term the log is cut, and it and
-- all that follow it go behind, with their commands; if there is no such one, the log stays.
pub data Spliced (l : Log) : ℕ → List LogEntry → Log → Type 0 where
  done : (idx : ℕ) → Spliced l idx [] l
  there :
      (idx : ℕ) (e : LogEntry) (es : List LogEntry) (l' : Log)
      → idx ≤ last_index l
      → term_at l idx ≡ e.term
      → Spliced l (idx + 1) es l'
      → Spliced l idx (e ∷ es) l'
  cut :
      (idx : ℕ) (e : LogEntry) (es : List LogEntry)
      → (last_index l < idx) ⊎ (term_at l idx ≢ e.term)
      → Spliced l idx (e ∷ es) (take (idx - 1) l ++ e ∷ es)

append_all-eq : (l : Log) (es : List LogEntry) → append_all l es ≡ l ++ es
unfolding append_all append
append_all-eq l [] = sym (append-nil l)
append_all-eq l (e ∷ es) = append_all-eq (l ++ e ∷ []) es ∙ append_assoc l (e ∷ []) es

module _ {S : Type 0} (st : Storage S) where
  -- The log is cut before `idx` and the entries go behind it.
  pub splice-log :
      (idx : ℕ) (es : List LogEntry) (s : Server S)
      → 1 ≤ idx
      → idx ≤ last_index s.log + 1
      → (splice st idx es s).log ≡ take (idx - 1) s.log ++ es
  unfolding splice truncate_from
  splice-log idx es s lo hi =
      append_all-eq _ es ∙ ap (λ (l : Log). l ++ es) (ground (arith, take_of_le (idx - 1) s.log))

  pub splice-eq :
      (idx : ℕ) (es : List LogEntry) (s : Server S)
      → 1 ≤ idx
      → idx ≤ last_index s.log + 1
      → splice st idx es s
        ≡ emit (saved_entries idx es) (record s {
          log = take (idx - 1) s.log ++ es;
          storage = st.append_entries s.storage idx es;
        })
  unfolding splice
  splice-eq idx es s lo hi =
      ap
        (λ (l : Log).
          emit (saved_entries idx es)
            (record s { log = l; storage = st.append_entries s.storage idx es }))
        (splice-log idx es s lo hi)

  -- Either every entry was there and nothing happens, or the suffix from some index on is spliced.
  pub append_from-cases :
      (idx : ℕ) (es : List LogEntry) (s : Server S)
      → 1 ≤ idx
      → (append_from st idx es s ≡ s)
        ⊎ ((j : ℕ) × (fs : List LogEntry) × (append_from st idx es s ≡ splice st j fs s)
            × (idx ≤ j)
            × (j ≤ last_index s.log + 1 ⊎ (j ≡ idx)))
  unfolding append_from
  append_from-cases idx [] s lo = inl refl
  append_from-cases idx (e ∷ es) s lo =
      elim (Bool-cases (leb idx (last_index s.log) && term_at s.log idx == e.term)) [
        | inl have ↦ rw have (elim (append_from-cases (idx + 1) es s (omega arith)) [
          | inl same ↦ inl same
          | inr (j, fs, e, lt, le) ↦ inr (j, fs, e, omega arith, ground arith)
        ])
        | inr new ↦ rw new (inr (idx, e ∷ es, refl, omega arith, inr refl))
      ]

  -- Positions below the first index stay.
  pub append_from-below :
      (idx : ℕ) (es : List LogEntry) (s : Server S) (i : ℕ)
      → 1 ≤ idx
      → idx ≤ last_index s.log + 1
      → i + 1 < idx
      → get_elem? (append_from st idx es s).log i ≡ get_elem? s.log i
  unfolding append_from
  append_from-below idx [] s i lo hi lt = refl
  append_from-below idx (e ∷ es) s i lo hi lt =
      elim (Bool-cases (leb idx (last_index s.log) && term_at s.log idx == e.term)) [
        | inl have ↦
            rw have (append_from-below (idx + 1) es s i (omega arith) (ground arith) (omega arith))
        | inr new ↦
            rw (new, splice-log idx (e ∷ es) s lo hi)
              (get_elem?-take-append (idx - 1) s.log (e ∷ es) i (omega arith) (omega arith))
      ]

  -- The log reaches at least to the last of the entries.
  pub append_from-length :
      (idx : ℕ) (es : List LogEntry) (s : Server S)
      → 1 ≤ idx
      → idx ≤ last_index s.log + 1
      → idx + length es ≤ last_index (append_from st idx es s).log + 1
  unfolding append_from
  append_from-length idx [] s lo hi = omega arith
  append_from-length idx (e ∷ es) s lo hi =
      elim (Bool-cases (leb idx (last_index s.log) && term_at s.log idx == e.term)) [
        | inl have ↦ rw have (ground (arith, append_from-length (idx + 1) es s))
        | inr new ↦
            rw (new, splice-log idx (e ∷ es) s lo hi)
              (omega
                (arith, length-append (take (idx - 1) s.log) (e ∷ es), length-take (idx - 1) s.log))
      ]

  -- And it holds each entry, by term, at its index.
  pub append_from-Agrees :
      (idx : ℕ) (es : List LogEntry) (s : Server S)
      → 1 ≤ idx
      → idx ≤ last_index s.log + 1
      → Agrees (append_from st idx es s).log idx es
  unfolding append_from
  append_from-Agrees idx [] s lo hi = tt
  append_from-Agrees idx (e ∷ es) s lo hi =
      elim (Bool-cases (leb idx (last_index s.log) && term_at s.log idx == e.term)) [
        | inl have ↦
            let t = append_from st (idx + 1) es s in
            let p : append_from st idx (e ∷ es) s ≡ t = rw have in
            let len = append_from-length (idx + 1) es s (omega arith) (ground arith) in
            let below =
              append_from-below (idx + 1) es s (idx - 1) (omega arith) (ground arith)
                (omega arith) in
            let kept = term_at-cong s.log t.log idx lo (ground arith) (omega arith) below in
            subst (λ (u : Server S). Agrees u.log idx (e ∷ es)) (sym p)
              (
                omega arith,
                kept ∙ ground arith,
                append_from-Agrees (idx + 1) es s (omega arith) (ground arith),
              )
        | inr new ↦
            let cut = take (idx - 1) s.log in
            let p : (append_from st idx (e ∷ es) s).log ≡ cut ++ e ∷ es =
              rw new (splice-log idx (e ∷ es) s lo hi) in
            let n : last_index cut + 1 ≡ idx = omega (arith, length-take (idx - 1) s.log) in
            subst (λ (l : Log). Agrees l idx (e ∷ es)) (sym p)
              (subst (λ (k : ℕ). Agrees (cut ++ e ∷ es) k (e ∷ es)) n (Agrees-append cut (e ∷ es)))
      ]

  -- After a splice behind `prev`, an index that the log reaches, the log holds every entry of the message, by term, at its index;
  -- what stood up to `prev` is as before; and the log reaches the last of the entries.
  pub append_conflict_free_lem :
      (prev : ℕ) (es : List LogEntry) (s : Server S)
      → prev ≤ last_index s.log
      → let t = append_conflict_free st prev es s in
        Agrees t.log (prev + 1) es
        × (take prev t.log ≡ take prev s.log)
        × (prev + length es ≤ last_index t.log)
  unfolding append_conflict_free
  append_conflict_free_lem prev es s h = (
    append_from-Agrees (prev + 1) es s (omega arith) (omega arith),
    take-cong prev _ _
        (λ i lt. append_from-below (prev + 1) es s i (omega arith) (omega arith) (omega arith)),
    omega (arith, append_from-length (prev + 1) es s (omega arith) (omega arith)),
  )

  -- And it is the log that Raft asks for.
  pub append_from-Spliced :
      (idx : ℕ) (es : List LogEntry) (s : Server S)
      → 1 ≤ idx
      → idx ≤ last_index s.log + 1
      → Spliced s.log idx es (append_from st idx es s).log
  unfolding append_from
  append_from-Spliced idx [] s lo hi = Spliced.done idx
  append_from-Spliced idx (e ∷ es) s lo hi =
      elim (Bool-cases (leb idx (last_index s.log) && term_at s.log idx == e.term)) [
        | inl have ↦ rw have (
            Spliced.there idx e es _ (ground arith) (ground arith)
              (append_from-Spliced (idx + 1) es s (omega arith) (ground arith)))
        | inr new ↦ rw (new, splice-log idx (e ∷ es) s lo hi) (Spliced.cut idx e es (ground arith))
      ]

  append_from-again :
      (idx : ℕ) (es : List LogEntry) (s : Server S)
      → Agrees s.log idx es
      → append_from st idx es s ≡ s
  unfolding append_from
  append_from-again idx [] s h = refl
  append_from-again idx (e ∷ es) s h = ground (arith, append_from-again (idx + 1) es s h.2)

  -- A message whose entries are all there changes nothing at all.
  pub append_conflict_free-again :
      (prev : ℕ) (es : List LogEntry) (s : Server S)
      → Agrees s.log (prev + 1) es
      → append_conflict_free st prev es s ≡ s
  unfolding append_conflict_free
  append_conflict_free-again prev es s h = append_from-again (prev + 1) es s h
