-- ===== src/Runtime/Mailbox/Wakeup.antt =====
-- `dequeMailbox.push` and `next` as interleaved steps: a producer appends under the lock and signals
-- afterwards; the event loop looks at the queue under the lock and waits for a signal if it is empty.
use protorun.Prelude.{
  ℕ, suc, ◌+◌, ◌<◌, ◌≡◌, ◌≢◌, refl, Bool, true, false, [], Option, none, some, ◌⊎◌, inl, inr, arith,
}
use protorun.Runtime.Mailbox.{DequeMailbox, enqueue_locked, next_locked, notify}
use protorun.Runtime.Mailbox.Order.{next_locked-cases}

-- The mailbox, whether the event loop waits, and the number of producers that have appended an event
-- and not yet signalled.
pub record Loop (A : Type 0) : Type 0 where
  pub box : DequeMailbox A
  pub waiting : Bool
  pub pending : ℕ

module _ {A : Type 0} where
  pub data Step (l : Loop A) : Loop A → Type 0 where
    enqueued :
        {box : DequeMailbox A} {dropped : Option A} (ev : A)
        → enqueue_locked ev l.box ≡ some (box, dropped)
        → Step l (record l { box = box; pending = l.pending + 1 })
    signalled : (n : ℕ) → l.pending ≡ suc n → Step l (record l { box = notify l.box; pending = n })
    took :
        {box : DequeMailbox A} {ev : A}
        → l.waiting ≡ false
        → next_locked l.box ≡ some (ev, box)
        → Step l (record l { box = box })
    found_empty :
        l.waiting ≡ false → next_locked l.box ≡ none → Step l (record l { waiting = true })
    woken :
        l.waiting ≡ true
        → l.box.signal ≡ true
        → Step l (record l { box = record l.box { signal = false }; waiting = false })

  pub data Reach (l : Loop A) : Loop A → Type 0 where
    here : Reach l l
    next : {m n : Loop A} → Reach l m → Step m n → Reach l n

  -- The loop runs, or has nothing to do, or will be woken.
  abbrev pub Awake : Loop A → Type 0
  Awake l = (l.waiting ≡ false) ⊎ (l.box.queue ≡ []) ⊎ (l.box.signal ≡ true) ⊎ (0 < l.pending)

  next_locked-empty : (d : DequeMailbox A) → next_locked d ≡ none → d.queue ≡ []
  next_locked-empty d h = elim (next_locked-cases d) [
    | inl (empty, _) ↦ empty
    | inr (ev, rest, _, e) ↦ absurd (cc (h, e))
  ]

  Step-Awake : {l m : Loop A} → Awake l → Step l m → Awake m
  unfolding notify
  Step-Awake a (enqueued ev e) = inr (inr (inr (omega arith)))
  Step-Awake a (signalled n e) = inr (inr (inl refl))
  Step-Awake a (took idle e) = inl idle
  Step-Awake {l} a (found_empty idle e) = inr (inl (next_locked-empty l.box e))
  Step-Awake a (woken w e) = inl refl

  Reach-Awake : {l m : Loop A} → Awake l → Reach l m → Awake m
  Reach-Awake a here = a
  Reach-Awake a (next r s) = Step-Awake (Reach-Awake a r) s

  -- No wakeup is lost: in every interleaving from a state in which the loop runs, whenever the loop
  -- waits although an event is queued, its signal is set, or a producer is about to set it.
  pub no_lost_wakeup :
      {l m : Loop A}
      → l.waiting ≡ false
      → Reach l m
      → m.waiting ≡ true
      → m.box.queue ≢ []
      → (m.box.signal ≡ true) ⊎ (0 < m.pending)
  no_lost_wakeup {l} {m} runs r waits queued = elim (Reach-Awake {l = l} (inl runs) r) [
    | inl idle ↦ absurd (cc (idle, waits))
    | inr (inl empty) ↦ absurd (queued empty)
    | inr (inr woken_later) ↦ woken_later
  ]
