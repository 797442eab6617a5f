-- ===== src/Runtime/Mailbox/Fair.antt =====
-- Histories of operations on the deque mailbox of pkg/protorun/mailbox.go, with its events counted.
use protorun.Prelude.{
  subst, ℕ, ◌+◌, ◌≤◌, ◌<◌, ◌≡◌, refl, ap, ◌∙◌, sym, List, [], ◌∷◌, ◌++◌, append_assoc, Option, none,
  some, ◌⊎◌, inl, inr, arith, length, length-append, subst,
}
use protorun.Runtime.Mailbox.{
  OverflowPolicy, block, drop_oldest, drop_newest, unbounded, DequeMailbox, enqueue_as,
  enqueue_locked, append_event, next_locked, notify,
}
use protorun.Runtime.Mailbox.Order.{
  Sublist, done, Sublist-snoc, Sublist-skip_last, Sublist-trans, Sublist-middle, Fits,
  enqueue_as-cases, next_locked-cases,
}
use protorun.Runtime.Mailbox.{
  MailboxConfig, Mailbox, deque, blocking, new_mailbox, mailbox_of, normal_capacity,
}

-- The mailbox with what was pushed, what the event loop took, and how many events were dropped.
pub record History (A : Type 0) : Type 0 where
  pub box : DequeMailbox A
  pub pushed : List A
  pub taken : List A
  pub dropped : ℕ

pub data Op (A : Type 0) : Type 0 where
  push : A → Op A
  take_one : Op A

module _ {A : Type 0} where
  abbrev counted : Option A → ℕ
  counted none = 0
  counted (some a) = 1

  -- `push` and the successful round of `next`, with the books kept; none after a panic.
  unfoldable pub perform : Op A → History A → Option (History A)
  perform (push ev) h = elim (enqueue_locked ev h.box) [
    | none ↦ none
    | some (box, out) ↦ some (record {
      box = notify box;
      pushed = h.pushed ++ ev ∷ [];
      taken = h.taken;
      dropped = h.dropped + counted out;
    })
  ]
  perform take_one h = elim (next_locked h.box) [
    | none ↦ some h
    | some (ev, box) ↦ some (record h { box = box; taken = h.taken ++ ev ∷ [] })
  ]

  -- The events taken, with those still queued, are the events pushed, in the order of arrival, less
  -- the dropped ones, all of which are counted; and the queue keeps the bound of its policy.
  pub record IsFair (h : History A) : Type 0 where
    pub room : 1 ≤ h.box.cap
    pub in_order : Sublist (h.taken ++ h.box.queue) h.pushed
    pub all_counted : length h.pushed ≡ length h.taken + length h.box.queue + h.dropped
    pub bounded : Fits h.box

  -- The books after an enqueue.
  abbrev after_push : A → DequeMailbox A → ℕ → History A → History A
  after_push ev box lost h = record {
    box = notify box;
    pushed = h.pushed ++ ev ∷ [];
    taken = h.taken;
    dropped = h.dropped + lost;
  }

  push-eq :
      (ev : A) (h : History A) (box : DequeMailbox A) (out : Option A)
      → enqueue_as h.box.pol ev h.box ≡ some (box, out)
      → perform (push ev) h ≡ some (after_push ev box (counted out) h)
  unfolding perform enqueue_locked
  push-eq ev h box out e = rw (perform, e) refl

  append-IsFair :
      (ev : A) (h : History A)
      → IsFair h
      → (h.box.pol ≡ unbounded) ⊎ (h.box.pol ≡ block) ⊎ (length h.box.queue < h.box.cap)
      → IsFair (after_push ev (append_event ev h.box) 0 h)
  unfolding notify
  append-IsFair ev h f roomy = record {
    room = f.room;
    in_order =
        subst (λ x. Sublist x (h.pushed ++ ev ∷ [])) (append_assoc h.taken h.box.queue (ev ∷ []))
          (Sublist-snoc ev f.in_order);
    all_counted = omega (
      arith,
      f.all_counted,
      length-append h.pushed (ev ∷ []),
      length-append h.box.queue (ev ∷ []),
    );
    bounded = ground (arith, length-append h.box.queue (ev ∷ []));
  }

  reject-IsFair : (ev : A) (h : History A) → IsFair h → IsFair (after_push ev h.box 1 h)
  unfolding notify
  reject-IsFair ev h f = record {
    room = f.room;
    in_order = Sublist-skip_last ev f.in_order;
    all_counted = omega (arith, f.all_counted, length-append h.pushed (ev ∷ []));
    bounded = f.bounded;
  }

  evict-IsFair :
      (ev old : A) (rest : List A) (h : History A)
      → IsFair h
      → h.box.queue ≡ old ∷ rest
      → IsFair (after_push ev (append_event ev (record h.box { queue = rest })) 1 h)
  unfolding notify
  evict-IsFair ev old rest h f q =
      let kept : Sublist (h.taken ++ rest) h.pushed =
        Sublist-trans f.in_order (rw q (Sublist-middle h.taken old rest)) in
      record {
        room = f.room;
        in_order =
            subst (λ x. Sublist x (h.pushed ++ ev ∷ [])) (append_assoc h.taken rest (ev ∷ []))
              (Sublist-snoc ev kept);
        all_counted = omega (
          arith,
          f.all_counted,
          ap length q,
          length-append h.pushed (ev ∷ []),
          length-append rest (ev ∷ []),
        );
        bounded = ground (arith, f.bounded, ap length q, length-append rest (ev ∷ []));
      }

  push-IsFair :
      (ev : A) (h : History A)
      → IsFair h
      → (g : History A) × (perform (push ev) h ≡ some g) × IsFair g
  push-IsFair ev h f = elim (enqueue_as-cases h.box.pol ev h.box f.room) [
    | inl (e, roomy) ↦ (_, push-eq ev h _ none e, append-IsFair ev h f roomy)
    | inr (inl e) ↦ (_, push-eq ev h _ (some ev) e, reject-IsFair ev h f)
    | inr (inr (old, rest, q, e)) ↦ (_, push-eq ev h _ (some old) e, evict-IsFair ev old rest h f q)
  ]

  take_one-IsFair :
      (h : History A) → IsFair h → (g : History A) × (perform take_one h ≡ some g) × IsFair g
  unfolding perform
  take_one-IsFair h f = elim (next_locked-cases h.box) [
    | inl (_, e) ↦ (h, rw (perform, e) refl, f)
    | inr (ev, rest, q, e) ↦ (
      record h { box = record h.box { queue = rest }; taken = h.taken ++ ev ∷ [] },
      rw (perform, e) refl,
      record {
        room = f.room;
        in_order =
            subst (λ x. Sublist x h.pushed)
              (ap (λ x. h.taken ++ x) q ∙ sym (append_assoc h.taken (ev ∷ []) rest)) f.in_order;
        all_counted = omega (arith, f.all_counted, ap length q, length-append h.taken (ev ∷ []));
        bounded = ground (arith, f.bounded, ap length q);
      },
    )
  ]

  -- The operations in turn, as long as none panics.
  unfoldable pub perform_all : List (Op A) → History A → Option (History A)
  perform_all [] h = some h
  perform_all (op ∷ ops) h = elim (perform op h) [ none ↦ none | some g ↦ perform_all ops g ]

  perform-IsFair :
      (op : Op A) (h : History A) → IsFair h → (g : History A) × (perform op h ≡ some g) × IsFair g
  perform-IsFair (push ev) h f = push-IsFair ev h f
  perform-IsFair take_one h f = take_one-IsFair h f

  perform_all-IsFair :
      (ops : List (Op A)) (h : History A)
      → IsFair h
      → (g : History A) × (perform_all ops h ≡ some g) × IsFair g
  unfolding perform_all
  perform_all-IsFair [] h f = (h, refl, f)
  perform_all-IsFair (op ∷ ops) h f =
      let (g, e, fair) = perform-IsFair op h f in
      let (k, e', fair') = perform_all-IsFair ops g fair in (k, rw (perform_all, e) e', fair')

  abbrev bound_of : Mailbox A → ℕ
  bound_of (blocking b) = b.cap
  bound_of (deque d) = d.cap

  abbrev held : Mailbox A → List A
  held (blocking b) = b.ch
  held (deque d) = d.queue

  mailbox_of-fields :
      (p : OverflowPolicy) (c : ℕ) → (bound_of (mailbox_of p c) ≡ c) × (held (mailbox_of p c) ≡ [])
  unfolding mailbox_of
  mailbox_of-fields block c = (refl, refl)
  mailbox_of-fields drop_oldest c = (refl, refl)
  mailbox_of-fields drop_newest c = (refl, refl)
  mailbox_of-fields unbounded c = (refl, refl)

  abbrev pub opened : DequeMailbox A → History A
  opened d = record { box = d; pushed = []; taken = []; dropped = 0 }

  -- Whatever its configuration, a new deque mailbox never panics, delivers in the order of arrival,
  -- counts each event that it drops, and keeps the bound of its policy, over any operations.
  pub new_mailbox-IsFair :
      (m : MailboxConfig) (d : DequeMailbox A) (ops : List (Op A))
      → new_mailbox m ≡ deque d
      → (g : History A) × (perform_all ops (opened d) ≡ some g) × IsFair g
  unfolding new_mailbox normal_capacity
  new_mailbox-IsFair m d ops h =
      let fields = mailbox_of-fields m.overflow (normal_capacity m.capacity) in
      let c = sym (ap bound_of h) ∙ fields.0 in
      let q = sym (ap held h) ∙ fields.1 in
      perform_all-IsFair ops (opened d) (record {
        room = ground arith;
        in_order = rw q done;
        all_counted = ground arith;
        bounded = ground arith;
      })
