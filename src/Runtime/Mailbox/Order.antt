-- ===== src/Runtime/Mailbox/Order.antt =====
-- What one operation of the deque mailbox does to its queue.
use protorun.Prelude.{
  Bool-cases, ◌≤◌, ◌<◌, ◌≡◌, refl, List, [], ◌∷◌, ◌++◌, none, some, ◌⊎◌, inl, inr, arith, length,
  leb,
}
use protorun.Runtime.Mailbox.{
  OverflowPolicy, block, drop_oldest, drop_newest, unbounded, DequeMailbox, pop_front, enqueue_as,
  append_event, next_locked,
}

-- `xs` comes from `ys` by leaving elements out.
pub data Sublist {A : Type 0} : List A → List A → Type 0 where
  done : Sublist [] []
  keep : {x : A} {xs ys : List A} → Sublist xs ys → Sublist (x ∷ xs) (x ∷ ys)
  skip : {y : A} {xs ys : List A} → Sublist xs ys → Sublist xs (y ∷ ys)

module _ {A : Type 0} where
  pub Sublist-snoc :
      {xs ys : List A} (a : A) → Sublist xs ys → Sublist (xs ++ a ∷ []) (ys ++ a ∷ [])
  Sublist-snoc a done = keep done
  Sublist-snoc a (keep s) = keep (Sublist-snoc a s)
  Sublist-snoc a (skip s) = skip (Sublist-snoc a s)

  pub Sublist-skip_last : {xs ys : List A} (a : A) → Sublist xs ys → Sublist xs (ys ++ a ∷ [])
  Sublist-skip_last a done = skip done
  Sublist-skip_last a (keep s) = keep (Sublist-skip_last a s)
  Sublist-skip_last a (skip s) = skip (Sublist-skip_last a s)

  pub Sublist-refl : (xs : List A) → Sublist xs xs
  Sublist-refl [] = done
  Sublist-refl (x ∷ xs) = keep (Sublist-refl xs)

  pub Sublist-trans :
      {ys zs : List A} → Sublist ys zs → {xs : List A} → Sublist xs ys → Sublist xs zs
  Sublist-trans done s = s
  Sublist-trans (keep t) (keep s) = keep (Sublist-trans t s)
  Sublist-trans (keep t) (skip s) = skip (Sublist-trans t s)
  Sublist-trans (skip t) s = skip (Sublist-trans t s)

  -- Leaving out one element in the middle.
  pub Sublist-middle : (xs : List A) (x : A) (zs : List A) → Sublist (xs ++ zs) (xs ++ x ∷ zs)
  Sublist-middle [] x zs = skip (Sublist-refl zs)
  Sublist-middle (w ∷ xs) x zs = keep (Sublist-middle xs x zs)

  -- Whether the policy bounds the queue, and it does.
  abbrev pub Fits : DequeMailbox A → Type 0
  Fits d = (d.pol ≡ unbounded) ⊎ (d.pol ≡ block) ⊎ (length d.queue ≤ d.cap)

  -- The three things that an enqueue does: append, reject the event, or evict the oldest.
  abbrev Enqueued : OverflowPolicy → A → DequeMailbox A → Type 0
  Enqueued p ev d =
      ((enqueue_as p ev d ≡ some (append_event ev d, none))
        × ((p ≡ unbounded) ⊎ (p ≡ block) ⊎ (length d.queue < d.cap)))
      ⊎ (enqueue_as p ev d ≡ some (d, some ev))
      ⊎ ((old : A) × (rest : List A) × (d.queue ≡ old ∷ rest)
          × (enqueue_as p ev d ≡ some (append_event ev (record d { queue = rest }), some old)))

  list-cases : (q : List A) → (q ≡ []) ⊎ ((x : A) × (xs : List A) × (q ≡ x ∷ xs))
  list-cases [] = inl refl
  list-cases (x ∷ xs) = inr (x, xs, refl)

  pub next_locked-cases :
      (d : DequeMailbox A)
      → ((d.queue ≡ []) × (next_locked d ≡ none))
        ⊎ ((ev : A) × (rest : List A) × (d.queue ≡ ev ∷ rest)
            × (next_locked d ≡ some (ev, record d { queue = rest })))
  unfolding next_locked pop_front
  next_locked-cases d = elim (list-cases d.queue) [
    | inl empty ↦ inl (empty, rw empty refl)
    | inr (ev, rest, q) ↦ inr (ev, rest, q, rw q refl)
  ]

  front : (q : List A) → 1 ≤ length q → (x : A) × (xs : List A) × (q ≡ x ∷ xs)
  front [] h = absurd (omega arith)
  front (x ∷ xs) h = (x, xs, refl)

  pub enqueue_as-cases :
      (p : OverflowPolicy) (ev : A) (d : DequeMailbox A) → 1 ≤ d.cap → Enqueued p ev d
  unfolding enqueue_as pop_front
  enqueue_as-cases unbounded ev d pos = inl (refl, inl refl)
  enqueue_as-cases block ev d pos = inl (refl, inr (inl refl))
  enqueue_as-cases drop_newest ev d pos = elim (Bool-cases (leb d.cap (length d.queue))) [
    | inl full ↦ inr (inl (rw full refl))
    | inr room ↦ inl (rw room refl, inr (inr (ground arith)))
  ]
  enqueue_as-cases drop_oldest ev d pos = elim (Bool-cases (leb d.cap (length d.queue))) [
    | inl full ↦
        let (old, rest, e) = front d.queue (ground arith) in
        inr (inr (old, rest, e, rw (full, e) refl))
    | inr room ↦ inl (rw room refl, inr (inr (ground arith)))
  ]
