-- ===== src/Runtime/Mailbox.antt =====
-- pkg/protorun/mailbox.go: a protocol's ordered event queue, with its overflow policies. Events are
-- of any type `A`. Where Go would panic or block, an operation returns none.
pub mod Order
pub mod Fair
pub mod Wakeup
mod Tests
use protorun.Prelude.{
  ℕ, zero, suc, ◌+◌, Bool, true, false, List, [], ◌∷◌, ◌++◌, Option, none, some, length, ltb, leb,
  if◌then◌else◌,
}

pub data OverflowPolicy : Type 0 where
  block drop_oldest drop_newest unbounded : OverflowPolicy

-- `capacity` is 0 for a negative one too, which the code treats alike.
pub record MailboxConfig : Type 0 where
  pub capacity : ℕ
  pub overflow : OverflowPolicy

abbrev pub default_mailbox_capacity : ℕ
default_mailbox_capacity = 1024

-- `blockingMailbox`: the buffered channel as the list of what it holds.
pub record BlockingMailbox (A : Type 0) : Type 0 where
  pub ch : List A
  pub cap : ℕ

-- `dequeMailbox`: `signal` says whether the channel of one slot is full.
pub record DequeMailbox (A : Type 0) : Type 0 where
  pub pol : OverflowPolicy
  pub cap : ℕ
  pub queue : List A
  pub signal : Bool

pub data Mailbox (A : Type 0) : Type 0 where
  blocking : BlockingMailbox A → Mailbox A
  deque : DequeMailbox A → Mailbox A

unfoldable pub normal_capacity : ℕ → ℕ
normal_capacity c = if leb c 0 then default_mailbox_capacity else c

-- The two implementations.
unfoldable pub mailbox_of : {A : Type 0} → OverflowPolicy → ℕ → Mailbox A
mailbox_of block capacity = blocking (record { ch = []; cap = capacity })
mailbox_of policy capacity =
    deque (record { pol = policy; cap = capacity; queue = []; signal = false })

unfoldable pub new_mailbox : {A : Type 0} → MailboxConfig → Mailbox A
unfolding normal_capacity mailbox_of
new_mailbox m = mailbox_of m.overflow (normal_capacity m.capacity)

module _ {A : Type 0} where
  -- The queue without its head, `queue[1:]`, with the head; none where `queue[0]` would panic.
  unfoldable pub pop_front : List A → Option (A × List A)
  pop_front [] = none
  pop_front (x ∷ xs) = some (x, xs)

  abbrev pub append_event : A → DequeMailbox A → DequeMailbox A
  append_event ev d = record d { queue = d.queue ++ ev ∷ [] }

  -- The switch of `enqueueLocked`: the next state, with the event evicted or rejected, if any.
  unfoldable pub enqueue_as :
      OverflowPolicy → A → DequeMailbox A → Option (DequeMailbox A × Option A)
  unfolding pop_front
  enqueue_as unbounded ev d = some (append_event ev d, none)
  enqueue_as drop_newest ev d =
      if leb d.cap (length d.queue) then some (d, some ev) else some (append_event ev d, none)
  enqueue_as drop_oldest ev d =
      if leb d.cap (length d.queue)
      then elim (pop_front d.queue) [
        | none ↦ none
        | some (old, rest) ↦ some (append_event ev (record d { queue = rest }), some old)
      ]
      else some (append_event ev d, none)
  enqueue_as block ev d = some (append_event ev d, none)

  unfoldable pub enqueue_locked : A → DequeMailbox A → Option (DequeMailbox A × Option A)
  enqueue_locked ev d = enqueue_as d.pol ev d

  -- The non-blocking send on the channel of one slot.
  unfoldable pub notify : DequeMailbox A → DequeMailbox A
  notify d = record d { signal = true }

  -- One round of the loop in `next`, under the lock: the event, or none if the queue is empty.
  unfoldable pub next_locked : DequeMailbox A → Option (A × DequeMailbox A)
  unfolding pop_front
  next_locked d = elim (pop_front d.queue) [
    | none ↦ none
    | some (ev, rest) ↦ some (ev, record d { queue = rest })
  ]

  unfoldable pub drain : DequeMailbox A → List A × DequeMailbox A
  drain d = (d.queue, record d { queue = [] })

  unfoldable pub depth : DequeMailbox A → ℕ
  depth d = length d.queue

  unfoldable pub capacity : DequeMailbox A → ℕ
  capacity d = elim d.pol [
    | unbounded ↦ 0
    | block ↦ d.cap
    | drop_oldest ↦ d.cap
    | drop_newest ↦ d.cap
  ]

  -- The send of `blockingMailbox.push`: none while the channel is full, where the producer waits.
  unfoldable pub blocking_push : A → BlockingMailbox A → Option (BlockingMailbox A)
  blocking_push ev b =
      if ltb (length b.ch) b.cap then some (record b { ch = b.ch ++ ev ∷ [] }) else none

  unfoldable pub blocking_next : BlockingMailbox A → Option (A × BlockingMailbox A)
  unfolding pop_front
  blocking_next b = elim (pop_front b.ch) [
    | none ↦ none
    | some (ev, rest) ↦ some (ev, record b { ch = rest })
  ]
