-- ===== src/Runtime/Mailbox/Tests.antt =====
-- The theorems on the mailbox at concrete inputs.
use protorun.Prelude.{ℕ, ◌<◌, ◌≡◌, refl, true, false, List, [], ◌∷◌, none, some, ◌⊎◌}
use protorun.Runtime.Mailbox.{
  drop_oldest, MailboxConfig, DequeMailbox, enqueue_locked, enqueue_as, next_locked, notify,
  pop_front,
}
use protorun.Runtime.Mailbox.Fair.{History, Op, push, take_one, opened, perform, perform_all}
use protorun.Runtime.Mailbox.Wakeup.{Loop, enqueued, found_empty, Reach, here, next, no_lost_wakeup}

abbrev small : MailboxConfig
small = record { capacity = 1; overflow = drop_oldest }

abbrev fresh : DequeMailbox ℕ
fresh = record { pol = drop_oldest; cap = 1; queue = []; signal = false }

abbrev busy : List (Op ℕ)
busy = push 5 ∷ push 6 ∷ take_one ∷ push 7 ∷ take_one ∷ take_one ∷ []

-- The oldest of the three events is dropped.
evict_test :
    (g : History ℕ) × (perform_all busy (opened fresh) ≡ some g)
    × (g.taken ≡ 6 ∷ 7 ∷ [])
    × (g.dropped ≡ 1)
unfolding perform_all perform enqueue_locked enqueue_as next_locked pop_front notify
evict_test = (_, refl, refl, refl)

abbrev running : Loop ℕ
running = record { box = fresh; waiting = false; pending = 0 }

-- The loop finds nothing and waits; a producer has appended an event and not yet signalled.
abbrev woken_soon : Loop ℕ
woken_soon = record {
  box = record { pol = drop_oldest; cap = 1; queue = 5 ∷ []; signal = false };
  waiting = true;
  pending = 1;
}

Reach-woken_soon : Reach running woken_soon
unfolding enqueue_locked enqueue_as next_locked pop_front notify
Reach-woken_soon = next (next here (found_empty refl refl)) (enqueued {dropped = none} 5 refl)

no_lost_wakeup_example : (woken_soon.box.signal ≡ true) ⊎ (0 < woken_soon.pending)
no_lost_wakeup_example = no_lost_wakeup refl Reach-woken_soon refl (λ e. cc e)
