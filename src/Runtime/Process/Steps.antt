-- ===== src/Runtime/Process/Steps.antt =====
-- The event loop of pkg/protorun/protocol.go and the restart of supervisor.go, as inputs of a process.
use protorun.Prelude.{
  ℕ, ◌-◌, Bool, true, false, not, ◌&&◌, List, [], ◌∷◌, Option, none, some, length, if◌then◌else◌,
  Map, nat_eq,
}
use protorun.Runtime.Mailbox.{Mailbox, blocking, deque, new_mailbox, drain}
use protorun.Runtime.Process.{
  Outcome, Event, PendingRequest, Effect, Process, note, enqueue, register_handler, send_request,
  deliver_reply_to, track_timer, cancel_timer, cancel_all_timers, fire_once, fire_again, dispatch,
  next,
}

-- One round of `eventHandler`, from the event on.
unfoldable pub run_event : (panics : Bool) → Option (Event × Mailbox Event) → Process → Process
unfolding dispatch
run_event panics none p = p
run_event panics (some (ev, mailbox)) p =
    let q : Process = dispatch panics ev (record p { mailbox = mailbox }) in
    record q { in_flight = q.in_flight - 1; looping = q.looping && not q.exit_loop }

unfoldable pub dispatch_next : (panics : Bool) → Process → Process
unfolding run_event next
dispatch_next panics p = if p.looping then run_event panics (next p.mailbox) p else p

unfoldable pub drain_all : Mailbox Event → List Event × Mailbox Event
drain_all (blocking b) = (b.ch, blocking (record b { ch = [] }))
drain_all (deque d) = let (events, d') = drain d in (events, deque d')

unfoldable pub dead_letters : List Event → List Effect → List Effect
dead_letters [] trace = trace
dead_letters (ev ∷ events) trace = dead_letters events (Effect.dead_letter ev ∷ trace)

unfoldable pub drain_mailbox_to_dead_letter : Process → Process
unfolding drain_all dead_letters
drain_mailbox_to_dead_letter p =
    let (events, mailbox) = drain_all p.mailbox in
    record p {
      mailbox = mailbox;
      in_flight = p.in_flight - length events;
      trace = dead_letters events p.trace;
    }

-- The callbacks are called at once, on the goroutine of the supervisor.
unfoldable pub call_all : Map ℕ PendingRequest → List Effect → List Effect
call_all [] trace = trace
call_all ((id, entry) ∷ pending) trace =
    call_all pending (Effect.calls id Outcome.protocol_restarting ∷ trace)

unfoldable pub fail_pending_restarting : Process → Process
unfolding call_all
fail_pending_restarting p = record p { pending = []; trace = call_all p.pending p.trace }

-- The part of `quarantineAndClean` that is the process's; `stopLoop` waits for the loop.
unfoldable pub quarantine_and_clean : Process → Process
unfolding drain_mailbox_to_dead_letter cancel_all_timers fail_pending_restarting
quarantine_and_clean p = fail_pending_restarting (
    cancel_all_timers
      (drain_mailbox_to_dead_letter (record p { quarantined = true; looping = false })))

unfoldable pub reset_for_restart : Process → Process
reset_for_restart p = record p {
  mailbox = new_mailbox p.mailbox_cfg;
  handlers = [];
  pending = [];
  timers = [];
  exit_loop = false;
}

-- `rebuild` lifts the quarantine and starts a loop if `Start` did not panic.
unfoldable pub start_loop : Process → Process
start_loop p = record p { quarantined = false; looping = true }

-- `Start` or `Init` of a supervised protocol panics at boot.
unfoldable pub boot_panics : Process → Process
boot_panics p =
    if p.supervised
    then note Effect.signals_panic (record p { quarantined = true; exit_loop = true })
    else p

-- What can happen to a process: an event comes from outside, the protocol registers a handler, sends a
-- request, or arms or cancels a timer, a reply or a timeout comes for a request, the clock fires a
-- timer, the loop takes an event, or the supervisor cleans, resets or starts it.
pub data Input : Type 0 where
  arrives : Event → Input
  registers : (wire_id : ℕ) → Input
  sends : (wire_id : ℕ) → (routed : Bool) → (now timeout : ℕ) → Input
  answers : (request_id : ℕ) → Outcome → Input
  arms : (id : ℕ) → Input
  cancels : (id : ℕ) → Input
  fires : (id : ℕ) → (periodic : Bool) → Input
  turns : (panics : Bool) → Input
  cleans : Input
  resets : Input
  starts : Input
  boot_fails : Input

unfoldable pub step : Process → Input → Process
unfolding enqueue register_handler send_request deliver_reply_to track_timer cancel_timer fire_once
    fire_again dispatch_next quarantine_and_clean reset_for_restart start_loop boot_panics
step p (Input.arrives ev) = enqueue ev p
step p (Input.registers wire_id) = register_handler wire_id p
step p (Input.sends wire_id routed now timeout) = send_request wire_id routed now timeout p
step p (Input.answers id outcome) = deliver_reply_to id outcome p
step p (Input.arms id) = track_timer id p
step p (Input.cancels id) = cancel_timer id p
step p (Input.fires id periodic) = if periodic then fire_again id p else fire_once id p
step p (Input.turns panics) = dispatch_next panics p
step p Input.cleans = quarantine_and_clean p
step p Input.resets = reset_for_restart p
step p Input.starts = start_loop p
step p Input.boot_fails = boot_panics p

unfoldable pub run : List Input → Process → Process
run [] p = p
run (i ∷ inputs) p = run inputs (step p i)
