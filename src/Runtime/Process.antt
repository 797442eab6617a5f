-- ===== src/Runtime/Process.antt =====
-- One hosted protocol of pkg/protorun: its event loop and mailbox (protocol.go), its timers (timer.go),
-- its outstanding requests (ipc.go, runtime.go) and the clean-up of an instance (supervisor.go).
-- Handlers are named by what calls them, and the newest effect stands first. A producer that a full
-- mailbox blocks makes its input later; the runtime is not shut down.
pub mod Steps
pub mod Balance
pub mod Requests
pub mod Timers
use protorun.Prelude.{
  ℕ, ◌+◌, ◌-◌, ◌%◌, ◌^◌, Bool, true, false, not, ◌&&◌, ◌||◌, List, [], ◌∷◌, ◌++◌, Option, none,
  some, length, ◌==◌, if◌then◌else◌, Map, nat_eq, lookup, insert, delete,
}
use protorun.Transport.Host.{Host}
use protorun.Runtime.Mailbox.{
  Mailbox, blocking, deque, MailboxConfig, new_mailbox, enqueue_locked, notify, next_locked, drain,
  blocking_push, blocking_next,
}

-- What the callback of a request is given: the reply, or the error.
pub data Outcome : Type 0 where
  replied responder_failed no_request_handler request_timeout protocol_restarting : Outcome

pub data SessionKind : Type 0 where
  connected disconnected given_up failed : SessionKind

pub data Event : Type 0 where
  message : (wire_id : ℕ) → (from : Host) → Event
  timer : (id : ℕ) → Event
  session : SessionKind → Host → Event
  request : (wire_id : ℕ) → (request_id : ℕ) → Event
  reply : (request_id : ℕ) → Outcome → Event
  notification : (fn : ℕ) → Event
  callback : Event

pub record PendingRequest : Type 0 where
  pub deadline : ℕ
  pub started_at : ℕ
  pub wire_id : ℕ

-- A handler that ran for an event, the callback of a request, an event that is lost, a reply that
-- nobody waits for, and a panic handed to the supervisor.
pub data Effect : Type 0 where
  handles : Event → Effect
  calls : (request_id : ℕ) → Outcome → Effect
  dead_letter : Event → Effect
  drops_late : (request_id : ℕ) → Effect
  signals_panic : Effect

-- `handlers` are the wire ids that have one, `cancelled` the timers that are, `looping` says whether an
-- event loop runs.
pub record Process : Type 0 where
  pub supervised : Bool
  pub quarantined : Bool
  pub exit_loop : Bool
  pub looping : Bool
  pub in_flight : ℕ
  pub mailbox_cfg : MailboxConfig
  pub mailbox : Mailbox Event
  pub handlers : List ℕ
  pub timers : List ℕ
  pub cancelled : List ℕ
  pub pending : Map ℕ PendingRequest
  pub next_request_id : ℕ
  pub trace : List Effect

unfoldable pub new_proto_protocol : Bool → MailboxConfig → Process
new_proto_protocol supervised m = record {
  supervised = supervised;
  quarantined = false;
  exit_loop = false;
  looping = false;
  in_flight = 0;
  mailbox_cfg = m;
  mailbox = new_mailbox m;
  handlers = [];
  timers = [];
  cancelled = [];
  pending = [];
  next_request_id = 0;
  trace = [];
}

abbrev pub note : Effect → Process → Process
note e p = record p { trace = e ∷ p.trace }

unfoldable pub has : ℕ → List ℕ → Bool
has x [] = false
has x (y ∷ ys) = x == y || has x ys

unfoldable pub without : ℕ → List ℕ → List ℕ
without x [] = []
without x (y ∷ ys) = let rest = without x ys in if x == y then rest else y ∷ rest

-- `mailbox.push`: none while it waits, else the mailbox and the event that was dropped, if any.
unfoldable pub push : Event → Mailbox Event → Option (Mailbox Event × Option Event)
push ev (blocking b) = elim (blocking_push ev b) [
  | none ↦ none
  | some b' ↦ some (blocking b', none)
]
push ev (deque d) = elim (enqueue_locked ev d) [
  | none ↦ none
  | some (d', dropped) ↦ some (deque (notify d'), dropped)
]

unfoldable pub take_pushed : Option (Mailbox Event × Option Event) → Process → Process
take_pushed none p = p
take_pushed (some (mailbox, none)) p = record p { mailbox = mailbox; in_flight = p.in_flight + 1 }
take_pushed (some (mailbox, some dropped)) p =
    note (Effect.dead_letter dropped)
      (record p { mailbox = mailbox; in_flight = p.in_flight + 1 - 1 })

unfoldable pub enqueue : Event → Process → Process
unfolding push take_pushed
enqueue ev p =
    if p.supervised && p.quarantined
    then note (Effect.dead_letter ev) p
    else take_pushed (push ev p.mailbox) p

-- `registerHandler`: the last one stands.
unfoldable pub register_handler : ℕ → Process → Process
unfolding has
register_handler wire_id p = record p {
  handlers = if has wire_id p.handlers then p.handlers else wire_id ∷ p.handlers;
}

-- `sendRequest` of the runtime, with whether the router has a route. The request itself is an event of
-- the process that handles it.
unfoldable pub send_request : ℕ → (routed : Bool) → (now timeout : ℕ) → Process → Process
unfolding enqueue
send_request wire_id routed now timeout p =
    let id = (p.next_request_id + 1) % 2 ^ 64 in
    let entry : PendingRequest = record {
      deadline = now + timeout;
      started_at = now;
      wire_id = wire_id;
    } in
    let p₁ : Process = record p { next_request_id = id; pending = insert id entry p.pending } in
    if routed then p₁ else enqueue (Event.reply id Outcome.no_request_handler) p₁

-- `deliverReply` of the runtime, from a responder or from the timeout.
unfoldable pub deliver_reply_to : ℕ → Outcome → Process → Process
unfolding enqueue
deliver_reply_to id outcome p = enqueue (Event.reply id outcome) p

-- `Reply` or `Fail` of a responder, with its `done`.
unfoldable pub respond : (done : Bool) → ℕ → (fails : Bool) → Process → Bool × Process
unfolding deliver_reply_to
respond true id fails p = (true, p)
respond false id fails p =
    (true, deliver_reply_to id (if fails then Outcome.responder_failed else Outcome.replied) p)

unfoldable pub track_timer : ℕ → Process → Process
track_timer id p = record p { timers = id ∷ p.timers }

unfoldable pub forget_timer : ℕ → Process → Process
unfolding without
forget_timer id p = record p { timers = without id p.timers }

unfoldable pub cancel_timer : ℕ → Process → Process
unfolding has forget_timer
cancel_timer id p =
    if has id p.cancelled then p else forget_timer id (record p { cancelled = id ∷ p.cancelled })

unfoldable pub cancel_timers : List ℕ → Process → Process
unfolding cancel_timer
cancel_timers [] p = p
cancel_timers (id ∷ ids) p = cancel_timers ids (cancel_timer id p)

unfoldable pub cancel_all_timers : Process → Process
unfolding cancel_timers
cancel_all_timers p = cancel_timers p.timers p

-- The function that `after` gives to the clock, and `arm` of `every`, which does not forget the timer.
unfoldable pub fire_once : ℕ → Process → Process
unfolding forget_timer has enqueue
fire_once id p =
    let p₁ : Process = forget_timer id p in
    if has id p₁.cancelled then p₁ else enqueue (Event.timer id) p₁

unfoldable pub fire_again : ℕ → Process → Process
unfolding has enqueue
fire_again id p = if has id p.cancelled then p else enqueue (Event.timer id) p

-- `handPanicToSupervisor`, if the handler panicked.
unfoldable pub safe_call : (panics : Bool) → Process → Process
safe_call panics p =
    if panics && p.supervised then note Effect.signals_panic (record p { exit_loop = true }) else p

unfoldable pub claim : (panics : Bool) → ℕ → Outcome → Option PendingRequest → Process → Process
unfolding safe_call
claim panics id outcome none p = note (Effect.drops_late id) p
claim panics id outcome (some entry) p =
    safe_call panics (note (Effect.calls id outcome) (record p { pending = delete id p.pending }))

unfoldable pub deliver_reply : (panics : Bool) → ℕ → Outcome → Process → Process
unfolding claim
deliver_reply panics id outcome p = claim panics id outcome (lookup id p.pending) p

unfoldable pub dispatch : (panics : Bool) → Event → Process → Process
unfolding safe_call deliver_reply has
dispatch panics (Event.message wire_id from) p =
    if has wire_id p.handlers
    then safe_call panics (note (Effect.handles (Event.message wire_id from)) p)
    else p
dispatch panics (Event.timer id) p =
    if has id p.cancelled then p else safe_call panics (note (Effect.handles (Event.timer id)) p)
dispatch panics (Event.reply id outcome) p = deliver_reply panics id outcome p
dispatch panics ev p = safe_call panics (note (Effect.handles ev) p)

unfoldable pub next : Mailbox Event → Option (Event × Mailbox Event)
next (blocking b) = elim (blocking_next b) [ none ↦ none | some (ev, b') ↦ some (ev, blocking b') ]
next (deque d) = elim (next_locked d) [ none ↦ none | some (ev, d') ↦ some (ev, deque d') ]
