-- ===== src/Runtime/Process/Timers.antt =====
-- A timer of pkg/protorun/timer.go that is cancelled does not run any more.
use protorun.Prelude.{
  ℕ, ◌+◌, ◌%◌, ◌^◌, ◌≡◌, refl, ◌∙◌, Bool, true, false, ◌&&◌, List, [], ◌∷◌, Option, none, some,
  if◌then◌else◌, if_elim, ◌==◌, Map, nat_eq, lookup, insert, delete, arith,
}
use protorun.Runtime.Mailbox.{Mailbox}
use protorun.Runtime.Process.{
  Outcome, Event, PendingRequest, Effect, Process, note, enqueue, register_handler, send_request,
  deliver_reply_to, track_timer, forget_timer, cancel_timer, cancel_timers, cancel_all_timers,
  fire_once, fire_again, safe_call, claim, deliver_reply, dispatch, next, take_pushed, push, has,
}
use protorun.Runtime.Process.Steps.{
  run_event, dispatch_next, drain_all, dead_letters, drain_mailbox_to_dead_letter, call_all,
  fail_pending_restarting, quarantine_and_clean, reset_for_restart, start_loop, boot_panics, Input,
  step, run,
}

-- How often the function of a timer ran.
abbrev pub runs_of : ℕ → List Effect → ℕ
runs_of id [] = 0
runs_of id (Effect.handles (Event.timer j) ∷ trace) = (if j == id then 1 else 0) + runs_of id trace
runs_of id (_ ∷ trace) = runs_of id trace

-- The timer stays cancelled and has not run again.
abbrev Stays : ℕ → Process → Process → Type 0
Stays id p q = (has id q.cancelled ≡ true) × (runs_of id q.trace ≡ runs_of id p.trace)

Stays-trans :
    (id : ℕ) (p q r : Process)
    → Stays id p q
    → (has id q.cancelled ≡ true → Stays id q r)
    → Stays id p r
Stays-trans id p q r (a, b) f = let (c, d) = f a in (c, d ∙ b)

take_pushed-Stays :
    (id : ℕ) (o : Option (Mailbox Event × Option Event)) (p : Process)
    → has id p.cancelled ≡ true
    → Stays id p (take_pushed o p)
unfolding take_pushed
take_pushed-Stays id none p c = (c, refl)
take_pushed-Stays id (some (mailbox, none)) p c = (c, refl)
take_pushed-Stays id (some (mailbox, some dropped)) p c = (c, refl)

enqueue-Stays :
    (id : ℕ) (ev : Event) (p : Process) → has id p.cancelled ≡ true → Stays id p (enqueue ev p)
unfolding enqueue
enqueue-Stays id ev p c =
    if_elim (Stays id p) (p.supervised && p.quarantined) _ _ (λ _. (c, refl))
      (λ _. take_pushed-Stays id (push ev p.mailbox) p c)

cancel_timer-Stays :
    (id k : ℕ) (p : Process) → has id p.cancelled ≡ true → Stays id p (cancel_timer k p)
unfolding cancel_timer forget_timer has
cancel_timer-Stays id k p c =
    if_elim (Stays id p) (has k p.cancelled) _ _ (λ _. (c, refl)) (λ _. (ground arith, refl))

cancel_timers-Stays :
    (id : ℕ) (ks : List ℕ) (p : Process)
    → has id p.cancelled ≡ true
    → Stays id p (cancel_timers ks p)
unfolding cancel_timers
cancel_timers-Stays id [] p c = (c, refl)
cancel_timers-Stays id (k ∷ ks) p c =
    Stays-trans id p (cancel_timer k p) (cancel_timers ks (cancel_timer k p))
      (cancel_timer-Stays id k p c) (cancel_timers-Stays id ks (cancel_timer k p))

safe_call-Stays :
    (id : ℕ) (panics : Bool) (p : Process)
    → has id p.cancelled ≡ true
    → Stays id p (safe_call panics p)
unfolding safe_call
safe_call-Stays id panics p c =
    if_elim (Stays id p) (panics && p.supervised) _ _ (λ _. (c, refl)) (λ _. (c, refl))

claim-Stays :
    (id k : ℕ) (outcome : Outcome) (panics : Bool) (o : Option PendingRequest) (p : Process)
    → has id p.cancelled ≡ true
    → Stays id p (claim panics k outcome o p)
unfolding claim
claim-Stays id k outcome panics none p c = (c, refl)
claim-Stays id k outcome panics (some entry) p c =
    safe_call-Stays id panics
      (note (Effect.calls k outcome) (record p { pending = delete k p.pending })) c

handled-Stays :
    (id : ℕ) (panics : Bool) (ev : Event) (p : Process)
    → has id p.cancelled ≡ true
    → runs_of id (Effect.handles ev ∷ p.trace) ≡ runs_of id p.trace
    → Stays id p (safe_call panics (note (Effect.handles ev) p))
handled-Stays id panics ev p c r =
    let (a, b) = safe_call-Stays id panics (note (Effect.handles ev) p) c in (a, b ∙ r)

dispatch-Stays :
    (id : ℕ) (panics : Bool) (ev : Event) (p : Process)
    → has id p.cancelled ≡ true
    → Stays id p (dispatch panics ev p)
unfolding dispatch deliver_reply
dispatch-Stays id panics (Event.message wire_id from) p c =
    if_elim (Stays id p) (has wire_id p.handlers) _ _
      (λ _. handled-Stays id panics (Event.message wire_id from) p c refl) (λ _. (c, refl))
dispatch-Stays id panics (Event.timer k) p c =
    if_elim (Stays id p) (has k p.cancelled) _ _ (λ _. (c, refl))
      (λ e. handled-Stays id panics (Event.timer k) p c (ground (arith, e)))
dispatch-Stays id panics (Event.reply k outcome) p c =
    claim-Stays id k outcome panics (lookup k p.pending) p c
dispatch-Stays id panics ev p c = handled-Stays id panics ev p c refl

run_event-Stays :
    (id : ℕ) (panics : Bool) (o : Option (Event × Mailbox Event)) (p : Process)
    → has id p.cancelled ≡ true
    → Stays id p (run_event panics o p)
unfolding run_event
run_event-Stays id panics none p c = (c, refl)
run_event-Stays id panics (some (ev, mailbox)) p c =
    dispatch-Stays id panics ev (record p { mailbox = mailbox }) c

runs_of-dead_letters :
    (id : ℕ) (events : List Event) (trace : List Effect)
    → runs_of id (dead_letters events trace) ≡ runs_of id trace
unfolding dead_letters
runs_of-dead_letters id [] trace = refl
runs_of-dead_letters id (ev ∷ events) trace =
    runs_of-dead_letters id events (Effect.dead_letter ev ∷ trace)

runs_of-call_all :
    (id : ℕ) (m : Map ℕ PendingRequest) (trace : List Effect)
    → runs_of id (call_all m trace) ≡ runs_of id trace
unfolding call_all
runs_of-call_all id [] trace = refl
runs_of-call_all id ((k, entry) ∷ m) trace =
    runs_of-call_all id m (Effect.calls k Outcome.protocol_restarting ∷ trace)

quarantine_and_clean-Stays :
    (id : ℕ) (p : Process) → has id p.cancelled ≡ true → Stays id p (quarantine_and_clean p)
unfolding quarantine_and_clean drain_mailbox_to_dead_letter cancel_all_timers
    fail_pending_restarting
quarantine_and_clean-Stays id p c =
    let p₁ : Process =
      drain_mailbox_to_dead_letter (record p { quarantined = true; looping = false }) in
    let q : Process = cancel_timers p₁.timers p₁ in
    let (a, b) = cancel_timers-Stays id p₁.timers p₁ c in
    (
      a,
      runs_of-call_all id q.pending q.trace
          ∙ (b ∙ runs_of-dead_letters id (drain_all p.mailbox).0 p.trace),
    )

step-Stays : (id : ℕ) (i : Input) (p : Process) → has id p.cancelled ≡ true → Stays id p (step p i)
unfolding step register_handler deliver_reply_to track_timer dispatch_next reset_for_restart
    start_loop boot_panics send_request fire_once fire_again forget_timer
step-Stays id (Input.arrives ev) p c = enqueue-Stays id ev p c
step-Stays id (Input.registers wire_id) p c = (c, refl)
step-Stays id (Input.sends wire_id routed now timeout) p c =
    let k : ℕ = (p.next_request_id + 1) % 2 ^ 64 in
    let entry : PendingRequest = record {
      deadline = now + timeout;
      started_at = now;
      wire_id = wire_id;
    } in
    let p₁ : Process = record p { next_request_id = k; pending = insert k entry p.pending } in
    if_elim (Stays id p) routed _ _ (λ _. (c, refl))
      (λ _. enqueue-Stays id (Event.reply k Outcome.no_request_handler) p₁ c)
step-Stays id (Input.answers k outcome) p c = enqueue-Stays id (Event.reply k outcome) p c
step-Stays id (Input.arms k) p c = (c, refl)
step-Stays id (Input.cancels k) p c = cancel_timer-Stays id k p c
step-Stays id (Input.fires k periodic) p c =
    if_elim (Stays id p) periodic _ _
      (λ _.
        if_elim (Stays id p) (has k p.cancelled) _ _ (λ _. (c, refl))
          (λ _. enqueue-Stays id (Event.timer k) p c))
      (λ _.
        if_elim (Stays id p) (has k p.cancelled) _ _ (λ _. (c, refl))
          (λ _. enqueue-Stays id (Event.timer k) (forget_timer k p) c))
step-Stays id (Input.turns panics) p c =
    if_elim (Stays id p) p.looping _ _ (λ _. run_event-Stays id panics (next p.mailbox) p c)
      (λ _. (c, refl))
step-Stays id Input.cleans p c = quarantine_and_clean-Stays id p c
step-Stays id Input.resets p c = (c, refl)
step-Stays id Input.starts p c = (c, refl)
step-Stays id Input.boot_fails p c =
    if_elim (Stays id p) p.supervised _ _ (λ _. (c, refl)) (λ _. (c, refl))

run-Stays :
    (id : ℕ) (inputs : List Input) (p : Process)
    → has id p.cancelled ≡ true
    → Stays id p (run inputs p)
unfolding run
run-Stays id [] p c = (c, refl)
run-Stays id (i ∷ inputs) p c =
    Stays-trans id p (step p i) (run inputs (step p i)) (step-Stays id i p c)
      (run-Stays id inputs (step p i))

cancel_timer-cancelled : (id : ℕ) (p : Process) → Stays id p (cancel_timer id p)
unfolding cancel_timer has forget_timer
cancel_timer-cancelled id p =
    if_elim (Stays id p) (has id p.cancelled) _ _ (λ e. (e, refl)) (λ _. (ground arith, refl))

-- Once a timer is cancelled, its function never runs again, even if it has fired and its event is
-- in the mailbox, in any later run, restarts included.
pub cancelled-silent :
    (id : ℕ) (inputs : List Input) (p : Process)
    → runs_of id (run (Input.cancels id ∷ inputs) p).trace ≡ runs_of id p.trace
unfolding run step
cancelled-silent id inputs p =
    (Stays-trans id p (cancel_timer id p) (run inputs (cancel_timer id p))
      (cancel_timer-cancelled id p) (run-Stays id inputs (cancel_timer id p))).1
