-- ===== src/Runtime/Process/Requests.antt =====
-- Every request of pkg/protorun is answered once: its callback is called, or it still waits, or the reset
-- of the instance drops it.
use protorun.Prelude.{
  ℕ, ◌+◌, ◌%◌, ◌^◌, ◌<◌, ◌≤◌, ◌≡◌, refl, ap, ◌∙◌, Bool, true, false, List, [], ◌∷◌, Option, none,
  some, length, if◌then◌else◌, if_elim, ltb, nat_eq, lookup, insert, delete, arith,
}
use protorun.Runtime.Mailbox.{Mailbox, MailboxConfig}
use protorun.Runtime.Process.{
  Outcome, Event, PendingRequest, Effect, Process, note, enqueue, register_handler, send_request,
  deliver_reply_to, track_timer, forget_timer, cancel_timers, cancel_all_timers, fire_once,
  fire_again, safe_call, claim, deliver_reply, dispatch, next, has, new_proto_protocol,
}
use protorun.Runtime.Process.Steps.{
  run_event, dispatch_next, drain_all, drain_mailbox_to_dead_letter, fail_pending_restarting,
  quarantine_and_clean, reset_for_restart, start_loop, boot_panics, Input, step, run,
}
use protorun.Runtime.Process.Balance.{
  one_if, calls_of, waits_of, balance, drops_now, drops, waits_of-insert_other, waits_of-insert_new,
  calls_of-call_all, calls_of-dead_letters, Keeps, enqueue-Keeps, cancel_timer-Keeps,
  cancel_timers-Keeps, safe_call-Keeps, Keeps-balance, claim-balance,
}

handled-balance :
    (id : ℕ) (ev : Event) (panics : Bool) (p : Process)
    → balance id (safe_call panics (note (Effect.handles ev) p)) ≡ balance id p
handled-balance id ev panics p =
    Keeps-balance id (note (Effect.handles ev) p) (safe_call panics (note (Effect.handles ev) p))
      (safe_call-Keeps id panics (note (Effect.handles ev) p))

dispatch-balance :
    (id : ℕ) (panics : Bool) (ev : Event) (p : Process)
    → balance id p ≤ 1
    → balance id (dispatch panics ev p) ≡ balance id p
unfolding dispatch deliver_reply
dispatch-balance id panics (Event.message wire_id from) p h =
    if_elim (λ q. balance id q ≡ balance id p) (has wire_id p.handlers) _ _
      (λ _. handled-balance id (Event.message wire_id from) panics p) (λ _. refl)
dispatch-balance id panics (Event.timer k) p h =
    if_elim (λ q. balance id q ≡ balance id p) (has k p.cancelled) _ _ (λ _. refl)
      (λ _. handled-balance id (Event.timer k) panics p)
dispatch-balance id panics (Event.reply k outcome) p h =
    claim-balance id k outcome panics (lookup k p.pending) p refl h
dispatch-balance id panics ev p h = handled-balance id ev panics p

run_event-balance :
    (id : ℕ) (panics : Bool) (o : Option (Event × Mailbox Event)) (p : Process)
    → balance id p ≤ 1
    → balance id (run_event panics o p) ≡ balance id p
unfolding run_event
run_event-balance id panics none p h = refl
run_event-balance id panics (some (ev, mailbox)) p h =
    dispatch-balance id panics ev (record p { mailbox = mailbox }) h

quarantine_and_clean-balance :
    (id : ℕ) (p : Process) → balance id (quarantine_and_clean p) ≡ balance id p
unfolding quarantine_and_clean drain_mailbox_to_dead_letter cancel_all_timers
    fail_pending_restarting
quarantine_and_clean-balance id p =
    let p₁ : Process =
      drain_mailbox_to_dead_letter (record p { quarantined = true; looping = false }) in
    let (a, b, c) = cancel_timers-Keeps id p₁.timers p₁ in
    let q : Process = cancel_timers p₁.timers p₁ in
    let d : calls_of id q.trace ≡ calls_of id p.trace =
      a ∙ calls_of-dead_letters id (drain_all p.mailbox).0 p.trace in
    let e : waits_of id q.pending ≡ waits_of id p.pending = ap (waits_of id) b in
    let f : one_if (ltb q.next_request_id id) ≡ one_if (ltb p.next_request_id id) =
      ap (λ n. one_if (ltb n id)) c in
    omega (arith, calls_of-call_all id q.pending q.trace)

send_request-balance :
    (id wire_id : ℕ) (routed : Bool) (now timeout : ℕ) (p : Process)
    → balance id p ≤ 1
    → p.next_request_id + 1 < 2 ^ 64
    → balance id (send_request wire_id routed now timeout p) ≡ balance id p
unfolding send_request
send_request-balance id wire_id routed now timeout p h b =
    let k : ℕ = (p.next_request_id + 1) % 2 ^ 64 in
    let w : k ≡ p.next_request_id + 1 = omega arith in
    let entry : PendingRequest = record {
      deadline = now + timeout;
      started_at = now;
      wire_id = wire_id;
    } in
    let p₁ : Process = record p { next_request_id = k; pending = insert k entry p.pending } in
    let same : balance id p₁ ≡ balance id p = ground (
      arith,
      w,
      waits_of-insert_other id k entry p.pending,
      waits_of-insert_new id entry p.pending,
    ) in
    if_elim (λ q. balance id q ≡ balance id p) routed _ _ (λ _. same)
      (λ _.
        Keeps-balance id p₁ (enqueue (Event.reply k Outcome.no_request_handler) p₁)
          (enqueue-Keeps id (Event.reply k Outcome.no_request_handler) p₁)
        ∙ same)

fire-Keeps :
    (id k : ℕ) (periodic : Bool) (p : Process) → Keeps id p (step p (Input.fires k periodic))
unfolding step fire_once fire_again forget_timer
fire-Keeps id k periodic p =
    let p₁ : Process = forget_timer k p in
    if_elim (Keeps id p) periodic _ _
      (λ _.
        if_elim (Keeps id p) (has k p.cancelled) _ _ (λ _. (refl, refl, refl))
          (λ _. enqueue-Keeps id (Event.timer k) p))
      (λ _.
        if_elim (Keeps id p) (has k p.cancelled) _ _ (λ _. (refl, refl, refl))
          (λ _. enqueue-Keeps id (Event.timer k) p₁))

step-balance :
    (id : ℕ) (i : Input) (p : Process)
    → balance id p ≤ 1
    → p.next_request_id + 1 < 2 ^ 64
    → balance id (step p i) + drops_now id i p ≡ balance id p
unfolding step register_handler deliver_reply_to track_timer dispatch_next reset_for_restart
    start_loop boot_panics
step-balance id (Input.arrives ev) p h b =
    omega (arith, Keeps-balance id p (step p (Input.arrives ev)) (enqueue-Keeps id ev p))
step-balance id (Input.registers wire_id) p h b = omega arith
step-balance id (Input.sends wire_id routed now timeout) p h b =
    omega (arith, send_request-balance id wire_id routed now timeout p h b)
step-balance id (Input.answers k outcome) p h b = omega (
  arith,
  Keeps-balance id p (step p (Input.answers k outcome))
      (enqueue-Keeps id (Event.reply k outcome) p),
)
step-balance id (Input.arms k) p h b = omega arith
step-balance id (Input.cancels k) p h b =
    omega (arith, Keeps-balance id p (step p (Input.cancels k)) (cancel_timer-Keeps id k p))
step-balance id (Input.fires k periodic) p h b =
    omega (arith, Keeps-balance id p (step p (Input.fires k periodic)) (fire-Keeps id k periodic p))
step-balance id (Input.turns panics) p h b =
    if_elim (λ q. balance id q + 0 ≡ balance id p) p.looping _ _
      (λ _. omega (arith, run_event-balance id panics (next p.mailbox) p h)) (λ _. omega arith)
step-balance id Input.cleans p h b = omega (arith, quarantine_and_clean-balance id p)
step-balance id Input.resets p h b = omega arith
step-balance id Input.starts p h b = omega arith
step-balance id Input.boot_fails p h b =
    if_elim (λ q. balance id q + 0 ≡ balance id p) p.supervised _ _ (λ _. omega arith)
      (λ _. omega arith)

dispatch-next_request_id :
    (panics : Bool) (ev : Event) (p : Process)
    → (dispatch panics ev p).next_request_id ≡ p.next_request_id
unfolding dispatch deliver_reply
dispatch-next_request_id panics (Event.message wire_id from) p =
    if_elim (λ (q : Process). q.next_request_id ≡ p.next_request_id) (has wire_id p.handlers) _ _
      (λ _. (safe_call-Keeps 0 panics (note (Effect.handles (Event.message wire_id from)) p)).2)
      (λ _. refl)
dispatch-next_request_id panics (Event.timer k) p =
    if_elim (λ (q : Process). q.next_request_id ≡ p.next_request_id) (has k p.cancelled) _ _
      (λ _. refl) (λ _. (safe_call-Keeps 0 panics (note (Effect.handles (Event.timer k)) p)).2)
dispatch-next_request_id panics (Event.reply k outcome) p = claimed (lookup k p.pending)
  where
    claimed :
        (o : Option PendingRequest)
        → (claim panics k outcome o p).next_request_id ≡ p.next_request_id
    claimed none = refl
    claimed (some entry) =
        (safe_call-Keeps 0 panics
          (note (Effect.calls k outcome) (record p { pending = delete k p.pending }))).2
dispatch-next_request_id panics ev p = (safe_call-Keeps 0 panics (note (Effect.handles ev) p)).2

run_event-next_request_id :
    (panics : Bool) (o : Option (Event × Mailbox Event)) (p : Process)
    → (run_event panics o p).next_request_id ≡ p.next_request_id
unfolding run_event
run_event-next_request_id panics none p = refl
run_event-next_request_id panics (some (ev, mailbox)) p =
    dispatch-next_request_id panics ev (record p { mailbox = mailbox })

-- An input gives out one request number at most.
step-next_request_id :
    (i : Input) (p : Process)
    → p.next_request_id + 1 < 2 ^ 64
    → (step p i).next_request_id ≤ p.next_request_id + 1
unfolding step register_handler deliver_reply_to track_timer dispatch_next reset_for_restart
    start_loop boot_panics quarantine_and_clean drain_mailbox_to_dead_letter cancel_all_timers
    fail_pending_restarting send_request
step-next_request_id (Input.arrives ev) p b = omega (arith, (enqueue-Keeps 0 ev p).2)
step-next_request_id (Input.registers wire_id) p b = omega arith
step-next_request_id (Input.sends wire_id routed now timeout) p b =
    let k : ℕ = (p.next_request_id + 1) % 2 ^ 64 in
    let entry : PendingRequest = record {
      deadline = now + timeout;
      started_at = now;
      wire_id = wire_id;
    } in
    let p₁ : Process = record p { next_request_id = k; pending = insert k entry p.pending } in
    if_elim (λ (q : Process). q.next_request_id ≤ p.next_request_id + 1) routed _ _
      (λ _. omega arith)
      (λ _. omega (arith, (enqueue-Keeps 0 (Event.reply k Outcome.no_request_handler) p₁).2))
step-next_request_id (Input.answers k outcome) p b =
    omega (arith, (enqueue-Keeps 0 (Event.reply k outcome) p).2)
step-next_request_id (Input.arms k) p b = omega arith
step-next_request_id (Input.cancels k) p b = omega (arith, (cancel_timer-Keeps 0 k p).2)
step-next_request_id (Input.fires k periodic) p b = omega (arith, (fire-Keeps 0 k periodic p).2)
step-next_request_id (Input.turns panics) p b =
    if_elim (λ (q : Process). q.next_request_id ≤ p.next_request_id + 1) p.looping _ _
      (λ _. omega (arith, run_event-next_request_id panics (next p.mailbox) p)) (λ _. omega arith)
step-next_request_id Input.cleans p b =
    let p₁ : Process =
      drain_mailbox_to_dead_letter (record p { quarantined = true; looping = false }) in
    omega (arith, (cancel_timers-Keeps 0 p₁.timers p₁).2)
step-next_request_id Input.resets p b = omega arith
step-next_request_id Input.starts p b = omega arith
step-next_request_id Input.boot_fails p b =
    if_elim (λ (q : Process). q.next_request_id ≤ p.next_request_id + 1) p.supervised _ _
      (λ _. omega arith) (λ _. omega arith)

-- In any run in which the request numbers do not wrap around, the balance of a request changes
-- only by what resets drop.
pub run-balance :
    (id : ℕ) (inputs : List Input) (p : Process)
    → balance id p ≤ 1
    → p.next_request_id + length inputs < 2 ^ 64
    → balance id (run inputs p) + drops id inputs p ≡ balance id p
unfolding run
run-balance id [] p h b = omega arith
run-balance id (i ∷ inputs) p h b =
    let now = step-balance id i p h (omega arith) in
    let bound = step-next_request_id i p (omega arith) in
    omega (arith, run-balance id inputs (step p i) (omega arith) (omega arith))

-- Over any run of a new process of fewer than 2^64 inputs, whatever its mailbox drops, whichever
-- handlers panic and however it is restarted: of each request number, exactly one holds, and once:
-- it is not given out yet, its request waits, its callback was called, or a reset dropped the
-- request.
pub answered_once :
    (supervised : Bool) (m : MailboxConfig) (id : ℕ) (inputs : List Input)
    → 1 ≤ id
    → length inputs < 2 ^ 64
    → let p₀ : Process = new_proto_protocol supervised m in
      let p : Process = run inputs p₀ in
      calls_of id p.trace
        + waits_of id p.pending
        + (if ltb p.next_request_id id then 1 else 0)
        + drops id inputs p₀
      ≡ 1
unfolding new_proto_protocol
answered_once supervised m id inputs h b =
    let p₀ : Process = new_proto_protocol supervised m in
    let start : balance id p₀ ≡ 1 = ground arith in
    omega (arith, run-balance id inputs p₀ (omega arith) (omega arith))
