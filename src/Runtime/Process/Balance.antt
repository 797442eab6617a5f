-- ===== src/Runtime/Process/Balance.antt =====
-- The balance of a request of pkg/protorun: its callback has been called, or it waits, or its number is
-- not given out yet.
use protorun.Prelude.{
  ℕ, ◌+◌, ◌≤◌, ◌≡◌, refl, ◌∙◌, Bool, false, ◌&&◌, List, [], ◌∷◌, Option, none, some, if◌then◌else◌,
  if_elim, ◌==◌, ltb, Map, nat_eq, lookup, insert, delete, arith,
}
use protorun.Runtime.Mailbox.{Mailbox}
use protorun.Runtime.Process.{
  Outcome, Event, PendingRequest, Effect, Process, note, enqueue, forget_timer, cancel_timer,
  cancel_timers, safe_call, claim, take_pushed, push, has,
}
use protorun.Runtime.Process.Steps.{dead_letters, call_all, Input, step}

abbrev pub one_if : Bool → ℕ
one_if b = if b then 1 else 0

-- How often the callback of a request was called, and how often it waits.
abbrev pub calls_of : ℕ → List Effect → ℕ
calls_of id [] = 0
calls_of id (Effect.calls j outcome ∷ trace) = one_if (j == id) + calls_of id trace
calls_of id (_ ∷ trace) = calls_of id trace

abbrev pub waits_of : ℕ → Map ℕ PendingRequest → ℕ
waits_of id [] = 0
waits_of id ((j, entry) ∷ pending) = one_if (j == id) + waits_of id pending

-- The calls of a request's callback, its places among those that wait, and one if its number is not given
-- out yet.
abbrev pub balance : ℕ → Process → ℕ
balance id p = calls_of id p.trace + waits_of id p.pending + one_if (ltb p.next_request_id id)

-- What a reset drops of a request without calling its callback, in one input and in a run.
abbrev pub drops_now : ℕ → Input → Process → ℕ
drops_now id Input.resets p = waits_of id p.pending
drops_now id _ p = 0

abbrev pub drops : ℕ → List Input → Process → ℕ
drops id [] p = 0
drops id (i ∷ inputs) p = drops_now id i p + drops id inputs (step p i)

pub waits_of-insert_other :
    (id k : ℕ) (entry : PendingRequest) (m : Map ℕ PendingRequest)
    → (k == id) ≡ false
    → waits_of id (insert k entry m) ≡ waits_of id m
unfolding insert
waits_of-insert_other id k entry [] e = ground arith
waits_of-insert_other id k entry ((j, w) ∷ m) e =
    ground (arith, waits_of-insert_other id k entry m e)

pub waits_of-insert_new :
    (id : ℕ) (entry : PendingRequest) (m : Map ℕ PendingRequest)
    → waits_of id m ≡ 0
    → waits_of id (insert id entry m) ≡ 1
unfolding insert
waits_of-insert_new id entry [] e = ground arith
waits_of-insert_new id entry ((j, w) ∷ m) e = ground (arith, waits_of-insert_new id entry m)

pub waits_of-delete :
    (id k : ℕ) (m : Map ℕ PendingRequest)
    → waits_of id (delete k m) ≡ (if k == id then 0 else waits_of id m)
unfolding delete
waits_of-delete id k [] = ground arith
waits_of-delete id k ((j, w) ∷ m) = ground (arith, waits_of-delete id k m)

pub waits_of-lookup :
    (k : ℕ) (entry : PendingRequest) (m : Map ℕ PendingRequest)
    → lookup k m ≡ some entry
    → 1 ≤ waits_of k m
unfolding lookup
waits_of-lookup k entry [] e = cc e
waits_of-lookup k entry ((j, w) ∷ m) e = ground (arith, waits_of-lookup k entry m)

pub calls_of-call_all :
    (id : ℕ) (m : Map ℕ PendingRequest) (trace : List Effect)
    → calls_of id (call_all m trace) ≡ waits_of id m + calls_of id trace
unfolding call_all
calls_of-call_all id [] trace = omega arith
calls_of-call_all id ((j, w) ∷ m) trace =
    omega (arith, calls_of-call_all id m (Effect.calls j Outcome.protocol_restarting ∷ trace))

pub calls_of-dead_letters :
    (id : ℕ) (events : List Event) (trace : List Effect)
    → calls_of id (dead_letters events trace) ≡ calls_of id trace
unfolding dead_letters
calls_of-dead_letters id [] trace = refl
calls_of-dead_letters id (ev ∷ events) trace =
    calls_of-dead_letters id events (Effect.dead_letter ev ∷ trace)

-- A change of a process that no request sees.
abbrev pub Keeps : ℕ → Process → Process → Type 0
Keeps id p q =
    (calls_of id q.trace ≡ calls_of id p.trace)
    × (q.pending ≡ p.pending)
    × (q.next_request_id ≡ p.next_request_id)

pub take_pushed-Keeps :
    (id : ℕ) (o : Option (Mailbox Event × Option Event)) (p : Process)
    → Keeps id p (take_pushed o p)
unfolding take_pushed
take_pushed-Keeps id none p = (refl, refl, refl)
take_pushed-Keeps id (some (mailbox, none)) p = (refl, refl, refl)
take_pushed-Keeps id (some (mailbox, some dropped)) p = (refl, refl, refl)

pub enqueue-Keeps : (id : ℕ) (ev : Event) (p : Process) → Keeps id p (enqueue ev p)
unfolding enqueue
enqueue-Keeps id ev p =
    if_elim (Keeps id p) (p.supervised && p.quarantined) _ _ (λ _. (refl, refl, refl))
      (λ _. take_pushed-Keeps id (push ev p.mailbox) p)

pub cancel_timer-Keeps : (id k : ℕ) (p : Process) → Keeps id p (cancel_timer k p)
unfolding cancel_timer forget_timer
cancel_timer-Keeps id k p =
    if_elim (Keeps id p) (has k p.cancelled) _ _ (λ _. (refl, refl, refl)) (λ _. (refl, refl, refl))

pub cancel_timers-Keeps : (id : ℕ) (ks : List ℕ) (p : Process) → Keeps id p (cancel_timers ks p)
unfolding cancel_timers
cancel_timers-Keeps id [] p = (refl, refl, refl)
cancel_timers-Keeps id (k ∷ ks) p =
    let (a, b, c) = cancel_timer-Keeps id k p in
    let (d, e, f) = cancel_timers-Keeps id ks (cancel_timer k p) in (d ∙ a, e ∙ b, f ∙ c)

pub safe_call-Keeps : (id : ℕ) (panics : Bool) (p : Process) → Keeps id p (safe_call panics p)
unfolding safe_call
safe_call-Keeps id panics p =
    if_elim (Keeps id p) (panics && p.supervised) _ _ (λ _. (refl, refl, refl))
      (λ _. (refl, refl, refl))

pub Keeps-balance : (id : ℕ) (p q : Process) → Keeps id p q → balance id q ≡ balance id p
Keeps-balance id p q (a, b, c) = rw (a, b, c) refl

pub claim-balance :
    (id k : ℕ) (outcome : Outcome) (panics : Bool) (o : Option PendingRequest) (p : Process)
    → lookup k p.pending ≡ o
    → balance id p ≤ 1
    → balance id (claim panics k outcome o p) ≡ balance id p
unfolding claim
claim-balance id k outcome panics none p e h = refl
claim-balance id k outcome panics (some entry) p e h =
    let q : Process = note (Effect.calls k outcome) (record p { pending = delete k p.pending }) in
    Keeps-balance id q (safe_call panics q) (safe_call-Keeps id panics q)
    ∙ ground (arith, waits_of-delete id k p.pending, waits_of-lookup k entry p.pending e)
