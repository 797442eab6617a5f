-- ===== src/Runtime/Tests.antt =====
-- The theorems on supervision, routing and sessions at concrete inputs.
use protorun.Prelude.{
  ℕ, lookup, none, bytes_beq, ◌+◌, ◌/◌, ◌≤◌, ◌≡◌, refl, List, [], ◌∷◌, ◌++◌, arith, false, true,
  if◌then◌else◌, ltb,
}
use protorun.Transport.Host.{Host, host_eq, host_beq}
use protorun.Runtime.Process
use protorun.Runtime.Process.Steps
use protorun.Runtime.Process.Balance.{calls_of, waits_of, drops}
use protorun.Runtime.Process.Requests.{answered_once}
use protorun.Runtime.Process.Timers.{runs_of, cancelled-silent}
use protorun.Runtime.Mailbox.{OverflowPolicy}
use protorun.Runtime.Sessions.{Effect, Sessions, Input, step, run}
use protorun.Runtime.Sessions.Retries.{failures, dials, failures-gives_up}
use protorun.Runtime.Durations.{pos}
use protorun.Runtime.Supervision.{record_panic, exp_backoff}
use protorun.Runtime.Supervision.Window.{recent, record_all, record_panic-window}
use protorun.Runtime.Supervision.Backoff.{doubled, capped, exp_backoff-capped}
use protorun.Runtime.Router.{Operation}

record_panic-window_example :
    record_panic 60 100 (record_all 60 [] (10 ∷ 50 ∷ []))
    ≡ recent 60 100 ((10 ∷ 50 ∷ []) ++ 100 ∷ [])
record_panic-window_example =
    record_panic-window 60 100 (10 ∷ 50 ∷ []) (omega arith, (omega arith, (omega arith, tt)))

exp_backoff-capped_example :
    (exp_backoff (pos 100) (pos 5000) 3 7 ≡ pos (capped (doubled 2 100) 5000 + 7))
    × (capped (doubled 2 100) 5000 + 7 ≤ 5000 + 5000 / 4)
unfolding doubled
exp_backoff-capped_example =
    exp_backoff-capped 100 5000 3 7 (omega arith) (omega arith) (omega arith) (omega arith)

-- Two protocols subscribe to notification 5, one of them twice; one handles request 6.
abbrev operations : List (Operation ℕ)
operations =
    Operation.subscribed 5 1 11
    ∷ Operation.subscribed 5 2 21
    ∷ Operation.subscribed 5 1 12
    ∷ Operation.registered 6 1 13
    ∷ []

abbrev peer : Host
peer = record { port = 7002; ip = 98 ∷ [] }

-- The peer was dialed, with three attempts allowed.
abbrev dialing : Sessions
dialing = record {
  max_attempts = 3;
  established = [];
  connection_retries = (peer, record { max_attempts = 3; attempt = 0; armed = false }) ∷ [];
  trace = Effect.dialed peer ∷ [];
}

failures-gives_up_example :
    let t = step (Input.failed peer) (run (failures 2 peer) dialing) in
    (t.trace ≡ Effect.session_given_up peer 3 ∷ dials 2 peer dialing.trace)
    × (lookup peer t.connection_retries ≡ none)
unfolding lookup host_beq bytes_beq
failures-gives_up_example =
    failures-gives_up 2 peer (record { max_attempts = 3; attempt = 0; armed = false }) dialing refl
      (omega arith)

-- A request without a route, whose error the loop delivers.
answered_once_example :
    let p₀ : Process.Process =
      Process.new_proto_protocol true
        (record { capacity = 2; overflow = OverflowPolicy.drop_oldest }) in
    let inputs : List Steps.Input =
      Steps.Input.starts ∷ Steps.Input.sends 5 false 10 3 ∷ Steps.Input.turns false ∷ [] in
    let p : Process.Process = Steps.run inputs p₀ in
    calls_of 1 p.trace
      + waits_of 1 p.pending
      + (if ltb p.next_request_id 1 then 1 else 0)
      + drops 1 inputs p₀
    ≡ 1
answered_once_example =
    answered_once true (record { capacity = 2; overflow = OverflowPolicy.drop_oldest }) 1
      (Steps.Input.starts ∷ Steps.Input.sends 5 false 10 3 ∷ Steps.Input.turns false ∷ [])
      (omega arith) (omega arith)

-- A timer whose event waits in the mailbox when it is cancelled.
cancelled-silent_example :
    let p : Process.Process =
      Steps.run (Steps.Input.starts ∷ Steps.Input.arms 4 ∷ Steps.Input.fires 4 true ∷ []) (
        Process.new_proto_protocol false
          (record { capacity = 2; overflow = OverflowPolicy.block })) in
    runs_of 4 (Steps.run (Steps.Input.cancels 4 ∷ Steps.Input.turns false ∷ []) p).trace
    ≡ runs_of 4 p.trace
cancelled-silent_example = cancelled-silent 4 (Steps.Input.turns false ∷ []) (
    Steps.run (Steps.Input.starts ∷ Steps.Input.arms 4 ∷ Steps.Input.fires 4 true ∷ [])
      (Process.new_proto_protocol false (record { capacity = 2; overflow = OverflowPolicy.block })))
