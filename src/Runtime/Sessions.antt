-- ===== src/Runtime/Sessions.antt =====
-- pkg/protorun/retry.go, and the session events of pkg/protorun/runtime.go: which peers are connected, which
-- dials are retried, and what the protocols are told. The delays, which are computed in floating point, are
-- left to the clock; the runtime has a session layer and is not shut down.
pub mod Retries
use protorun.Prelude.{
  ℕ, zero, suc, ◌+◌, Bool, true, false, ◌&&◌, List, [], ◌∷◌, Option, none, some, ltb, leb,
  if◌then◌else◌, Map, lookup, insert, delete,
}
use protorun.Transport.Host.{Host, host_eq}
use protorun.Transport.HostSet.{HostSet, add, remove}

-- `armed` if the backoff timer of the schedule is set.
pub record RetryState : Type 0 where
  pub max_attempts : ℕ
  pub attempt : ℕ
  pub armed : Bool

-- A dial of the session layer, a disconnection by it, and what is fanned out to the protocols.
pub data Effect : Type 0 where
  dialed : Host → Effect
  hung_up : Host → Effect
  session_connected : Host → Effect
  session_disconnected : Host → Effect
  session_failed : Host → Effect
  session_given_up : Host → ℕ → Effect

-- `max_attempts` is that of the runtime's policy, 0 for no bound.
pub record Sessions : Type 0 where
  pub max_attempts : ℕ
  pub established : HostSet
  pub connection_retries : Map Host RetryState
  pub trace : List Effect

abbrev pub emit : Effect → Sessions → Sessions
emit e s = record s { trace = e ∷ s.trace }

unfoldable pub connect_with_retry : Host → Sessions → Sessions
connect_with_retry h s = elim (lookup h s.connection_retries) [
  | some tracked ↦ s
  | none ↦ emit (Effect.dialed h) (record s {
    connection_retries =
        insert h (record { max_attempts = s.max_attempts; attempt = 0; armed = false })
          s.connection_retries;
  })
]

-- Also `stopRetryFor` and what `giveUpRetryNow` does to the table.
abbrev pub clear_retry : Host → Sessions → Sessions
clear_retry h s = record s { connection_retries = delete h s.connection_retries }

-- The three results of `onSessionDownForRetry`: not managed, a retry to come, or the attempts made.
pub data Down : Type 0 where
  unmanaged : Down
  retrying : Down
  exhausted : ℕ → Down

unfoldable pub down_for_retry : Host → Option RetryState → Sessions → Sessions × Down
down_for_retry h none s = (s, Down.unmanaged)
down_for_retry h (some st) s =
    if ltb 0 st.max_attempts && leb st.max_attempts (st.attempt + 1)
    then (clear_retry h s, Down.exhausted (st.attempt + 1))
    else (
      record s {
        connection_retries =
            insert h (record st { attempt = st.attempt + 1; armed = true }) s.connection_retries;
      },
      Down.retrying,
    )

unfoldable pub on_session_down_for_retry : Host → Sessions → Sessions × Down
unfolding down_for_retry
on_session_down_for_retry h s = down_for_retry h (lookup h s.connection_retries) s

-- The function of the timer: it dials if the host is still tracked.
unfoldable pub fire : Host → Option RetryState → Sessions → Sessions
fire h none s = s
fire h (some st) s =
    if st.armed
    then emit (Effect.dialed h) (record s {
      connection_retries = insert h (record st { armed = false }) s.connection_retries;
    })
    else s

unfoldable pub report_failure : Host → Down → Sessions → Sessions
report_failure h Down.unmanaged s = emit (Effect.session_failed h) s
report_failure h Down.retrying s = s
report_failure h (Down.exhausted n) s = emit (Effect.session_given_up h n) s

unfoldable pub report_disconnection : Host → Down → Sessions → Sessions
report_disconnection h Down.unmanaged s = emit (Effect.session_disconnected h) s
report_disconnection h Down.retrying s = emit (Effect.session_disconnected h) s
report_disconnection h (Down.exhausted n) s =
    emit (Effect.session_disconnected h) (emit (Effect.session_given_up h n) s)

unfoldable pub attempts_of : Option RetryState → ℕ
attempts_of none = 0
attempts_of (some st) = st.attempt

-- A version mismatch is `rejected` for an own dial, and nothing but a log line for an inbound one.
pub data Input : Type 0 where
  asked_retry asked_disconnect : Host → Input
  connected disconnected failed : Host → Input
  rejected : Host → Input
  retry_timer : Host → Input

unfoldable pub step : Input → Sessions → Sessions
unfolding connect_with_retry on_session_down_for_retry fire report_failure report_disconnection
    attempts_of
step (Input.asked_retry h) s = connect_with_retry h s
step (Input.asked_disconnect h) s = emit (Effect.hung_up h) (clear_retry h s)
step (Input.connected h) s =
    emit (Effect.session_connected h)
      (clear_retry h (record s { established = add h s.established }))
step (Input.disconnected h) s =
    let (s₁, down) =
      on_session_down_for_retry h (record s { established = remove h s.established }) in
    report_disconnection h down s₁
step (Input.failed h) s = let (s₁, down) = on_session_down_for_retry h s in report_failure h down s₁
step (Input.rejected h) s =
    emit (Effect.session_given_up h (attempts_of (lookup h s.connection_retries))) (clear_retry h s)
step (Input.retry_timer h) s = fire h (lookup h s.connection_retries) s

unfoldable pub run : List Input → Sessions → Sessions
unfolding step
run [] s = s
run (i ∷ is) s = run is (step i s)
