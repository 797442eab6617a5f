-- ===== src/Runtime/Sessions/Retries.antt =====
-- The retry schedule of pkg/protorun/retry.go for one peer that cannot be reached.
use protorun.Prelude.{
  ℕ, zero, suc, ◌+◌, ◌<◌, ◌≡◌, refl, ap, true, false, List, [], ◌∷◌, none, some, lookup, insert,
  delete, lookup-insert_self, lookup-delete, same_refl, arith, ltb, leb, ◌&&◌,
}
use protorun.Transport.Host.{Host, host_eq, host_beq_iff}
use protorun.Transport.HostSet.{contains, add}
use protorun.Transport.HostSet.Laws.{contains-remove}
use protorun.Runtime.Sessions.{
  RetryState, Effect, Sessions, Input, step, run, on_session_down_for_retry, down_for_retry, fire,
  report_failure, report_disconnection,
}

-- So many dials fail, each with its timer.
abbrev pub failures : ℕ → Host → List Input
failures zero h = []
failures (suc k) h = Input.failed h ∷ Input.retry_timer h ∷ failures k h

-- So many dials on top of a trace.
abbrev pub dials : ℕ → Host → List Effect → List Effect
dials zero h trace = trace
dials (suc k) h trace = dials k h (Effect.dialed h ∷ trace)

-- The state after one failed dial and its timer.
abbrev redialed : Host → RetryState → Sessions → Sessions
redialed h st s = record s {
  connection_retries =
      insert h (record st { attempt = st.attempt + 1; armed = false })
        (insert h (record st { attempt = st.attempt + 1; armed = true }) s.connection_retries);
  trace = Effect.dialed h ∷ s.trace;
}

failure-eq :
    (h : Host) (st : RetryState) (s : Sessions)
    → lookup h s.connection_retries ≡ some st
    → st.attempt + 1 < st.max_attempts
    → step (Input.retry_timer h) (step (Input.failed h) s) ≡ redialed h st s
unfolding step on_session_down_for_retry down_for_retry fire report_failure
failure-eq h st s e lt =
    let more : (ltb 0 st.max_attempts && leb st.max_attempts (st.attempt + 1)) ≡ false =
      ground arith in
    rw
      (
        e,
        more,
        lookup-insert_self h (record st { attempt = st.attempt + 1; armed = true })
            s.connection_retries,
      )
      refl

-- A peer that is tracked with a bound, and cannot be reached, is dialed again after each failure until
-- the bound is reached; that failure is told to the protocols as the end of the attempts, with their
-- number, and the peer is not tracked any more.
pub failures-gives_up :
    (k : ℕ) (h : Host) (st : RetryState) (s : Sessions)
    → lookup h s.connection_retries ≡ some st
    → st.attempt + suc k ≡ st.max_attempts
    → let t = step (Input.failed h) (run (failures k h) s) in
      (t.trace ≡ Effect.session_given_up h st.max_attempts ∷ dials k h s.trace)
      × (lookup h t.connection_retries ≡ none)
unfolding run step on_session_down_for_retry down_for_retry report_failure
failures-gives_up zero h st s e last =
    let end : (ltb 0 st.max_attempts && leb st.max_attempts (st.attempt + 1)) ≡ true =
      ground arith in
    (
      rw (e, end) (ap (λ n. Effect.session_given_up h n ∷ s.trace) (omega arith)),
      rw (e, end) (ground (arith, lookup-delete h h s.connection_retries, same_refl h)),
    )
failures-gives_up (suc k) h st s e last =
    rw (run, failure-eq h st s e (omega arith))
      (failures-gives_up k h (record st { attempt = st.attempt + 1; armed = false })
        (redialed h st s)
        (lookup-insert_self h (record st { attempt = st.attempt + 1; armed = false })
          (insert h (record st { attempt = st.attempt + 1; armed = true }) s.connection_retries))
        (omega arith))

-- A session that came up ends the retries for its peer: when it is lost later, the protocols are told of
-- the loss, nothing is dialed, and the peer is not tracked.
pub disconnected-connected :
    (h : Host) (s : Sessions)
    → let t = step (Input.disconnected h) (step (Input.connected h) s) in
      (t.trace ≡ Effect.session_disconnected h ∷ Effect.session_connected h ∷ s.trace)
      × (lookup h t.connection_retries ≡ none)
      × (contains h t.established ≡ false)
unfolding step on_session_down_for_retry down_for_retry report_disconnection
disconnected-connected h s =
    let gone : lookup h (delete h s.connection_retries) ≡ none =
      ground (arith, lookup-delete h h s.connection_retries, same_refl h) in
    (
      rw gone refl,
      rw gone gone,
      rw gone (ground (arith, contains-remove h h (add h s.established), host_beq_iff h h)),
    )
