-- ===== src/Hyparview/Node/Step.antt =====
-- One event of the loop that owns a hyparview instance: what `Start` and `Init` register.
use protorun.Prelude.{List, [], ◌∷◌, if◌then◌else◌}
use protorun.Transport.Host.{Host}
use protorun.Transport.HostSet.{contains}
use protorun.Hyparview.Messages.{ForwardJoin, Neighbor, NeighborReply, Shuffle, ShuffleReply}
use protorun.Hyparview.Random.{Outside}
use protorun.Hyparview.Node.{Node}
use protorun.Hyparview.Node.Handlers.{
  on_session_connected, on_session_down, on_attempt_timeout, on_join, on_forward_join, on_neighbor,
  on_neighbor_reply, on_disconnect, on_shuffle_tick, on_shuffle, on_shuffle_reply, init,
  on_maintenance_tick, handle_get_view, handle_debug_state,
}

-- `session_down` is OnSessionDisconnected and OnSessionGivenUp.
pub data Input : Type 0 where
  started : Input
  session_connected session_down attempt_timeout : Host → Input
  got_join got_disconnect : Host → Input
  got_forward_join : ForwardJoin → Host → Input
  got_neighbor : Neighbor → Host → Input
  got_neighbor_reply : NeighborReply → Host → Input
  got_shuffle : Shuffle → Host → Input
  got_shuffle_reply : ShuffleReply → Host → Input
  shuffle_tick maintenance_tick asked_view asked_state : Input

module _ {W : Type 0} ⦃o : Outside W⦄ where
  -- A timer that is not armed, or cancelled, does not fire.
  unfoldable pub step : Input → Node W → Node W
  step Input.started s = init s
  step (Input.session_connected h) s = on_session_connected h s
  step (Input.session_down h) s = on_session_down h s
  step (Input.attempt_timeout h) s = if contains h s.timers then on_attempt_timeout h s else s
  step (Input.got_join from) s = on_join from s
  step (Input.got_disconnect from) s = on_disconnect from s
  step (Input.got_forward_join m from) s = on_forward_join m from s
  step (Input.got_neighbor m from) s = on_neighbor m from s
  step (Input.got_neighbor_reply m from) s = on_neighbor_reply m from s
  step (Input.got_shuffle m from) s = on_shuffle m from s
  step (Input.got_shuffle_reply m from) s = on_shuffle_reply m s
  step Input.shuffle_tick s = on_shuffle_tick s
  step Input.maintenance_tick s = on_maintenance_tick s
  step Input.asked_view s = handle_get_view s
  step Input.asked_state s = handle_debug_state s

  unfoldable pub run : List Input → Node W → Node W
  unfolding step
  run [] s = s
  run (i ∷ is) s = run is (step i s)
