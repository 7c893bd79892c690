-- ===== src/Relay/Setup.antt =====
-- protocol/relay/manager.go: NewRelayStream, SetSessionId and NewSessionToPeer, by which a node
-- makes a peer the next hop of a session.
use white_noise.Prelude.{Option, none, some, Bytes, if◌then◌else◌, ◌⊎◌, inl, inr}
use white_noise.Errors.{Error, unknown_stream, cmd_rejected, timeout}
use white_noise.Session
use white_noise.Session.{Role, Stream, Session, new_session}
use white_noise.Relay.State.{
  Env, AckResult, Manager, opened, inbound_started, task_added, task_deleted, emit, get_session,
  get_stream, add_stream, add_session_id, add_stream_session_id,
}
use white_noise.Relay.Messages.{new_relay_wake, new_set_session_id_command}
use white_noise.Relay.Sending.{write_msg}

-- The session that a stream joins: the known one, or a new one with the given role.
abbrev pub session_or_new : Bytes → Role → Manager → Session
session_or_new sid role m = elim (get_session m sid) [
  | some s ↦ s
  | none ↦ record new_session { id = sid; role = role }
]

-- Where the command was accepted, the stream joins the session.
unfoldable pub join_session : Bytes → Stream → Role → Manager → Manager
join_session sid stream my_role m =
    add_stream_session_id stream.stream_id sid
      (add_session_id sid (Session.add_stream (session_or_new sid my_role m) stream) m)

-- The `select` of SetSessionId.
unfoldable pub await_answer :
    Bytes → Stream → Role → Option AckResult → Manager → Manager × Option Error
unfolding join_session
await_answer sid stream my_role none m = (m, some timeout)
await_answer sid stream my_role (some r) m =
    if r.ok then (join_session sid stream my_role m, none) else (m, some (cmd_rejected r.payload))

module _ (env : Env) where
  -- NewRelayStream: the new stream, or the error.
  unfoldable pub new_relay_stream : Bytes → Manager → Manager × (Stream ⊎ Error)
  new_relay_stream peer m = elim (env.new_stream_error m.log peer) [
    | some e ↦ (m, inr e)
    | none ↦
        let s = env.new_stream m.log peer in
        let opened_m = emit (opened peer s.stream_id) m in
        let started = emit (inbound_started s.stream_id) (add_stream s opened_m) in
        let (m', e) = write_msg env s (new_relay_wake env) started in
        elim e [ none ↦ (m', inl s) | some e' ↦ (m', inr e') ]
  ]

  -- SetSessionId. While it waits, the node's other goroutines run.
  unfoldable pub set_session_id : Bytes → Bytes → Role → Role → Manager → Manager × Option Error
  unfolding await_answer
  set_session_id sid stream_id my_role other_role m = elim (get_stream m stream_id) [
    | none ↦ (m, some (unknown_stream stream_id))
    | some info ↦
        let (command, id) = new_set_session_id_command env sid other_role in
        let (m1, e) = write_msg env info.stream command m in
        let waiting = emit (task_added id) m1 in
        let answer = env.ack_result waiting.log id in
        let (m2, e2) = await_answer sid info.stream my_role answer (env.meanwhile waiting) in
        elim e [ some e1 ↦ (m1, some e1) | none ↦ (emit (task_deleted id) m2, e2) ]
  ]

  -- NewSessionToPeer
  unfoldable pub new_session_to_peer :
      Bytes → Bytes → Role → Role → Manager → Manager × Option Error
  new_session_to_peer peer sid my_role other_role m =
      let (m1, r) = new_relay_stream peer m in
      elim r [ inr e ↦ (m1, some e) | inl s ↦ set_session_id sid s.stream_id my_role other_role m1 ]
