-- ===== src/Relay/Inbound.antt =====
-- protocol/relay/relay.go and secure_conn.go: what a node does with the messages that reach it on a
-- relay stream. The goroutine that a success signal starts is run to its end where it starts.
use white_noise.Prelude.{
  Bool, true, false, none, some, List, [], ◌∷◌, ◌++◌, ◌&&◌, ◌||◌, Bytes, codes, same, ◌==◌,
  if◌then◌else◌, get_elem?,
}
use white_noise.Errors.{
  reject, entry_failed, circuit_no_session, success_no_session, success_not_ready,
  circuit_conn_missing, unmarshal_set_session, external, Outcome, ok, err, panic, returned, ◌>>=◌,
}
use white_noise.SyncMap.{load, store}
use white_noise.Wire.{
  set_session_type, ack_type, data_type, disconnect_type, wake_type, probe_type, success_type,
  other_type, Relay, SetSessionIdMsg, decoded, malformed, or_nil,
}
use white_noise.Session
use white_noise.Session.{
  Role, Stream, Session, Probe, caller_role, entry_role, joint_role, relay_role, answer_role,
  new_session, is_ready, get_pattern,
}
use white_noise.Relay.Buffer.{Taken, publish}
use white_noise.Relay.State.{
  ServiceMode, server_mode, client_mode, boot_mode, circuit_conn_ready, CircuitConn, Env, Manager,
  stream_closed, inbound_started, circuit_cancelled, ack_requested, caller_published,
  answer_published, Effect, read_ended, inbound_stuck, emit, get_session, get_circuit, add_stream,
  add_session_id, add_stream_session_id, delete_stream, add_circuit_conn_answer,
}
use white_noise.Relay.Messages.{new_disconnect, new_circuit_success}
use white_noise.Relay.Sending.{write_msg, send_relay, forward_relay, close_circuit, remove_session}
use white_noise.Relay.Setup.{session_or_new}

abbrev pub is_client : ServiceMode → Bool
is_client client_mode = true
is_client server_mode = false
is_client boot_mode = false

abbrev pub request_ack : Relay → Bool → Bytes → Stream → Manager → Manager
request_ack relay result payload s = emit (
    ack_requested (record { command_id = relay.id; result = result; payload = payload })
      s.remote_peer)

-- `sess.Pair[1] = s`
abbrev pub set_second : List Stream → Stream → List Stream
set_second [] s = []
set_second (a ∷ []) s = a ∷ []
set_second (a ∷ b ∷ r) s = a ∷ s ∷ r

-- The effects of the Reads that got what came.
abbrev pub ended_reads : Bytes → List Taken → List Effect → List Effect
ended_reads sid [] log = log
ended_reads sid (r ∷ rs) log = ended_reads sid rs (read_ended sid r ∷ log)

-- CircuitConn.InboundMsg: the connection is shared with the map, and is changed in place. Where the publisher
-- is stuck, the goroutine that handles the stream stays there, which is an effect; its further messages are
-- not handled.
unfoldable pub inbound_msg : Bytes → CircuitConn → Bytes → Manager → Manager
unfolding publish
inbound_msg sid c msg m =
    let p = publish c.callbacks (c.buffer ++ msg) in
    let log = ended_reads sid p.ended m.log in
    record m {
      circuit_conn_map =
          store m.circuit_conn_map sid (record c { buffer = p.buffer; callbacks = p.callbacks });
      log = if p.is_stuck then inbound_stuck sid ∷ log else log;
    }

-- The end of handleSetSession: the stream joins the session, known or new, and the sender is told.
unfoldable pub expand_plain : Relay → SetSessionIdMsg → Stream → Manager → Manager
expand_plain relay msg s m =
    let sid = msg.session_id in
    let sess = Session.add_stream (session_or_new sid msg.role m) s in
    request_ack relay true [] s
      (add_stream_session_id s.stream_id sid (add_stream s (add_session_id sid sess m)))

module _ (env : Env) where
  open env use {codecs}

  -- The node is both the entry and the relay of the session: the stream to the joint node makes room
  -- for the one from the exit node.
  unfoldable pub replace_joint :
      Relay → Bytes → Session → Stream → Manager → Manager × Outcome (Unit {0})
  replace_joint relay sid sess s m = elim (get_elem? sess.pair 1) [
    | none ↦ (m, panic)
    | some joint ↦
        let told = (write_msg env joint (or_nil (new_disconnect env sid)) m).0 in
        let cut = delete_stream joint.stream_id told in
        let put = add_session_id sid (record sess { pair = set_second sess.pair s }) cut in
        let m' = add_stream_session_id s.stream_id sid (add_stream s put) in
        (request_ack relay true [] s m', ok tt)
  ]

  -- The rest of handleSetSession, after the checks on the client's role.
  unfoldable pub expand_session :
      Relay → SetSessionIdMsg → Stream → Manager → Manager × Outcome (Unit {0})
  unfolding replace_joint
  expand_session relay msg s m = elim (get_session m msg.session_id) [
    | none ↦ (expand_plain relay msg s m, ok tt)
    | some known ↦
        if known.role == entry_role && msg.role == relay_role
        then (if is_ready known
            then replace_joint relay msg.session_id known s m
            else ((close_circuit env msg.session_id m).0, err entry_failed))
        else (expand_plain relay msg s m, ok tt)
  ]

  -- handleSetSession
  unfoldable pub handle_set_session : Relay → Stream → Manager → Manager × Outcome (Unit {0})
  unfolding expand_session
  handle_set_session relay s m = elim (codecs.set_session_id_msg.unmarshal relay.payload) [
    | malformed text _ ↦ (
      request_ack relay false (codes "setSessionIdMsg unmarshall err " ++ text) s m,
      err (unmarshal_set_session text),
    )
    | decoded msg ↦
        if is_client m.role
        then (if msg.role == answer_role
            then expand_session relay msg s (add_circuit_conn_answer msg.session_id m)
            else (request_ack relay false (codes "reject") s m, err reject))
        else expand_session relay msg s m
  ]

  -- A message goes on to the other stream of the session; `on_error` is what an error does.
  unfoldable pub pass_on :
      (Manager → Manager) → Session → Stream → Bytes → Manager → Manager × Outcome (Unit {0})
  pass_on on_error sess s bytes m = elim (get_pattern sess s.stream_id) [
    | err e ↦ (on_error m, err e)
    | panic ↦ (m, panic)
    | ok part ↦
        let (m', e) = write_msg env part bytes m in
        elim e [ none ↦ (m', ok tt) | some e' ↦ (on_error m', err e') ]
  ]

  -- handleRelayMsg
  unfoldable pub handle_relay_msg : Relay → Stream → Bytes → Manager → Manager × Outcome (Unit {0})
  unfolding inbound_msg pass_on
  handle_relay_msg relay s bytes m = elim (codecs.relay_msg.unmarshal relay.payload) [
    | malformed text _ ↦ (m, err (external text))
    | decoded msg ↦ elim (get_session m msg.session_id) [
      | none ↦ (m, ok tt)
      | some sess ↦
          if sess.role == caller_role || sess.role == answer_role
          then (elim (get_circuit m msg.session_id) [
            | none ↦ (m, ok tt)
            | some c ↦ (inbound_msg msg.session_id c msg.payload m, ok tt)
          ])
          else (if is_ready sess
              then pass_on (λ x. (close_circuit env msg.session_id x).0) sess s bytes m
              else (m, ok tt))
    ]
  ]

  -- The joint node's part of handleRelayProbe, which is also handleProbe of manager.go.
  unfoldable pub handle_probe : Probe → Manager → Manager
  handle_probe probe m = elim (load m.probe_map probe.session_id) [
    | none ↦ record m { probe_map = store m.probe_map probe.session_id probe }
    | some p ↦
        if same p.rand probe.rand
        then (send_relay env probe.session_id (new_circuit_success env probe.session_id) m).0
        else (close_circuit env probe.session_id m).0
  ]

  -- handleRelayProbe
  unfoldable pub handle_relay_probe :
      Relay → Stream → Bytes → Manager → Manager × Outcome (Unit {0})
  unfolding handle_probe pass_on
  handle_relay_probe relay s bytes m = elim (codecs.probe_signal.unmarshal relay.payload) [
    | malformed text _ ↦ (m, err (external text))
    | decoded msg ↦ elim (get_session m msg.session_id) [
      | none ↦ (m, ok tt)
      | some sess ↦
          if sess.role == joint_role
          then (handle_probe (record { session_id = msg.session_id; rand = msg.payload }) m, ok tt)
          else (if is_ready sess then pass_on (λ x. x) sess s bytes m else (m, ok tt))
    ]
  ]

  -- handleDisconnect; RemoveSession is deferred.
  unfoldable pub handle_disconnect : Relay → Stream → Bytes → Manager → Manager × Outcome (Unit {0})
  handle_disconnect relay s bytes m = elim (codecs.disconnect.unmarshal relay.payload) [
    | malformed text _ ↦ (m, err (external text))
    | decoded dis ↦ elim (load m.session_map dis.session_id) [
      | none ↦ (remove_session dis.session_id m, err circuit_no_session)
      | some sess ↦
          let (m', e) = forward_relay env dis.session_id bytes s.remote_peer m in
          (remove_session dis.session_id m', returned e)
    ]
  ]

  -- secure.NewSecureSession, and its entry in the map. While the handshake runs, so do the node's
  -- other goroutines.
  unfoldable pub open_secure : Bool → Bytes → Manager → Manager
  open_secure initiator sid m = elim (env.handshake_error m.log sid) [
    | some e ↦ emit (circuit_cancelled sid) (env.meanwhile m)
    | none ↦
        let m' = env.meanwhile m in
        emit (if initiator then caller_published sid else answer_published sid)
          (record m' { secure_conn_map = store m'.secure_conn_map sid initiator })
  ]

  -- NewSecureConnCaller
  unfoldable pub new_secure_conn_caller : CircuitConn → Manager → Manager
  unfolding open_secure
  new_secure_conn_caller conn m = elim (load m.secure_conn_map conn.session_id) [
    | some _ ↦ m
    | none ↦ elim (env.get_peer_id conn.remote_id) [
      | none ↦ m
      | some _ ↦ open_secure true conn.session_id m
    ]
  ]

  -- NewSecureConnAnswer
  unfoldable pub new_secure_conn_answer : CircuitConn → Manager → Manager
  unfolding open_secure
  new_secure_conn_answer conn m = elim (load m.secure_conn_map conn.session_id) [
    | some _ ↦ m
    | none ↦ open_secure false conn.session_id m
  ]

  -- An end of the circuit is ready, and starts the handshake.
  unfoldable pub circuit_ready : Bool → Bytes → Manager → Manager × Outcome (Unit {0})
  unfolding new_secure_conn_caller new_secure_conn_answer
  circuit_ready initiator sid m = elim (load m.circuit_conn_map sid) [
    | none ↦ (m, err circuit_conn_missing)
    | some conn ↦
        let ready = record conn { state = circuit_conn_ready } in
        let m' = record m { circuit_conn_map = store m.circuit_conn_map sid ready } in
        (
          if initiator then new_secure_conn_caller ready m' else new_secure_conn_answer ready m',
          ok tt,
        )
  ]

  -- handleCircuitSuccess
  unfoldable pub handle_circuit_success :
      Relay → Stream → Bytes → Manager → Manager × Outcome (Unit {0})
  unfolding circuit_ready pass_on
  handle_circuit_success relay s bytes m = elim (codecs.circuit_success.unmarshal relay.payload) [
    | malformed text _ ↦ (m, err (external text))
    | decoded succ ↦ elim (get_session m succ.session_id) [
      | none ↦ (m, err (success_no_session succ.session_id))
      | some sess ↦
          if sess.role == caller_role
          then circuit_ready true succ.session_id m
          else if sess.role == answer_role
          then circuit_ready false succ.session_id m
          else if is_ready sess
          then pass_on (λ x. x) sess s bytes m
          else (m, err (success_not_ready succ.session_id))
    ]
  ]

  -- The `switch` of RelayInboundHandler on the type of a message.
  unfoldable pub dispatch : Relay → Stream → Bytes → Manager → Manager × Outcome (Unit {0})
  dispatch relay s bytes m = elim relay.type [
    | set_session_type ↦ handle_set_session relay s m
    | data_type ↦ handle_relay_msg relay s bytes m
    | probe_type ↦ handle_relay_probe relay s bytes m
    | disconnect_type ↦ handle_disconnect relay s bytes m
    | success_type ↦ handle_circuit_success relay s bytes m
    | ack_type ↦ (m, ok tt)
    | wake_type ↦ (m, ok tt)
    | other_type _ ↦ (m, ok tt)
  ]

  -- One message of RelayInboundHandler: an error is logged, and a panic ends the program.
  unfoldable pub inbound : Stream → Bytes → Manager → Outcome Manager
  inbound s bytes m = elim (codecs.relay.unmarshal bytes) [
    | malformed _ _ ↦ ok m
    | decoded relay ↦
        let (m', r) = dispatch relay s bytes m in
        elim r [ ok _ ↦ ok m' | err _ ↦ ok m' | panic ↦ panic ]
  ]

-- What a relay stream's goroutine meets at the top of its loop.
pub data Read : Type 0 where
  context_done : Read
  read_failed : Bytes → Read
  message : Bytes → Read

module _ (env : Env) where
  -- RelayInboundHandler over what it reads; at the end of the list it waits.
  unfoldable pub relay_inbound_handler : Stream → List Read → Manager → Outcome Manager
  relay_inbound_handler s [] m = ok m
  relay_inbound_handler s (context_done ∷ rest) m = ok m
  relay_inbound_handler s (read_failed _ ∷ rest) m = ok (emit (stream_closed s.stream_id) m)
  relay_inbound_handler s (message bytes ∷ rest) m =
      inbound env s bytes m >>= λ m'. relay_inbound_handler s rest m'

-- RelayStreamHandler
unfoldable pub relay_stream_handler : Stream → Manager → Manager
relay_stream_handler s m = emit (inbound_started s.stream_id) (add_stream s m)
