-- ===== src/Relay/Forwarding.antt =====
-- protocol/relay/relay.go: a data message on its way through a circuit, from CircuitConn.Write at one
-- end to the buffer of the connection at the other.
use white_noise.Prelude.{
  ◌≡◌, ◌≢◌, refl, true, none, some, List, [], ◌∷◌, arith, Bytes, same_iff, ◌⊎◌,
}
use white_noise.Errors.{ok}
use white_noise.SyncMap.{load}
use white_noise.Wire.{data_type, Relay, IsLossless, decoded}
use white_noise.Session.{Stream, Session, is_ready, caller_role, answer_role, get_pattern}
use white_noise.Session.Pairing.{get_pattern_ready}
use white_noise.Relay.State.{Env, Manager, CircuitConn, Effect, wrote}
use white_noise.Relay.Messages.{identified, new_relay_msg}
use white_noise.Relay.Sending.{write_msg}
use white_noise.Relay.Sending.Removal.{with_log}
use white_noise.Relay.Inbound.{inbound_msg, pass_on, handle_relay_msg, dispatch, inbound}

-- The bytes of a data message for a session, where both of its layers marshal.
pub record DataMsg (env : Env) (sid payload bytes : Bytes) : Type 0 where
  pub inner : Bytes
  pub inner_marshals :
      env.codecs.relay_msg.marshal (record { session_id = sid; payload = payload }) ≡ some inner
  pub outer_marshals : env.codecs.relay.marshal (identified env data_type inner) ≡ some bytes

-- The codecs that a data message passes read back what they wrote.
pub record DataCodecs (env : Env) : Type 0 where
  pub relay_lossless : IsLossless env.codecs.relay
  pub relay_msg_lossless : IsLossless env.codecs.relay_msg

-- NewRelayMsg builds such bytes.
pub new_relay_msg-DataMsg :
    (env : Env) (sid payload bytes : Bytes)
    → DataMsg env sid payload bytes
    → new_relay_msg env payload sid ≡ bytes
unfolding new_relay_msg
new_relay_msg-DataMsg env sid payload bytes d = rw (d.inner_marshals, d.outer_marshals)

-- A relaying node's view of a session: two streams with distinct ids, and no end of the circuit.
pub record IsRelayed (sess : Session) (a b : Stream) : Type 0 where
  pub pair : sess.pair ≡ a ∷ b ∷ []
  pub distinct : a.stream_id ≢ b.stream_id
  pub not_caller : sess.role ≢ caller_role
  pub not_answer : sess.role ≢ answer_role

module _ (env : Env) (sid payload bytes : Bytes) (c : DataCodecs env)
    (d : DataMsg env sid payload bytes) where
  abbrev message : Relay
  message = identified env data_type d.inner

  reads_outer : env.codecs.relay.unmarshal bytes ≡ decoded message
  reads_outer = c.relay_lossless.reads_back _ _ d.outer_marshals

  reads_inner :
      env.codecs.relay_msg.unmarshal d.inner
      ≡ decoded (record { session_id = sid; payload = payload })
  reads_inner = c.relay_msg_lossless.reads_back _ _ d.inner_marshals

  forwards_to :
      (m : Manager) (s part : Stream) (sess : Session)
      → load m.session_map sid ≡ some sess
      → sess.role ≢ caller_role
      → sess.role ≢ answer_role
      → is_ready sess ≡ true
      → get_pattern sess s.stream_id ≡ ok part
      → env.write_error m.log part.stream_id ≡ none
      → inbound env s bytes m ≡ ok (with_log m (wrote part.stream_id bytes ∷ m.log))
  unfolding inbound dispatch handle_relay_msg pass_on write_msg
  forwards_to m s part sess h nc na r g w = ground (arith, reads_outer, reads_inner)

  -- A node in the middle of a circuit passes a data message on: what comes from one stream of the
  -- session goes, unchanged, to the other one, and nothing else happens.
  pub relay_forwards :
      (m : Manager) (s a b : Stream) (sess : Session)
      → load m.session_map sid ≡ some sess
      → IsRelayed sess a b
      → ((l : List Effect) (id : Bytes) → env.write_error l id ≡ none)
      → (s.stream_id ≡ a.stream_id
          → inbound env s bytes m ≡ ok (with_log m (wrote b.stream_id bytes ∷ m.log)))
        × (s.stream_id ≡ b.stream_id
            → inbound env s bytes m ≡ ok (with_log m (wrote a.stream_id bytes ∷ m.log)))
  relay_forwards m s a b sess h i healthy = (
    λ e.
        forwards_to m s b sess h i.not_caller i.not_answer (rw i.pair refl)
          (ground (
            arith,
            get_pattern_ready sess s.stream_id a b i.pair,
            same_iff a.stream_id s.stream_id,
          ))
          (healthy m.log b.stream_id),
    λ e.
        forwards_to m s a sess h i.not_caller i.not_answer (rw i.pair refl)
          (ground (
            arith,
            get_pattern_ready sess s.stream_id a b i.pair,
            same_iff a.stream_id s.stream_id,
            same_iff b.stream_id s.stream_id,
          ))
          (healthy m.log a.stream_id),
  )

  -- At an end of the circuit the payload is given to the connection.
  pub end_delivers :
      (m : Manager) (s : Stream) (sess : Session) (conn : CircuitConn)
      → load m.session_map sid ≡ some sess
      → ((sess.role ≡ caller_role) ⊎ (sess.role ≡ answer_role))
      → load m.circuit_conn_map sid ≡ some conn
      → inbound env s bytes m ≡ ok (inbound_msg sid conn payload m)
  unfolding inbound dispatch handle_relay_msg
  end_delivers m s sess conn h role k = ground (arith, reads_outer, reads_inner)
