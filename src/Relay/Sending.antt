-- ===== src/Relay/Sending.antt =====
-- protocol/relay/manager.go: SendRelay, ForwardRelay, SendDisconnectRelay, CloseCircuit and
-- RemoveSession. A method that returns an `error` gives the new manager and the error, if any.
pub mod Removal
pub mod Writes
pub mod Sends
use white_noise.Prelude.{Option, none, some, List, [], ◌∷◌, Bytes, same, if◌then◌else◌}
use white_noise.Errors.{Error, relay_no_session, empty_pair, circuit_no_session, external}
use white_noise.SyncMap.{load, delete}
use white_noise.Session.{Stream}
use white_noise.Relay.State.{
  Env, Manager, wrote, write_failed, stream_closed, circuit_cancelled, emit, get_session,
}
use white_noise.Relay.Messages.{new_disconnect}

-- Stream.Close of each stream of a pair.
unfoldable pub close_streams : List Stream → Manager → Manager
close_streams [] m = m
close_streams (x ∷ xs) m = close_streams xs (emit (stream_closed x.stream_id) m)

-- SecureSession.Close closes the circuit connection under it.
unfoldable pub remove_secure : Bytes → Manager → Manager
remove_secure sid m = elim (load m.secure_conn_map sid) [
  | none ↦ m
  | some s ↦
      emit (circuit_cancelled sid) (record m { secure_conn_map = delete m.secure_conn_map sid })
]

unfoldable pub remove_circuit : Bytes → Manager → Manager
remove_circuit sid m = elim (load m.circuit_conn_map sid) [
  | none ↦ m
  | some c ↦
      emit (circuit_cancelled sid) (record m { circuit_conn_map = delete m.circuit_conn_map sid })
]

unfoldable pub remove_pair : Bytes → Manager → Manager
remove_pair sid m = elim (load m.session_map sid) [
  | none ↦ m
  | some s ↦
      let m' = close_streams s.pair m in record m' { session_map = delete m'.session_map sid }
]

-- RemoveSession
unfoldable pub remove_session : Bytes → Manager → Manager
remove_session sid m =
    let m' = remove_pair sid (remove_circuit sid (remove_secure sid m)) in
    record m' { probe_map = delete m'.probe_map sid }

module _ (env : Env) where
  -- stream.RW.WriteMsg
  unfoldable pub write_msg : Stream → Bytes → Manager → Manager × Option Error
  write_msg x msg m = elim (env.write_error m.log x.stream_id) [
    | none ↦ (emit (wrote x.stream_id msg) m, none)
    | some e ↦ (emit (write_failed x.stream_id msg) m, some e)
  ]

  -- The loop of SendRelay: it stops at the first error.
  unfoldable pub write_all : List Stream → Bytes → Manager → Manager × Option Error
  write_all [] msg m = (m, none)
  write_all (x ∷ xs) msg m =
      let (m', e) = write_msg x msg m in
      let rest = write_all xs msg m' in elim e [ none ↦ rest | some e' ↦ (m', some e') ]

  -- The loop of ForwardRelay: it passes over the streams of the peer `from`.
  unfoldable pub write_others : List Stream → Bytes → Bytes → Manager → Manager × Option Error
  write_others [] msg from m = (m, none)
  write_others (x ∷ xs) msg from m =
      let (m', e) = write_msg x msg m in
      let rest = write_others xs msg from m' in
      let skip = write_others xs msg from m in
      if same x.remote_peer from then skip else elim e [ none ↦ rest | some e' ↦ (m', some e') ]

  -- The loop of SendDisconnectRelay: it goes on after an error.
  unfoldable pub write_each : List Stream → Bytes → Manager → Manager
  write_each [] msg m = m
  write_each (x ∷ xs) msg m = write_each xs msg (write_msg x msg m).0

  -- SendDisconnectRelay
  unfoldable pub send_disconnect_relay : Bytes → Manager → Manager × Option Error
  send_disconnect_relay sid m = elim (new_disconnect env sid) [
    | none ↦ (m, some (external []))
    | some msg ↦ elim (get_session m sid) [
      | none ↦ (m, some relay_no_session)
      | some s ↦ elim s.pair [
        | [] ↦ (m, some empty_pair)
        | x ∷ xs ↦ (write_each (x ∷ xs) msg m, none)
      ]
    ]
  ]

  -- CloseCircuit; RemoveSession is deferred.
  unfoldable pub close_circuit : Bytes → Manager → Manager × Option Error
  close_circuit sid m = elim (load m.session_map sid) [
    | none ↦ (remove_session sid m, some circuit_no_session)
    | some s ↦ let (m', e) = send_disconnect_relay sid m in (remove_session sid m', e)
  ]

  -- The deferred call of SendRelay and ForwardRelay: an error closes the circuit.
  abbrev close_on_error : Bytes → Manager × Option Error → Manager × Option Error
  close_on_error sid (m, none) = (m, none)
  close_on_error sid (m, some e) = ((close_circuit sid m).0, some e)

  send_body : Bytes → Bytes → Manager → Manager × Option Error
  send_body sid msg m = elim (get_session m sid) [
    | none ↦ (m, some relay_no_session)
    | some s ↦ elim s.pair [ [] ↦ (m, some empty_pair) | x ∷ xs ↦ write_all (x ∷ xs) msg m ]
  ]

  -- SendRelay
  unfoldable pub send_relay : Bytes → Bytes → Manager → Manager × Option Error
  unfolding send_body
  send_relay sid msg m = close_on_error sid (send_body sid msg m)

  forward_body : Bytes → Bytes → Bytes → Manager → Manager × Option Error
  forward_body sid msg from m = elim (get_session m sid) [
    | none ↦ (m, some relay_no_session)
    | some s ↦ elim s.pair [ [] ↦ (m, some empty_pair) | x ∷ xs ↦ write_others (x ∷ xs) msg from m ]
  ]

  -- ForwardRelay
  unfoldable pub forward_relay : Bytes → Bytes → Bytes → Manager → Manager × Option Error
  unfolding forward_body
  forward_relay sid msg from m = close_on_error sid (forward_body sid msg from m)
