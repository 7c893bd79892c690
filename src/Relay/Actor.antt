-- ===== src/Relay/Actor.antt =====
-- protocol/relay/actor.go: the requests that the relay actor serves, one at a time.
use white_noise.Prelude.{Option, none, some, [], ◌∷◌, Bytes}
use white_noise.Errors.{Error}
use white_noise.Session.{Role, Session}
use white_noise.Relay.State.{Env, Manager, get_session, get_stream, add_session_id, delete_stream}
use white_noise.Relay.Sending.{send_relay, close_circuit}
use white_noise.Relay.Setup.{new_session_to_peer}

pub data Request : Type 0 where
  req_get_session : Bytes → Request
  req_new_session_to_peer : Bytes → Bytes → Role → Role → Request  -- peer, session, my role, other
  req_send_relay : Bytes → Bytes → Request
  req_add_session_id : Bytes → Session → Request
  req_close_circuit : Bytes → Request
  req_handle_stream_closed : Bytes → Request

pub data Response : Type 0 where
  res_get_session : Option Session → Response
  res_error : Option Error → Response
  no_response : Response

module _ (env : Env) where
  -- ReqHandleStreamClosed
  unfoldable pub handle_stream_closed : Bytes → Manager → Manager
  handle_stream_closed id m = elim (get_stream m id) [
    | none ↦ m
    | some info ↦ elim info.session_id [
      | [] ↦ delete_stream id m
      | c ∷ cs ↦ delete_stream id (close_circuit env (c ∷ cs) m).0
    ]
  ]

  -- Receive
  unfoldable pub receive : Request → Manager → Manager × Response
  unfolding handle_stream_closed
  receive (req_get_session id) m = (m, res_get_session (get_session m id))
  receive (req_new_session_to_peer peer sid mine other) m =
      let (m', e) = new_session_to_peer env peer sid mine other m in (m', res_error e)
  receive (req_send_relay sid msg) m = let (m', e) = send_relay env sid msg m in (m', res_error e)
  receive (req_add_session_id sid s) m = (add_session_id sid s m, no_response)
  receive (req_close_circuit sid) m = ((close_circuit env sid m).0, no_response)
  receive (req_handle_stream_closed id) m = (handle_stream_closed id m, no_response)
