-- ===== src/Relay/State.antt =====
-- protocol/relay/manager.go, connection.go: the state of RelayMsgManager, its environment and the
-- operations on one of its maps.
use white_noise.Prelude.{Bool, Option, none, some, List, [], ◌∷◌, Bytes, replicate}
use white_noise.Errors.{Error}
use white_noise.Wire.{Ack, Hashes, RelayCodecs}
use white_noise.Relay.Buffer.{Callback, Taken}
use white_noise.SyncMap.{SyncMap, empty, load, store, delete, keys}
use white_noise.Session.{Role, Stream, Session, Probe}

-- config.ServiceMode
pub data ServiceMode : Type 0 where
  server_mode client_mode boot_mode : ServiceMode

pub data CircuitConnState : Type 0 where
  circuit_conn_building circuit_conn_ready : CircuitConnState

-- CircuitConn. `buffer` is what its bytes.Buffer holds, oldest byte first. The cancelled context
-- is seen by the handshake alone, and is in the log.
pub record CircuitConn : Type 0 where
  pub local_id : Bytes
  pub remote_id : Bytes
  pub buffer : Bytes
  pub callbacks : List Callback  -- subscribed to the topic, oldest first
  pub session_id : Bytes
  pub state : CircuitConnState

pub record StreamInfo : Type 0 where
  pub stream : Stream
  pub session_id : Bytes

-- What the manager does beyond its maps.
pub data Effect : Type 0 where
  wrote write_failed : Bytes → Bytes → Effect  -- WriteMsg on a stream: its id, the message
  stream_closed : Bytes → Effect  -- Stream.Close
  circuit_cancelled : Bytes → Effect  -- CircuitConn.Close: the session
  opened : Bytes → Bytes → Effect  -- host.NewStream: the peer, the stream
  inbound_started : Bytes → Effect  -- go RelayInboundHandler
  ack_requested : Ack → Bytes → Effect  -- ack.ReqAck to the ack actor: the message, the peer
  task_added task_deleted : Bytes → Effect  -- ack.ReqAddTask, ack.ReqDeleteTask
  read_ended : Bytes → Taken → Effect  -- a Read that waited on a session's connection
  inbound_stuck : Bytes → Effect  -- InboundMsg, which never returns: the session
  caller_published answer_published : Bytes → Effect  -- the event bus: the session

pub record Manager : Type 0 where
  pub circuit_conn_map : SyncMap CircuitConn
  pub secure_conn_map : SyncMap Bool  -- the session's *SecureSession: is it the initiator
  pub stream_map : SyncMap StreamInfo
  pub session_map : SyncMap Session
  pub probe_map : SyncMap Probe
  pub role : ServiceMode
  pub local_id : Bytes  -- Account.GetPublicKey().GetWhiteNoiseID()
  pub log : List Effect  -- newest first

pub record AckResult : Type 0 where
  pub ok : Bool
  pub payload : Bytes

-- What the node's surroundings answer. They may answer anew each time: they see the log so far.
pub record Env : Type 0 where
  pub hashes : Hashes
  pub codecs : RelayCodecs
  pub write_error : List Effect → Bytes → Option Error  -- of WriteMsg on a stream
  pub new_stream_error : List Effect → Bytes → Option Error  -- of host.NewStream to a peer
  pub new_stream : List Effect → Bytes → Stream  -- the stream that host.NewStream returns
  pub ack_result : List Effect → Bytes → Option AckResult  -- to a command; `none` is a timeout
  pub meanwhile : Manager → Manager  -- what the other goroutines do while this one waits
  pub get_peer_id : Bytes → Option Bytes  -- WhiteNoiseID.GetPeerID, `none` where it is an error
  pub handshake_error : List Effect → Bytes → Option Error  -- of secure.NewSecureSession

-- NewRelayMsgManager
unfoldable pub new_relay_msg_manager : ServiceMode → Bytes → Manager
new_relay_msg_manager role local = record {
  circuit_conn_map = empty;
  secure_conn_map = empty;
  stream_map = empty;
  session_map = empty;
  probe_map = empty;
  role = role;
  local_id = local;
  log = [];
}

abbrev pub emit : Effect → Manager → Manager
emit e m = record m { log = e ∷ m.log }

-- GetSession
abbrev pub get_session : Manager → Bytes → Option Session
get_session m sid = load m.session_map sid

-- GetCircuit
abbrev pub get_circuit : Manager → Bytes → Option CircuitConn
get_circuit m sid = load m.circuit_conn_map sid

-- GetSecureConn
abbrev pub get_secure_conn : Manager → Bytes → Option Bool
get_secure_conn m sid = load m.secure_conn_map sid

-- GetStream
abbrev pub get_stream : Manager → Bytes → Option StreamInfo
get_stream m id = load m.stream_map id

-- AddSessionId
abbrev pub add_session_id : Bytes → Session → Manager → Manager
add_session_id sid s m = record m { session_map = store m.session_map sid s }

-- AddStream
abbrev pub add_stream : Stream → Manager → Manager
add_stream s m = record m {
  stream_map = store m.stream_map s.stream_id (record { stream = s; session_id = [] });
}

-- AddStreamSessionID
unfoldable pub add_stream_session_id : Bytes → Bytes → Manager → Manager
add_stream_session_id id sid m = elim (load m.stream_map id) [
  | none ↦ m
  | some info ↦ record m { stream_map = store m.stream_map id (record info { session_id = sid }) }
]

-- DeleteStream
abbrev pub delete_stream : Bytes → Manager → Manager
delete_stream id m = record m { stream_map = delete m.stream_map id }

-- SetRole
unfoldable pub set_role : Bytes → Role → Manager → Manager
set_role sid role m = elim (load m.session_map sid) [
  | none ↦ m
  | some s ↦ record m { session_map = store m.session_map sid (record s { role = role }) }
]

-- NewCircuitConn
abbrev pub new_circuit_conn : Manager → Bytes → Bytes → CircuitConn
new_circuit_conn m sid remote = record {
  local_id = m.local_id;
  remote_id = remote;
  buffer = [];
  callbacks = [];
  session_id = sid;
  state = circuit_conn_building;
}

-- AddCircuitConnCaller
unfoldable pub add_circuit_conn_caller : Bytes → Bytes → Manager → Manager
add_circuit_conn_caller sid remote m = elim (load m.circuit_conn_map sid) [
  | some c ↦ m
  | none ↦ record m {
    circuit_conn_map = store m.circuit_conn_map sid (new_circuit_conn m sid remote);
  }
]

-- The zero WhiteNoiseID.
abbrev pub zero_id : Bytes
zero_id = replicate 34 0

-- AddCircuitConnAnswer
unfoldable pub add_circuit_conn_answer : Bytes → Manager → Manager
unfolding add_circuit_conn_caller
add_circuit_conn_answer sid m = add_circuit_conn_caller sid zero_id m

-- GetSessionIDList
unfoldable pub get_session_id_list : Manager → List Bytes
get_session_id_list m = keys m.session_map
