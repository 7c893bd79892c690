-- ===== src/Examples/RelayNodes.antt =====
-- A relaying node, a joint node and an end of a circuit, with healthy surroundings.
use white_noise.Prelude.{ℕ, ◌≡◌, refl, true, none, some, [], ◌∷◌, arith, Bytes, same_iff}
use white_noise.Errors.{ok}
use white_noise.SyncMap.{empty, load, store, load-store, load-empty}
use white_noise.Wire.{data_type, probe_type, or_nil}
use white_noise.Session.{Stream, Session, Probe}
use white_noise.Relay.State.{
  Env, Manager, CircuitConn, server_mode, circuit_conn_building, new_relay_msg_manager,
}
use white_noise.Relay.Messages.{identified, new_probe_signal, new_circuit_success}
use white_noise.Relay.Sending.{send_relay}
use white_noise.Relay.Sending.Removal.{with_log}
use white_noise.Relay.Sending.Writes.{after_writes}
use white_noise.Relay.Sending.Sends.{send_relay_healthy}
use white_noise.Relay.Actor.{req_new_session_to_peer, receive}
use white_noise.Relay.Inbound.{inbound, relay_stream_handler}
use white_noise.Relay.Invariant.{Inv, new_relay_msg_manager-Inv}
use white_noise.Relay.Invariant.Signals.{inbound-Inv}
use white_noise.Relay.Runs.{here, next, serve, accept, reachable-Inv}
use white_noise.Relay.Forwarding.{DataCodecs, DataMsg, IsRelayed}
use white_noise.Relay.Path.{Hop, Relays, carry, carry_unchanged}
use white_noise.Relay.Rendezvous.{probes_meet}
use white_noise.Examples.Codecs.{
  sample_codecs, sample_hashes, relay_codec-IsLossless, relay_msg_codec-IsLossless,
  probe_codec-IsLossless,
}

abbrev pub sid : Bytes
sid = 7 ∷ []

abbrev pub left : Stream
left = record { stream_id = 1 ∷ []; remote_peer = 101 ∷ [] }

abbrev pub right : Stream
right = record { stream_id = 2 ∷ []; remote_peer = 102 ∷ [] }

abbrev pub healthy_env : Env
healthy_env = record {
  hashes = sample_hashes;
  codecs = sample_codecs;
  write_error = λ l id. none;
  new_stream_error = λ l p. none;
  new_stream = λ l p. record { stream_id = 9 ∷ p; remote_peer = p };
  ack_result = λ l id. some (record { ok = true; payload = [] });
  meanwhile = λ m. m;
  get_peer_id = λ id. some id;
  handshake_error = λ l id. none;
}

abbrev pub session_of : ℕ → Session
session_of role = record { id = sid; pair = left ∷ right ∷ []; role = role }

abbrev pub sample_conn : CircuitConn
sample_conn = record {
  local_id = [];
  remote_id = [];
  buffer = 5 ∷ [];
  callbacks = [];
  session_id = sid;
  state = circuit_conn_building;
}

abbrev pub node_of : ℕ → Manager
node_of role = record {
  circuit_conn_map = store empty sid sample_conn;
  secure_conn_map = empty;
  stream_map = empty;
  session_map = store empty sid (session_of role);
  probe_map = empty;
  role = server_mode;
  local_id = [];
  log = [];
}

pub node-session : (role : ℕ) → load (node_of role).session_map sid ≡ some (session_of role)
node-session role =
    ground (arith, load-store {V = Session} empty sid sid (session_of role), same_iff sid sid)

abbrev pub payload : Bytes
payload = 42 ∷ []

abbrev inner : Bytes
inner = 1 ∷ 7 ∷ 42 ∷ []

abbrev pub data_bytes : Bytes
data_bytes = or_nil (sample_codecs.relay.marshal (identified healthy_env data_type inner))

pub sample_DataCodecs : DataCodecs healthy_env
sample_DataCodecs = record {
  relay_lossless = relay_codec-IsLossless;
  relay_msg_lossless = relay_msg_codec-IsLossless;
}

pub sample_DataMsg : DataMsg healthy_env sid payload data_bytes
sample_DataMsg = record { inner = inner; inner_marshals = refl; outer_marshals = refl }

relayed : IsRelayed (session_of 4) left right
relayed = record {
  pair = refl;
  distinct = λ e. cc;
  not_caller = omega arith;
  not_answer = omega arith;
}

pub node-circuit : (role : ℕ) → load (node_of role).circuit_conn_map sid ≡ some sample_conn
node-circuit role =
    ground (arith, load-store {V = CircuitConn} empty sid sid sample_conn, same_iff sid sid)

abbrev pub hop : Hop
hop = record {
  env = healthy_env;
  manager = node_of 4;
  session = session_of 4;
  near = left;
  far = right;
}

pub hop-Relays : Relays sid payload data_bytes hop
hop-Relays = record {
  known = node-session 4;
  relayed = relayed;
  codecs = sample_DataCodecs;
  message = sample_DataMsg;
  healthy = λ l id. refl;
}

carry_unchanged_example : carry (hop ∷ hop ∷ []) data_bytes ≡ some data_bytes
carry_unchanged_example =
    carry_unchanged sid payload data_bytes (hop ∷ hop ∷ []) (hop-Relays, (hop-Relays, tt))

abbrev probe_bytes : Bytes
probe_bytes =
    or_nil (sample_codecs.relay.marshal (identified healthy_env probe_type (1 ∷ 7 ∷ 7 ∷ [])))

probes_meet_example :
    let probe : Probe = record { session_id = sid; rand = sid } in
    let kept = record (node_of 3) { probe_map = store empty sid probe } in
    (inbound healthy_env left probe_bytes (node_of 3) ≡ ok kept)
    × (inbound healthy_env right probe_bytes kept
        ≡ ok (
            with_log kept
              (after_writes (left ∷ right ∷ []) (new_circuit_success healthy_env sid) [])))
unfolding new_probe_signal
probes_meet_example =
    probes_meet healthy_env sid _ (node_of 3) left right left right (session_of 3)
      (record { relay_lossless = relay_codec-IsLossless; probe_lossless = probe_codec-IsLossless })
      (λ l id. refl) refl (node-session 3) refl refl (load-empty sid)

send_relay_healthy_example :
    send_relay healthy_env sid payload (node_of 2)
    ≡ (with_log (node_of 2) (after_writes (left ∷ right ∷ []) payload []), none)
send_relay_healthy_example =
    send_relay_healthy healthy_env sid payload (node_of 2) (session_of 2) left (right ∷ [])
      (λ l id. refl) (node-session 2) refl

inbound-Inv_example :
    (m : Manager) × (inbound healthy_env left data_bytes (new_relay_msg_manager server_mode [])
      ≡ ok m)
    × Inv m
inbound-Inv_example =
    inbound-Inv healthy_env (λ m v. v) (new_relay_msg_manager server_mode []) left data_bytes
      (new_relay_msg_manager-Inv server_mode [])

reachable-Inv_example :
    Inv
      (receive healthy_env
        (req_new_session_to_peer (101 ∷ []) sid 2 3)
        (relay_stream_handler left (new_relay_msg_manager server_mode []))).0
reachable-Inv_example =
    reachable-Inv healthy_env (λ m v. v) server_mode []
      (receive healthy_env (req_new_session_to_peer (101 ∷ []) sid 2 3)
        (relay_stream_handler left (new_relay_msg_manager server_mode []))).0
      (next (next here (accept left (new_relay_msg_manager server_mode []))) (
        serve (req_new_session_to_peer (101 ∷ []) sid 2 3)
          (relay_stream_handler left (new_relay_msg_manager server_mode [])) tt))
