-- ===== src/Examples/Circuits.antt =====
-- Data over a circuit of one relaying node.
use white_noise.Prelude.{true, ◌≡◌, refl, inr, Option, none, some, [], ◌∷◌, Bytes, arith, same_iff}
use white_noise.SyncMap.{load, store, empty, load-store}
use white_noise.Session.{Session}
use white_noise.Relay.State.{Manager}
use white_noise.Relay.State.{CircuitConn}
use white_noise.Relay.Delivery.{Circuit, IsCarried, transmit_all, transmit_all-concat, HasBuffer}
use white_noise.Examples.RelayNodes.{
  sid, left, session_of, node_of, node-session, node-circuit, healthy_env, sample_conn, payload,
  data_bytes, sample_DataCodecs, sample_DataMsg, hop, hop-Relays,
}

abbrev circuit : Circuit
circuit = record {
  env = healthy_env;
  conn = sample_conn;
  near = left;
  hops = hop ∷ [];
  end_env = healthy_env;
  far = left;
}

abbrev caller_session : Session
caller_session = record (session_of 1) { pair = left ∷ [] }

abbrev caller_node : Manager
caller_node = record (node_of 1) { session_map = store empty sid caller_session }

caller-session : load caller_node.session_map sid ≡ some caller_session
caller-session =
    ground (arith, load-store {V = Session} empty sid sid caller_session, same_iff sid sid)

carried : IsCarried circuit payload
carried = record {
  bytes = data_bytes;
  made = sample_DataMsg;
  read = sample_DataMsg;
  relayed = (hop-Relays, tt);
}

transmit_all-concat_example :
    (m : Manager) × (transmit_all circuit (payload ∷ payload ∷ []) caller_node (node_of 6) ≡ some m)
    × HasBuffer sid (5 ∷ 42 ∷ 42 ∷ []) m
transmit_all-concat_example =
    transmit_all-concat circuit sample_DataCodecs (λ l id. refl) (payload ∷ payload ∷ [])
      caller_node (node_of 6) caller_session (session_of 6) (5 ∷ []) (carried, (carried, tt))
      caller-session refl (node-session 6) (inr refl) (sample_conn, node-circuit 6, refl, refl)

abbrev waiting : Bytes
waiting = 7 ∷ 8 ∷ []

abbrev nothing_new : Option Bytes
nothing_new = none

-- A connection on which two Reads wait, each for two bytes.
abbrev waited_conn : CircuitConn
waited_conn = record sample_conn {
  callbacks = record { size = 2; is_awaited = true } ∷ record { size = 2; is_awaited = true } ∷ [];
}
