-- ===== src/Relay/Sending/Removal.antt =====
-- protocol/relay/manager.go: what RemoveSession and CloseCircuit leave in the maps.
use white_noise.Prelude.{
  ◌≡◌, refl, none, List, [], ◌∷◌, arith, Bytes, same, same_iff, if◌then◌else◌, inl, inr,
  Option-cases,
}
use white_noise.SyncMap.{load, delete, load-delete}
use white_noise.Session.{Stream}
use white_noise.Relay.State.{Manager, Effect}
use white_noise.Relay.Sending.{
  close_streams, remove_secure, remove_circuit, remove_pair, remove_session,
}

-- The manager with another log.
abbrev pub with_log : Manager → List Effect → Manager
with_log m l = record m { log = l }

pub close_streams_log_only :
    (xs : List Stream) (m : Manager) → close_streams xs m ≡ with_log m (close_streams xs m).log
unfolding close_streams
close_streams_log_only [] m = refl
close_streams_log_only (x ∷ xs) m = close_streams_log_only xs _

-- `m'` is `m` without the session `sid`: the session, its connections and its probe are gone, and
-- the entries of all other sessions, the streams, the mode and the identity are as in `m`.
pub record Removed (sid : Bytes) (m m' : Manager) : Type 0 where
  pub sessions :
      (j : Bytes) → load m'.session_map j ≡ (if same sid j then none else load m.session_map j)
  pub circuits :
      (j : Bytes)
      → load m'.circuit_conn_map j ≡ (if same sid j then none else load m.circuit_conn_map j)
  pub secures :
      (j : Bytes)
      → load m'.secure_conn_map j ≡ (if same sid j then none else load m.secure_conn_map j)
  pub probes : (j : Bytes) → load m'.probe_map j ≡ (if same sid j then none else load m.probe_map j)
  pub streams : m'.stream_map ≡ m.stream_map
  pub role : m'.role ≡ m.role
  pub local_id : m'.local_id ≡ m.local_id

remove_secure_lem :
    (sid j : Bytes) (m : Manager)
    → let m' = remove_secure sid m in
      (load m'.secure_conn_map j ≡ (if same sid j then none else load m.secure_conn_map j))
      × (m' ≡ record m { secure_conn_map = m'.secure_conn_map; log = m'.log })
unfolding remove_secure
remove_secure_lem sid j m =
    (ground (arith, load-delete m.secure_conn_map sid j, same_iff sid j), ground arith)

remove_circuit_lem :
    (sid j : Bytes) (m : Manager)
    → let m' = remove_circuit sid m in
      (load m'.circuit_conn_map j ≡ (if same sid j then none else load m.circuit_conn_map j))
      × (m' ≡ record m { circuit_conn_map = m'.circuit_conn_map; log = m'.log })
unfolding remove_circuit
remove_circuit_lem sid j m =
    (ground (arith, load-delete m.circuit_conn_map sid j, same_iff sid j), ground arith)

remove_found :
    (sid j : Bytes) (xs : List Stream) (m : Manager)
    → let m' = close_streams xs m in
      load (delete m'.session_map sid) j ≡ (if same sid j then none else load m.session_map j)
remove_found sid j xs m = rw (close_streams_log_only xs m) (load-delete m.session_map sid j)

remove_pair_lem :
    (sid j : Bytes) (m : Manager)
    → let m' = remove_pair sid m in
      (load m'.session_map j ≡ (if same sid j then none else load m.session_map j))
      × (m' ≡ record m { session_map = m'.session_map; log = m'.log })
unfolding remove_pair
remove_pair_lem sid j m = elim (Option-cases (load m.session_map sid)) [
  | inl e ↦ (ground (arith, same_iff sid j), ground arith)
  | inr (s, e) ↦
      (ground (arith, remove_found sid j s.pair m), ground (arith, close_streams_log_only s.pair m))
]

-- RemoveSession removes the session, its connection and its secure connection from the maps, and
-- no entry of another session.
pub remove_session-Removed : (sid : Bytes) (m : Manager) → Removed sid m (remove_session sid m)
unfolding remove_session
remove_session-Removed sid m = record {
  sessions = λ j. ground (
    arith,
    remove_secure_lem sid j m,
    remove_circuit_lem sid j (remove_secure sid m),
    remove_pair_lem sid j (remove_circuit sid (remove_secure sid m)),
  );
  circuits = λ j. ground (
    arith,
    remove_secure_lem sid j m,
    remove_circuit_lem sid j (remove_secure sid m),
    remove_pair_lem sid j (remove_circuit sid (remove_secure sid m)),
  );
  secures = λ j. ground (
    arith,
    remove_secure_lem sid j m,
    remove_circuit_lem sid j (remove_secure sid m),
    remove_pair_lem sid j (remove_circuit sid (remove_secure sid m)),
  );
  probes = λ j. ground (
    arith,
    remove_secure_lem sid j m,
    remove_circuit_lem sid j (remove_secure sid m),
    remove_pair_lem sid j (remove_circuit sid (remove_secure sid m)),
    load-delete m.probe_map sid j,
  );
  streams = ground (
    arith,
    remove_secure_lem sid [] m,
    remove_circuit_lem sid [] (remove_secure sid m),
    remove_pair_lem sid [] (remove_circuit sid (remove_secure sid m)),
  );
  role = ground (
    arith,
    remove_secure_lem sid [] m,
    remove_circuit_lem sid [] (remove_secure sid m),
    remove_pair_lem sid [] (remove_circuit sid (remove_secure sid m)),
  );
  local_id = ground (
    arith,
    remove_secure_lem sid [] m,
    remove_circuit_lem sid [] (remove_secure sid m),
    remove_pair_lem sid [] (remove_circuit sid (remove_secure sid m)),
  );
}
