-- ===== src/Relay/Invariant.antt =====
-- protocol/relay: what holds of the manager's maps between any two steps of the node.
pub mod Steps
pub mod Handlers
pub mod Inbound
pub mod Signals
use white_noise.Prelude.{
  ◌≡◌, refl, Bool, true, false, Option, none, some, List, [], ◌∷◌, arith, Bytes, same, same_iff,
  Bool-cases, inl, inr, if◌then◌else◌,
}
use mathlib.Core.Path.{subst₂}
use white_noise.SyncMap.{SyncMap, load, store, delete, load-store, load-delete, load-empty}
use white_noise.Session.{Stream, Session, Probe}
use white_noise.Session.Pairing.{IsPaired}
use white_noise.Relay.State.{
  Manager, CircuitConn, StreamInfo, Effect, ServiceMode, new_relay_msg_manager,
}
use white_noise.Relay.Sending.Removal.{with_log, Removed}

-- Every entry of the map satisfies the predicate at its key.
abbrev pub Entries : {V : Type 0} → SyncMap V → (Bytes → V → Type 0) → Type 0
Entries {V} m P = (k : Bytes) (v : V) → load m k ≡ some v → P k v

-- Each entry is about its key, and a session has two streams at most.
pub record Inv (m : Manager) : Type 0 where
  pub sessions : Entries m.session_map (λ k s. (s.id ≡ k) × IsPaired s)
  pub circuits : Entries m.circuit_conn_map (λ k c. c.session_id ≡ k)
  pub streams : Entries m.stream_map (λ k i. i.stream.stream_id ≡ k)
  pub probes : Entries m.probe_map (λ k p. p.session_id ≡ k)

pub Entries-store :
    {V : Type 0} (P : Bytes → V → Type 0) (m : SyncMap V) (k : Bytes) (v : V)
    → P k v
    → Entries m P
    → Entries (store m k v) P
Entries-store P m k v new old j w h = elim (Bool-cases (same k j)) [
  | inl e ↦ subst₂ P ((same_iff k j).0 e) (ground (arith, load-store m k j v)) new
  | inr e ↦ old j w (ground (arith, load-store m k j v))
]

pub Entries-removed :
    {V : Type 0} (P : Bytes → V → Type 0) (m m' : SyncMap V) (sid : Bytes)
    → ((j : Bytes) → load m' j ≡ (if same sid j then none else load m j))
    → Entries m P
    → Entries m' P
Entries-removed P m m' sid gone old j w h = elim (Bool-cases (same sid j)) [
  | inl e ↦ cc (e, gone j)
  | inr e ↦ old j w (ground (arith, gone j))
]

Entries-deleted :
    {V : Type 0} (P : Bytes → V → Type 0) (m : SyncMap V) (sid : Bytes)
    → Entries m P
    → Entries (delete m sid) P
Entries-deleted P m sid = Entries-removed P m (delete m sid) sid (load-delete m sid)

-- A fresh manager has no entries.
pub new_relay_msg_manager-Inv :
    (role : ServiceMode) (local : Bytes) → Inv (new_relay_msg_manager role local)
unfolding new_relay_msg_manager
new_relay_msg_manager-Inv role local = record {
  sessions = λ k v h. cc (load-empty {V = Session} k);
  circuits = λ k v h. cc (load-empty {V = CircuitConn} k);
  streams = λ k v h. cc (load-empty {V = StreamInfo} k);
  probes = λ k v h. cc (load-empty {V = Probe} k);
}

-- What keeps the invariant: another log, a removed session, and a new entry about its key.
pub with_log-Inv : {m m' : Manager} (l : List Effect) → m' ≡ with_log m l → Inv m → Inv m'
with_log-Inv l e v = rw e (record {
  sessions = v.sessions;
  circuits = v.circuits;
  streams = v.streams;
  probes = v.probes;
})

pub Removed-Inv : {sid : Bytes} {m m' : Manager} → Removed sid m m' → Inv m → Inv m'
Removed-Inv {sid} {m} {m'} r v = record {
  sessions =
      Entries-removed (λ k s. (s.id ≡ k) × IsPaired s) m.session_map m'.session_map sid r.sessions
        v.sessions;
  circuits =
      Entries-removed (λ k c. c.session_id ≡ k) m.circuit_conn_map m'.circuit_conn_map sid
        r.circuits v.circuits;
  streams = rw r.streams v.streams;
  probes = Entries-removed (λ k p. p.session_id ≡ k) m.probe_map m'.probe_map sid r.probes v.probes;
}

pub store_session-Inv :
    {m : Manager} (sid : Bytes) (s : Session)
    → s.id ≡ sid
    → IsPaired s
    → Inv m
    → Inv (record m { session_map = store m.session_map sid s })
store_session-Inv {m} sid s e p v = record {
  sessions = Entries-store (λ k x. (x.id ≡ k) × IsPaired x) m.session_map sid s (e, p) v.sessions;
  circuits = v.circuits;
  streams = v.streams;
  probes = v.probes;
}

pub store_stream-Inv :
    {m : Manager} (id : Bytes) (i : StreamInfo)
    → i.stream.stream_id ≡ id
    → Inv m
    → Inv (record m { stream_map = store m.stream_map id i })
store_stream-Inv {m} id i e v = record {
  sessions = v.sessions;
  circuits = v.circuits;
  streams = Entries-store (λ k x. x.stream.stream_id ≡ k) m.stream_map id i e v.streams;
  probes = v.probes;
}

pub delete_stream-Inv :
    {m : Manager} (id : Bytes) → Inv m → Inv (record m { stream_map = delete m.stream_map id })
delete_stream-Inv {m} id v = record {
  sessions = v.sessions;
  circuits = v.circuits;
  streams = Entries-deleted (λ k x. x.stream.stream_id ≡ k) m.stream_map id v.streams;
  probes = v.probes;
}

pub store_circuit-Inv :
    {m : Manager} (sid : Bytes) (c : CircuitConn)
    → c.session_id ≡ sid
    → Inv m
    → Inv (record m { circuit_conn_map = store m.circuit_conn_map sid c })
store_circuit-Inv {m} sid c e v = record {
  sessions = v.sessions;
  circuits = Entries-store (λ k x. x.session_id ≡ k) m.circuit_conn_map sid c e v.circuits;
  streams = v.streams;
  probes = v.probes;
}

pub store_probe-Inv :
    {m : Manager} (p : Probe)
    → Inv m
    → Inv (record m { probe_map = store m.probe_map p.session_id p })
store_probe-Inv {m} p v = record {
  sessions = v.sessions;
  circuits = v.circuits;
  streams = v.streams;
  probes = Entries-store (λ k x. x.session_id ≡ k) m.probe_map p.session_id p refl v.probes;
}

pub store_secure-Inv :
    {m : Manager} (sid : Bytes) (b : Bool)
    → Inv m
    → Inv (record m { secure_conn_map = store m.secure_conn_map sid b })
store_secure-Inv sid b v = record {
  sessions = v.sessions;
  circuits = v.circuits;
  streams = v.streams;
  probes = v.probes;
}
