-- ===== src/Relay/Connection.antt =====
-- protocol/relay/connection.go: the connection that a client has over a circuit.
use white_noise.Prelude.{
  true, List, false, ℕ, zero, suc, ◌≤◌, ◌<◌, ◌≡◌, ◌≢◌, ◌⊎◌, Option, none, some, [], ◌∷◌, ◌++◌,
  Bytes, length,
}
use white_noise.Errors.{Error}
use white_noise.SyncMap.{store}
use white_noise.Relay.Buffer.{Callback, Taken, eof, buffer_read}
use white_noise.Relay.State.{Env, Manager, CircuitConn, get_circuit}
use white_noise.Relay.Messages.{new_relay_msg}
use white_noise.Relay.Sending.{send_relay}

-- CircuitConn.Write: the manager, the count and the error.
unfoldable pub conn_write : Env → CircuitConn → Bytes → Manager → Manager × ℕ × Option Error
conn_write env c b m =
    let (m', e) = send_relay env c.session_id (new_relay_msg env b c.session_id) m in
    (m', length b, e)

-- What a Read comes to: what it took, and the callbacks that it leaves behind.
pub record Read : Type 0 where
  pub taken : Taken
  pub left : List Callback

-- The second read, when a message came while the first one waited; at the timeout the callback stays.
abbrev pub read_again : ℕ → Taken → Option Bytes → Read
read_again n r none = record { taken = r; left = record { size = n; is_awaited = false } ∷ [] }
read_again n r (some msg) = record { taken = buffer_read n (r.buffer ++ msg); left = [] }

-- SafeBuffer.Read, which is CircuitConn.Read, where no other callback waits: at the end it waits for the next
-- InboundMsg, `arrived`, or for the timeout.
unfoldable pub conn_read : ℕ → Option Bytes → Bytes → Read
unfolding buffer_read
conn_read n arrived buffer =
    let r = buffer_read n buffer in
    elim r.error [ none ↦ record { taken = r; left = [] } | some _ ↦ read_again n r arrived ]

-- SafeBuffer.Read until it returns or waits: it takes from the buffer, or it subscribes its callback.
unfoldable pub read_or_subscribe : ℕ → CircuitConn → CircuitConn
unfolding buffer_read
read_or_subscribe n c =
    let r = buffer_read n c.buffer in
    elim r.error [
      | none ↦ record c { buffer = r.buffer }
      | some _ ↦ record c {
        callbacks = c.callbacks ++ (record { size = n; is_awaited = true } ∷ []);
      }
    ]

-- The `i`-th callback's Read times out, and leaves it behind.
unfoldable pub give_up : ℕ → List Callback → List Callback
give_up i [] = []
give_up zero (c ∷ callbacks) = record c { is_awaited = false } ∷ callbacks
give_up (suc i) (c ∷ callbacks) = c ∷ give_up i callbacks

-- What a Read does to the connection of a session, which the map shares.
unfoldable pub change_conn : (CircuitConn → CircuitConn) → Bytes → Manager → Manager
change_conn f sid m = elim (get_circuit m sid) [
  | none ↦ m
  | some c ↦ record m { circuit_conn_map = store m.circuit_conn_map sid (f c) }
]

unfoldable pub begin_read : ℕ → Bytes → Manager → Manager
unfolding change_conn read_or_subscribe
begin_read n = change_conn (read_or_subscribe n)

unfoldable pub time_out_read : ℕ → Bytes → Manager → Manager
unfolding change_conn give_up
time_out_read i = change_conn λ c. record c { callbacks = give_up i c.callbacks }

-- A read took the front of some bytes.
abbrev pub Took : ℕ → Bytes → Taken → Type 0
Took n bytes r =
    (r.error ≡ none) × (bytes ≡ r.out ++ r.buffer) × (0 < length r.out) × (length r.out ≤ n)

-- What a read into `n` bytes comes to: it takes from what waits, or from the message that arrives; or it
-- is at the end, when none arrives or an empty one.
abbrev pub Reads : ℕ → Option Bytes → Bytes → Read → Type 0
Reads n arrived buffer r =
    ((buffer ≢ []) × Took n buffer r.taken × (r.left ≡ []))
    ⊎ ((msg : Bytes) × (buffer ≡ [])
        × (arrived ≡ some msg)
        × (msg ≢ [])
        × Took n msg r.taken
        × (r.left ≡ []))
    ⊎ ((buffer ≡ [])
        × (r.taken ≡ record { buffer = []; out = []; error = some eof })
        × (((arrived ≡ some []) × (r.left ≡ []))
            ⊎ ((arrived ≡ none) × (r.left ≡ record { size = n; is_awaited = false } ∷ []))))
