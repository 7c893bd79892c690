-- ===== src/Relay/Reception.antt =====
-- protocol/relay/connection.go: what becomes of the bytes of a message that comes to a connection on which Reads
-- wait.
use white_noise.Prelude.{◌≡◌, Bool, true, false, ◌&&◌, some, List, [], ◌∷◌, ◌++◌, Bytes, length}
use white_noise.SyncMap.{load}
use white_noise.Relay.Buffer.{Callback, Taken, Published}
use white_noise.Relay.State.{Manager, CircuitConn}
use white_noise.Relay.Inbound.{ended_reads}

-- Whether each callback's Read still waits.
abbrev pub all_awaited : List Callback → Bool
all_awaited [] = true
all_awaited (c ∷ callbacks) = c.is_awaited && all_awaited callbacks

abbrev out_of : List Taken → Bytes
out_of [] = []
out_of (r ∷ rs) = r.out ++ out_of rs

-- Every callback ran, and nothing got lost.
abbrev Splits : List Callback → Bytes → Published → Type 0
Splits callbacks bytes p =
    (p.is_stuck ≡ false)
    × (p.callbacks ≡ [])
    × (length p.ended ≡ length callbacks)
    × (out_of p.ended ++ p.buffer ≡ bytes)

-- The Reads that waited got what came, in their order, and the rest is in the buffer.
abbrev pub HandsOver : Bytes → CircuitConn → Bytes → Manager → Manager → Type 0
HandsOver sid c msg m m' =
    (ended : List Taken) × (rest : Bytes) × (m'.log ≡ ended_reads sid ended m.log)
    × (load m'.circuit_conn_map sid ≡ some (record c { buffer = rest; callbacks = [] }))
    × (length ended ≡ length c.callbacks)
    × (out_of ended ++ rest ≡ c.buffer ++ msg)
