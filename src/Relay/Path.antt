-- ===== src/Relay/Path.antt =====
-- A circuit as the chain of the nodes that relay it: what the first node is sent, and what leaves the
-- last one. Each node has its own manager and surroundings.
use white_noise.Prelude.{
  ◌≡◌, refl, Option, none, some, List, [], ◌∷◌, arith, Bytes, same, same_refl, if◌then◌else◌, All,
}
use white_noise.Errors.{ok, err, panic}
use white_noise.SyncMap.{load}
use white_noise.Session.{Stream, Session}
use white_noise.Relay.State.{Env, Manager, Effect, wrote}
use white_noise.Relay.Inbound.{inbound}
use white_noise.Relay.Forwarding.{DataCodecs, DataMsg, IsRelayed, relay_forwards}

-- A node on the way, with the streams on which the message comes and goes.
pub record Hop : Type 0 where
  pub env : Env
  pub manager : Manager
  pub session : Session
  pub near : Stream
  pub far : Stream

-- What was last written to a stream, if that was the last thing that happened.
abbrev pub last_write : Bytes → List Effect → Option Bytes
last_write id (wrote at bytes ∷ l) = if same at id then some bytes else none
last_write id _ = none

-- The bytes that leave the last node when `bytes` reach the first.
pub carry : List Hop → Bytes → Option Bytes
carry [] bytes = some bytes
carry (h ∷ hs) bytes = elim (inbound h.env h.near bytes h.manager) [
  | err _ ↦ none
  | panic ↦ none
  | ok m ↦ elim (last_write h.far.stream_id m.log) [ none ↦ none | some next ↦ carry hs next ]
]

-- The node relays the session, its codecs are lossless, and its writes succeed.
pub record Relays (sid payload bytes : Bytes) (h : Hop) : Type 0 where
  pub known : load h.manager.session_map sid ≡ some h.session
  pub relayed : IsRelayed h.session h.near h.far
  pub codecs : DataCodecs h.env
  pub message : DataMsg h.env sid payload bytes
  pub healthy : (l : List Effect) (id : Bytes) → h.env.write_error l id ≡ none

-- Through any number of relaying nodes, each of which knows the session with two distinct
-- streams, is neither its caller nor its answer, has lossless codecs that make the message's
-- bytes of the payload, and meets no write error, a data message arrives as exactly the bytes
-- that were sent.
pub carry_unchanged :
    (sid payload bytes : Bytes) (hops : List Hop)
    → All (Relays sid payload bytes) hops
    → carry hops bytes ≡ some bytes
unfolding carry
carry_unchanged sid payload bytes [] r = refl
carry_unchanged sid payload bytes (h ∷ hs) (r, rs) =
    let sent =
      (relay_forwards h.env sid payload bytes r.codecs r.message h.manager h.near h.near h.far
          h.session r.known r.relayed r.healthy).0
        refl in
    ground (arith, sent, same_refl h.far.stream_id, carry_unchanged sid payload bytes hs rs)
