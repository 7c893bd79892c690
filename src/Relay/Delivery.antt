-- ===== src/Relay/Delivery.antt =====
-- protocol/relay: a circuit as a byte stream, from CircuitConn.Write at one end, through the nodes that
-- relay it, to the buffer that CircuitConn.Read takes from at the other.
use white_noise.Prelude.{
  ◌≡◌, refl, sym, ap, ◌∙◌, ◌⊎◌, Option, none, some, List, [], ◌∷◌, ◌++◌, arith, Bytes, same_refl,
  concat, All,
}
use white_noise.Errors.{ok, err, panic}
use white_noise.SyncMap.{load, store, load-store}
use white_noise.Session.{Stream, Session, caller_role, answer_role}
use white_noise.Relay.Buffer.{publish}
use white_noise.Relay.State.{Env, Manager, CircuitConn, Effect, wrote}
use white_noise.Relay.Sending.Removal.{with_log}
use white_noise.Relay.Sending.Sends.{send_relay_healthy}
use white_noise.Relay.Inbound.{inbound_msg, inbound}
use white_noise.Relay.Forwarding.{DataCodecs, DataMsg, new_relay_msg-DataMsg, end_delivers}
use white_noise.Relay.Path.{Hop, Relays, last_write, carry, carry_unchanged}
use white_noise.Relay.Connection.{conn_write}
use mathlib.Core.List.{append_assoc, append-nil}

-- The two ends of a circuit and the nodes between: the stream on which each end has the circuit.
pub record Circuit : Type 0 where
  pub env : Env
  pub conn : CircuitConn
  pub near : Stream
  pub hops : List Hop
  pub end_env : Env
  pub far : Stream

-- A Write at one end, what the nodes between make of the message, and its handling at the other end: the
-- managers of the two ends.
pub transmit : Circuit → Bytes → Manager → Manager → Option (Manager × Manager)
transmit c payload m m' =
    let w = conn_write c.env c.conn payload m in
    elim (last_write c.near.stream_id w.0.log) [
      | none ↦ none
      | some sent ↦ elim (carry c.hops sent) [
        | none ↦ none
        | some got ↦ elim (inbound c.end_env c.far got m') [
          | err _ ↦ none
          | panic ↦ none
          | ok m'' ↦ some (w.0, m'')
        ]
      ]
    ]

pub transmit_all : Circuit → List Bytes → Manager → Manager → Option Manager
transmit_all c [] m m' = some m'
transmit_all c (payload ∷ payloads) m m' = elim (transmit c payload m m') [
  | none ↦ none
  | some next ↦ transmit_all c payloads next.0 next.1
]

-- A payload that the codecs of the whole circuit can carry, through healthy nodes that relay it.
pub record IsCarried (c : Circuit) (payload : Bytes) : Type 0 where
  pub bytes : Bytes
  pub made : DataMsg c.env c.conn.session_id payload bytes
  pub read : DataMsg c.end_env c.conn.session_id payload bytes
  pub relayed : All (Relays c.conn.session_id payload bytes) c.hops

-- What waits in the buffer of a session's connection, on which no callback of a Read is subscribed.
abbrev pub HasBuffer : Bytes → Bytes → Manager → Type 0
HasBuffer sid bytes m =
    (conn : CircuitConn) × (load m.circuit_conn_map sid ≡ some conn)
    × (conn.buffer ≡ bytes)
    × (conn.callbacks ≡ [])

-- A message that comes to a connection on which no callback is subscribed.
arrives :
    (sid payload : Bytes) (conn : CircuitConn) (m : Manager)
    → conn.callbacks ≡ []
    → inbound_msg sid conn payload m ≡ record m {
      circuit_conn_map =
          store m.circuit_conn_map sid
            (record conn { buffer = conn.buffer ++ payload; callbacks = [] });
    }
unfolding inbound_msg publish
arrives sid payload conn m e = rw (inbound_msg, e, publish) refl

module _ (c : Circuit) (codecs : DataCodecs c.end_env)
    (healthy : (l : List Effect) (id : Bytes) → c.env.write_error l id ≡ none) where
  transmit_lem :
      (payload : Bytes) (m m' : Manager) (s s' : Session) (conn : CircuitConn)
      (p : IsCarried c payload)
      → load m.session_map c.conn.session_id ≡ some s
      → s.pair ≡ c.near ∷ []
      → load m'.session_map c.conn.session_id ≡ some s'
      → ((s'.role ≡ caller_role) ⊎ (s'.role ≡ answer_role))
      → load m'.circuit_conn_map c.conn.session_id ≡ some conn
      → transmit c payload m m'
        ≡ some (
          with_log m (wrote c.near.stream_id p.bytes ∷ m.log),
          inbound_msg c.conn.session_id conn payload m',
        )
  unfolding transmit conn_write
  transmit_lem payload m m' s s' conn p known pair known' role there =
      rw
        (
          transmit,
          conn_write,
          new_relay_msg-DataMsg c.env c.conn.session_id payload p.bytes p.made,
          send_relay_healthy c.env c.conn.session_id p.bytes m s c.near [] healthy known pair,
          pair,
          same_refl c.near.stream_id,
          carry_unchanged c.conn.session_id payload p.bytes c.hops p.relayed,
          end_delivers c.end_env c.conn.session_id payload p.bytes codecs p.read m' c.far s' conn
              known' role there,
        )
        (rw
          (
            new_relay_msg-DataMsg c.env c.conn.session_id payload p.bytes p.made,
            send_relay_healthy c.env c.conn.session_id p.bytes m s c.near [] healthy known pair,
            pair,
          )
          refl)

  -- Whatever list of payloads is written at one end of a circuit, by CircuitConn.Write calls that
  -- reach the other end one after the other, while no callback of a Read is subscribed on the
  -- connection there, the buffer of the other end's connection holds afterwards what it held and
  -- then all payloads in their order, when the writer's session has the one stream to the
  -- circuit, the other end knows the session as its caller or answer and has the connection
  -- without a subscribed callback, and the payloads are carried: the codecs are lossless and
  -- marshal them, no write fails, and each node between relays the session between two distinct
  -- streams.
  pub transmit_all-concat :
      (payloads : List Bytes) (m m' : Manager) (s s' : Session) (before : Bytes)
      → All (IsCarried c) payloads
      → load m.session_map c.conn.session_id ≡ some s
      → s.pair ≡ c.near ∷ []
      → load m'.session_map c.conn.session_id ≡ some s'
      → ((s'.role ≡ caller_role) ⊎ (s'.role ≡ answer_role))
      → HasBuffer c.conn.session_id before m'
      → (m'' : Manager) × (transmit_all c payloads m m' ≡ some m'')
        × HasBuffer c.conn.session_id (before ++ concat payloads) m''
  unfolding transmit_all
  transmit_all-concat [] m m' s s' before carried known pair known' role (conn, there, e, quiet) =
      (m', refl, (conn, there, e ∙ sym (append-nil before), quiet))
  transmit_all-concat (payload ∷ payloads) m m' s s' before (p, carried) known pair known' role
        (conn, there, e, quiet) =
      let conn' : CircuitConn = record conn { buffer = conn.buffer ++ payload; callbacks = [] } in
      let next : Manager = record m' {
        circuit_conn_map = store m'.circuit_conn_map c.conn.session_id conn';
      } in
      let (m'', r, (conn'', there'', e'', quiet'')) =
        transmit_all-concat payloads (with_log m (wrote c.near.stream_id p.bytes ∷ m.log)) next s s'
          (before ++ payload) carried known pair known' role
          (
            conn',
            ground (
              arith,
              load-store m'.circuit_conn_map c.conn.session_id c.conn.session_id conn',
              same_refl c.conn.session_id,
            ),
            ap (λ b. b ++ payload) e,
            refl,
          ) in
      (
        m'',
        rw
            (
              transmit_all,
              transmit_lem payload m m' s s' conn p known pair known' role there,
              arrives c.conn.session_id payload conn m' quiet,
            )
            r,
        (conn'', there'', e'' ∙ append_assoc before payload (concat payloads), quiet''),
      )
