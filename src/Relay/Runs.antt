-- ===== src/Relay/Runs.antt =====
-- protocol/relay: the manager over any interleaving of what the node does with it.
use white_noise.Prelude.{
  ℕ, ◌∙◌, ◌≡◌, refl, subst, [], ◌∷◌, Bytes, some, inl, inr, arith, Option-cases,
}
use white_noise.Errors.{ok}
use white_noise.SyncMap.{load}
use white_noise.Session.{Stream}
use white_noise.Session.Pairing.{IsPaired}
use white_noise.Relay.State.{
  Env, Manager, CircuitConn, StreamInfo, ServiceMode, new_relay_msg_manager,
  add_circuit_conn_caller,
}
use white_noise.Relay.Buffer.{buffer_read}
use white_noise.Relay.Connection.{read_or_subscribe, change_conn, begin_read, time_out_read}
use white_noise.Relay.Inbound.{inbound, relay_stream_handler}
use white_noise.Relay.Actor.{
  Request, req_get_session, req_new_session_to_peer, req_send_relay, req_add_session_id,
  req_close_circuit, req_handle_stream_closed, handle_stream_closed, receive,
}
use white_noise.Relay.Invariant.{
  Inv, new_relay_msg_manager-Inv, store_session-Inv, store_circuit-Inv, delete_stream-Inv,
}
use white_noise.Relay.Invariant.Steps.{
  emit-Inv, add_stream-Inv, add_circuit_conn-Inv, close_circuit-Inv, send_relay-Inv,
}
use white_noise.Relay.Invariant.Handlers.{new_session_to_peer-Inv}
use white_noise.Relay.Invariant.Signals.{inbound-Inv}

-- A request to add a session gives it under its own id, with two streams at most.
abbrev pub IsSound : Request → Type 0
IsSound (req_add_session_id sid s) = (s.id ≡ sid) × IsPaired s
IsSound _ = Unit

-- One step: a request to the actor, a new stream, a message read from a stream, a connection that the
-- node's own client asks for, or a Read of a connection that begins or times out.
pub data Step (env : Env) : Manager → Manager → Type 0 where
  serve : (r : Request) (m : Manager) → IsSound r → Step env m (receive env r m).0
  accept : (s : Stream) (m : Manager) → Step env m (relay_stream_handler s m)
  read :
      (s : Stream) (bytes : Bytes) {m m' : Manager} → inbound env s bytes m ≡ ok m' → Step env m m'
  dial : (sid remote : Bytes) (m : Manager) → Step env m (add_circuit_conn_caller sid remote m)
  begin : (n : ℕ) (sid : Bytes) (m : Manager) → Step env m (begin_read n sid m)
  time_out : (i : ℕ) (sid : Bytes) (m : Manager) → Step env m (time_out_read i sid m)

pub data Reach (env : Env) (m : Manager) : Manager → Type 0 where
  here : Reach env m m
  next : {m' m'' : Manager} → Reach env m m' → Step env m' m'' → Reach env m m''

module _ (env : Env) (quiet : (m : Manager) → Inv m → Inv (env.meanwhile m)) where
  handle_stream_closed-Inv :
      {m : Manager} (id : Bytes) → Inv m → Inv (handle_stream_closed env id m)
  unfolding handle_stream_closed
  handle_stream_closed-Inv {m} id v = elim (Option-cases (load m.stream_map id)) [
    | inl h ↦ rw (h, handle_stream_closed) v
    | inr (info, h) ↦ closed info info.session_id h refl
  ]
    where
      closed :
          (info : StreamInfo) (sid : Bytes)
          → load m.stream_map id ≡ some info
          → info.session_id ≡ sid
          → Inv (handle_stream_closed env id m)
      closed info [] h e = rw (h, e, handle_stream_closed) (delete_stream-Inv id v)
      closed info (c ∷ cs) h e =
          rw (h, e, handle_stream_closed) (delete_stream-Inv id (close_circuit-Inv env (c ∷ cs) v))

  receive-Inv : {m : Manager} (r : Request) → IsSound r → Inv m → Inv (receive env r m).0
  unfolding receive
  receive-Inv (req_get_session id) s v = v
  receive-Inv (req_new_session_to_peer peer sid mine other) s v =
      new_session_to_peer-Inv env quiet peer sid mine other v
  receive-Inv (req_send_relay sid msg) s v = send_relay-Inv env sid msg v
  receive-Inv (req_add_session_id sid x) s v = store_session-Inv sid x s.0 s.1 v
  receive-Inv (req_close_circuit sid) s v = close_circuit-Inv env sid v
  receive-Inv (req_handle_stream_closed id) s v = handle_stream_closed-Inv id v

  change_conn-Inv :
      (f : CircuitConn → CircuitConn)
      → ((c : CircuitConn) → (f c).session_id ≡ c.session_id)
      → {m : Manager} (sid : Bytes) → Inv m
      → Inv (change_conn f sid m)
  unfolding change_conn
  change_conn-Inv f same_id {m} sid v = elim (Option-cases (load m.circuit_conn_map sid)) [
    | inl h ↦ rw (change_conn, h) v
    | inr (c, h) ↦ rw (change_conn, h) (store_circuit-Inv sid _ (same_id c ∙ v.circuits sid c h) v)
  ]

  read_or_subscribe-id :
      (n : ℕ) (c : CircuitConn) → (read_or_subscribe n c).session_id ≡ c.session_id
  unfolding read_or_subscribe
  read_or_subscribe-id n c = elim (Option-cases (buffer_read n c.buffer).error) [
    | inl e ↦ rw (read_or_subscribe, e) refl
    | inr (x, e) ↦ rw (read_or_subscribe, e) refl
  ]

  begin_read-Inv : {m : Manager} (n : ℕ) (sid : Bytes) → Inv m → Inv (begin_read n sid m)
  unfolding begin_read
  begin_read-Inv n sid v = change_conn-Inv (read_or_subscribe n) (read_or_subscribe-id n) sid v

  Step-Inv : {m m' : Manager} → Step env m m' → Inv m → Inv m'
  unfolding relay_stream_handler time_out_read
  Step-Inv (serve r m sound) v = receive-Inv r sound v
  Step-Inv (accept s m) v = emit-Inv _ (add_stream-Inv s v)
  Step-Inv (read s bytes {m = m} e) v =
      let (m1, e1, v1) = inbound-Inv env quiet m s bytes v in subst Inv (ground (arith, e, e1)) v1
  Step-Inv (dial sid remote m) v = add_circuit_conn-Inv sid remote v
  Step-Inv (begin n sid m) v = begin_read-Inv n sid v
  Step-Inv (time_out i sid m) v = change_conn-Inv _ (λ c. refl) sid v

  Reach-Inv : {m m' : Manager} → Inv m → Reach env m m' → Inv m'
  Reach-Inv v here = v
  Reach-Inv v (next r st) = Step-Inv st (Reach-Inv v r)

  -- In every state that a node reaches from a fresh relay manager, by actor requests, accepted
  -- streams, inbound messages, dialled connections and Reads that begin or time out in any order,
  -- every session, connection, stream and probe stands under its own id and no session has more
  -- than two streams, provided that what the other goroutines do while one waits keeps this and
  -- that sessions added by request satisfy it.
  pub reachable-Inv :
      (role : ServiceMode) (local : Bytes) (m : Manager)
      → Reach env (new_relay_msg_manager role local) m
      → Inv m
  reachable-Inv role local m r = Reach-Inv (new_relay_msg_manager-Inv role local) r
