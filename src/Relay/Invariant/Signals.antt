-- ===== src/Relay/Invariant/Signals.antt =====
-- protocol/relay/relay.go: the handlers of data, probes, disconnects and success signals keep the
-- invariant, and so do the inbound goroutine and the relay actor.
use white_noise.Prelude.{
  ◌≡◌, refl, Bool, true, false, List, [], ◌∷◌, Bytes, inl, inr, Option-cases, Bool-cases, same,
  ◌==◌, ◌||◌,
}
use white_noise.Errors.{ok, Outcome-cases, returned-ne-panic}
use white_noise.SyncMap.{load}
use white_noise.Wire.{
  set_session_type, ack_type, data_type, disconnect_type, wake_type, probe_type, success_type,
  other_type, Relay, RelayType, Decoded-cases,
}
use white_noise.Session.{
  Stream, Session, Probe, is_ready, caller_role, answer_role, joint_role, get_pattern,
}
use white_noise.Session.Pairing.{get_pattern-ne-panic}
use white_noise.Relay.State.{Env, Manager, CircuitConn, circuit_conn_ready}
use white_noise.Relay.Sending.{write_msg}
use white_noise.Relay.Inbound.{
  inbound_msg, pass_on, handle_relay_msg, handle_probe, handle_relay_probe, handle_disconnect,
  open_secure, new_secure_conn_caller, new_secure_conn_answer, circuit_ready,
  handle_circuit_success, dispatch, inbound, Read, context_done, read_failed, message,
  relay_inbound_handler,
}
use white_noise.Relay.Invariant.{
  Inv, store_circuit-Inv, with_log-Inv, store_probe-Inv, store_secure-Inv,
}
use white_noise.Relay.Invariant.Steps.{
  emit-Inv, write_msg-Inv, close_circuit-Inv, remove_session-Inv, send_relay-Inv, forward_relay-Inv,
}
use white_noise.Relay.Invariant.Inbound.{Good, handle_set_session-Inv}

module _ (env : Env) (quiet : (m : Manager) → Inv m → Inv (env.meanwhile m)) where
  pass_on-Inv :
      {m : Manager} (on_error : Manager → Manager) (sess : Session) (s : Stream) (bytes : Bytes)
      → ((x : Manager) → Inv x → Inv (on_error x))
      → Inv m
      → Good (pass_on env on_error sess s bytes m)
  unfolding pass_on
  pass_on-Inv {m} on_error sess s bytes keeps v =
      elim (Outcome-cases (get_pattern sess s.stream_id)) [
        | inr (inr h) ↦ absurd (get_pattern-ne-panic sess s.stream_id h)
        | inr (inl (e, h)) ↦ rw (h, pass_on) (keeps m v, λ p. cc)
        | inl (part, h) ↦
            let told = write_msg-Inv env part bytes v in
            elim (Option-cases (write_msg env part bytes m).1) [
              | inl w ↦ rw (h, w, pass_on) (told, λ p. cc)
              | inr (e, w) ↦ rw (h, w, pass_on) (keeps _ told, λ p. cc)
            ]
      ]

  handle_relay_msg-Inv :
      {m : Manager} (relay : Relay) (s : Stream) (bytes : Bytes)
      → Inv m
      → Good (handle_relay_msg env relay s bytes m)
  unfolding handle_relay_msg inbound_msg
  handle_relay_msg-Inv {m} relay s bytes v =
      elim (Decoded-cases (env.codecs.relay_msg.unmarshal relay.payload)) [
        | inr (t, _, h) ↦ rw (h, handle_relay_msg) (v, λ p. cc)
        | inl (msg, h) ↦ elim (Option-cases (load m.session_map msg.session_id)) [
          | inl k ↦ rw (h, k, handle_relay_msg) (v, λ p. cc)
          | inr (sess, k) ↦
              elim (Bool-cases (sess.role == caller_role || sess.role == answer_role)) [
                | inl end ↦ elim (Option-cases (load m.circuit_conn_map msg.session_id)) [
                  | inl c ↦ rw (h, k, end, c, handle_relay_msg) (v, λ p. cc)
                  | inr (conn, c) ↦
                      rw (h, k, end, c, handle_relay_msg)
                        (
                          with_log-Inv _ refl
                              (store_circuit-Inv msg.session_id _ (v.circuits _ conn c) v),
                          λ p. cc,
                        )
                ]
                | inr mid ↦ elim (Bool-cases (is_ready sess)) [
                  | inr r ↦ rw (h, k, mid, r, handle_relay_msg) (v, λ p. cc)
                  | inl r ↦
                      rw (h, k, mid, r, handle_relay_msg)
                        (pass_on-Inv _ sess s bytes (λ x. close_circuit-Inv env msg.session_id) v)
                ]
              ]
        ]
      ]

  handle_probe-Inv : {m : Manager} (probe : Probe) → Inv m → Inv (handle_probe env probe m)
  unfolding handle_probe
  handle_probe-Inv {m} probe v = elim (Option-cases (load m.probe_map probe.session_id)) [
    | inl h ↦ rw (h, handle_probe) (store_probe-Inv probe v)
    | inr (p, h) ↦ elim (Bool-cases (same p.rand probe.rand)) [
      | inl e ↦ rw (h, e, handle_probe) (send_relay-Inv env probe.session_id _ v)
      | inr e ↦ rw (h, e, handle_probe) (close_circuit-Inv env probe.session_id v)
    ]
  ]

  handle_relay_probe-Inv :
      {m : Manager} (relay : Relay) (s : Stream) (bytes : Bytes)
      → Inv m
      → Good (handle_relay_probe env relay s bytes m)
  unfolding handle_relay_probe
  handle_relay_probe-Inv {m} relay s bytes v =
      elim (Decoded-cases (env.codecs.probe_signal.unmarshal relay.payload)) [
        | inr (t, _, h) ↦ rw (h, handle_relay_probe) (v, λ p. cc)
        | inl (msg, h) ↦ elim (Option-cases (load m.session_map msg.session_id)) [
          | inl k ↦ rw (h, k, handle_relay_probe) (v, λ p. cc)
          | inr (sess, k) ↦ elim (Bool-cases (sess.role == joint_role)) [
            | inl j ↦ rw (h, k, j, handle_relay_probe) (handle_probe-Inv _ v, λ p. cc)
            | inr j ↦ elim (Bool-cases (is_ready sess)) [
              | inr r ↦ rw (h, k, j, r, handle_relay_probe) (v, λ p. cc)
              | inl r ↦
                  rw (h, k, j, r, handle_relay_probe) (pass_on-Inv _ sess s bytes (λ x y. y) v)
            ]
          ]
        ]
      ]

  handle_disconnect-Inv :
      {m : Manager} (relay : Relay) (s : Stream) (bytes : Bytes)
      → Inv m
      → Good (handle_disconnect env relay s bytes m)
  unfolding handle_disconnect
  handle_disconnect-Inv {m} relay s bytes v =
      elim (Decoded-cases (env.codecs.disconnect.unmarshal relay.payload)) [
        | inr (t, _, h) ↦ rw (h, handle_disconnect) (v, λ p. cc)
        | inl (dis, h) ↦ elim (Option-cases (load m.session_map dis.session_id)) [
          | inl k ↦ rw (h, k, handle_disconnect) (remove_session-Inv env dis.session_id v, λ p. cc)
          | inr (sess, k) ↦
              rw (h, k, handle_disconnect)
                (
                  remove_session-Inv env dis.session_id
                      (forward_relay-Inv env dis.session_id bytes s.remote_peer v),
                  returned-ne-panic _,
                )
        ]
      ]

  open_secure-Inv :
      {m : Manager} (initiator : Bool) (sid : Bytes) → Inv m → Inv (open_secure env initiator sid m)
  unfolding open_secure
  open_secure-Inv {m} initiator sid v = elim (Option-cases (env.handshake_error m.log sid)) [
    | inr (e, h) ↦ rw (h, open_secure) (emit-Inv _ (quiet m v))
    | inl h ↦
        rw (h, open_secure)
          (emit-Inv _ (store_secure-Inv {m = env.meanwhile m} sid initiator (quiet m v)))
  ]

  new_secure_conn_caller-Inv :
      {m : Manager} (conn : CircuitConn) → Inv m → Inv (new_secure_conn_caller env conn m)
  unfolding new_secure_conn_caller
  new_secure_conn_caller-Inv {m} conn v =
      elim (Option-cases (load m.secure_conn_map conn.session_id)) [
        | inr (b, h) ↦ rw (h, new_secure_conn_caller) v
        | inl h ↦ elim (Option-cases (env.get_peer_id conn.remote_id)) [
          | inl g ↦ rw (h, g, new_secure_conn_caller) v
          | inr (peer, g) ↦
              rw (h, g, new_secure_conn_caller) (open_secure-Inv true conn.session_id v)
        ]
      ]

  new_secure_conn_answer-Inv :
      {m : Manager} (conn : CircuitConn) → Inv m → Inv (new_secure_conn_answer env conn m)
  unfolding new_secure_conn_answer
  new_secure_conn_answer-Inv {m} conn v =
      elim (Option-cases (load m.secure_conn_map conn.session_id)) [
        | inr (b, h) ↦ rw (h, new_secure_conn_answer) v
        | inl h ↦ rw (h, new_secure_conn_answer) (open_secure-Inv false conn.session_id v)
      ]

  circuit_ready-Inv :
      {m : Manager} (initiator : Bool) (sid : Bytes)
      → Inv m
      → Good (circuit_ready env initiator sid m)
  unfolding circuit_ready
  circuit_ready-Inv {m} initiator sid v = elim (Option-cases (load m.circuit_conn_map sid)) [
    | inl h ↦ rw (h, circuit_ready) (v, λ p. cc)
    | inr (conn, h) ↦
        let ready = record conn { state = circuit_conn_ready } in
        let stored = store_circuit-Inv sid ready (v.circuits _ conn h) v in
        elim (Bool-cases initiator) [
          | inl i ↦ rw (h, i, circuit_ready) (new_secure_conn_caller-Inv ready stored, λ p. cc)
          | inr i ↦ rw (h, i, circuit_ready) (new_secure_conn_answer-Inv ready stored, λ p. cc)
        ]
  ]

  handle_circuit_success-Inv :
      {m : Manager} (relay : Relay) (s : Stream) (bytes : Bytes)
      → Inv m
      → Good (handle_circuit_success env relay s bytes m)
  unfolding handle_circuit_success
  handle_circuit_success-Inv {m} relay s bytes v =
      elim (Decoded-cases (env.codecs.circuit_success.unmarshal relay.payload)) [
        | inr (t, _, h) ↦ rw (h, handle_circuit_success) (v, λ p. cc)
        | inl (succ, h) ↦ elim (Option-cases (load m.session_map succ.session_id)) [
          | inl k ↦ rw (h, k, handle_circuit_success) (v, λ p. cc)
          | inr (sess, k) ↦ elim (Bool-cases (sess.role == caller_role)) [
            | inl c ↦
                rw (h, k, c, handle_circuit_success) (circuit_ready-Inv true succ.session_id v)
            | inr c ↦ elim (Bool-cases (sess.role == answer_role)) [
              | inl a ↦
                  rw (h, k, c, a, handle_circuit_success)
                    (circuit_ready-Inv false succ.session_id v)
              | inr a ↦ elim (Bool-cases (is_ready sess)) [
                | inr r ↦ rw (h, k, c, a, r, handle_circuit_success) (v, λ p. cc)
                | inl r ↦
                    rw (h, k, c, a, r, handle_circuit_success)
                      (pass_on-Inv _ sess s bytes (λ x y. y) v)
              ]
            ]
          ]
        ]
      ]

  dispatch-Inv :
      {m : Manager} (type : RelayType) (relay : Relay) (s : Stream) (bytes : Bytes)
      → relay.type ≡ type
      → Inv m
      → Good (dispatch env relay s bytes m)
  unfolding dispatch
  dispatch-Inv set_session_type relay s bytes e v =
      rw (e, dispatch) (handle_set_session-Inv env quiet relay s v)
  dispatch-Inv data_type relay s bytes e v = rw (e, dispatch) (handle_relay_msg-Inv relay s bytes v)
  dispatch-Inv probe_type relay s bytes e v =
      rw (e, dispatch) (handle_relay_probe-Inv relay s bytes v)
  dispatch-Inv disconnect_type relay s bytes e v =
      rw (e, dispatch) (handle_disconnect-Inv relay s bytes v)
  dispatch-Inv success_type relay s bytes e v =
      rw (e, dispatch) (handle_circuit_success-Inv relay s bytes v)
  dispatch-Inv ack_type relay s bytes e v = rw (e, dispatch) (v, λ p. cc)
  dispatch-Inv wake_type relay s bytes e v = rw (e, dispatch) (v, λ p. cc)
  dispatch-Inv (other_type n) relay s bytes e v = rw (e, dispatch) (v, λ p. cc)

  -- When the other goroutines keep the invariant, a relay message of any type and content, well-
  -- formed or not, is handled without a panic and leaves a manager in which every session,
  -- connection, stream and probe stands under its own id and no session has more than two
  -- streams, when it was so before.
  pub inbound-Inv :
      (m : Manager) (s : Stream) (bytes : Bytes)
      → Inv m
      → (m' : Manager) × (inbound env s bytes m ≡ ok m') × Inv m'
  unfolding inbound
  inbound-Inv m s bytes v = elim (Decoded-cases (env.codecs.relay.unmarshal bytes)) [
    | inr (t, _, h) ↦ (m, rw (h, inbound), v)
    | inl (relay, h) ↦
        let done = dispatch-Inv {m = m} relay.type relay s bytes refl v in
        elim (Outcome-cases (dispatch env relay s bytes m).1) [
          | inl (u, r) ↦ ((dispatch env relay s bytes m).0, rw (h, r, inbound), done.0)
          | inr (inl (e, r)) ↦ ((dispatch env relay s bytes m).0, rw (h, r, inbound), done.0)
          | inr (inr r) ↦ absurd (done.1 r)
        ]
  ]

  -- So does the goroutine of a stream, over all that it reads.
  pub relay_inbound_handler-Inv :
      (m : Manager) (s : Stream) (reads : List Read)
      → Inv m
      → (m' : Manager) × (relay_inbound_handler env s reads m ≡ ok m') × Inv m'
  unfolding relay_inbound_handler
  relay_inbound_handler-Inv m s [] v = (m, refl, v)
  relay_inbound_handler-Inv m s (context_done ∷ rest) v = (m, refl, v)
  relay_inbound_handler-Inv m s (read_failed text ∷ rest) v = (_, refl, emit-Inv _ v)
  relay_inbound_handler-Inv m s (message bytes ∷ rest) v =
      let (m1, e, v1) = inbound-Inv m s bytes v in
      let (m2, e2, v2) = relay_inbound_handler-Inv m1 s rest v1 in (m2, rw e e2, v2)
