-- ===== src/Relay/Sending/Writes.antt =====
-- protocol/relay/manager.go: the loops over a pair's streams, and CloseCircuit.
use white_noise.Prelude.{
  ◌≡◌, refl, none, List, [], ◌∷◌, arith, Bytes, same, inl, inr, if◌then◌else◌, Option-cases,
}
use white_noise.SyncMap.{load}
use white_noise.Session.{Stream}
use white_noise.Relay.State.{Env, Manager, Effect, wrote}
use white_noise.Relay.Messages.{new_disconnect}
use white_noise.Relay.Sending.{
  write_msg, write_all, write_others, write_each, send_disconnect_relay, remove_session,
  close_circuit,
}
use white_noise.Relay.Sending.Removal.{with_log, Removed, remove_session-Removed}

-- The log after a message was written to each of the streams, in their order.
abbrev pub after_writes : List Stream → Bytes → List Effect → List Effect
after_writes [] msg l = l
after_writes (x ∷ xs) msg l = after_writes xs msg (wrote x.stream_id msg ∷ l)

-- The streams whose remote peer is not `from`.
abbrev pub others : List Stream → Bytes → List Stream
others [] from = []
others (x ∷ xs) from = if same x.remote_peer from then others xs from else x ∷ others xs from

module _ (env : Env) where
  pub write_msg_log_only :
      (x : Stream) (msg : Bytes) (m : Manager)
      → (write_msg env x msg m).0 ≡ with_log m (write_msg env x msg m).0.log
  unfolding write_msg
  write_msg_log_only x msg m = ground arith

  pub write_all_log_only :
      (xs : List Stream) (msg : Bytes) (m : Manager)
      → (write_all env xs msg m).0 ≡ with_log m (write_all env xs msg m).0.log
  unfolding write_all
  write_all_log_only [] msg m = refl
  write_all_log_only (x ∷ xs) msg m =
      ground
        (arith, write_msg_log_only x msg m, write_all_log_only xs msg (write_msg env x msg m).0)

  pub write_others_log_only :
      (xs : List Stream) (msg from : Bytes) (m : Manager)
      → (write_others env xs msg from m).0 ≡ with_log m (write_others env xs msg from m).0.log
  unfolding write_others
  write_others_log_only [] msg from m = refl
  write_others_log_only (x ∷ xs) msg from m = ground (
    arith,
    write_msg_log_only x msg m,
    write_others_log_only xs msg from m,
    write_others_log_only xs msg from (write_msg env x msg m).0,
  )

  pub write_each_log_only :
      (xs : List Stream) (msg : Bytes) (m : Manager)
      → write_each env xs msg m ≡ with_log m (write_each env xs msg m).log
  unfolding write_each
  write_each_log_only [] msg m = refl
  write_each_log_only (x ∷ xs) msg m =
      ground
        (arith, write_msg_log_only x msg m, write_each_log_only xs msg (write_msg env x msg m).0)

  -- Without an error every stream was written to, in order.
  pub write_all_done :
      (xs : List Stream) (msg : Bytes) (m : Manager)
      → (write_all env xs msg m).1 ≡ none
      → (write_all env xs msg m).0 ≡ with_log m (after_writes xs msg m.log)
  unfolding write_all write_msg
  write_all_done [] msg m h = refl
  write_all_done (x ∷ xs) msg m h =
      ground (arith, write_all_done xs msg (with_log m (wrote x.stream_id msg ∷ m.log)))

  pub write_others_done :
      (xs : List Stream) (msg from : Bytes) (m : Manager)
      → (write_others env xs msg from m).1 ≡ none
      → (write_others env xs msg from m).0 ≡ with_log m (after_writes (others xs from) msg m.log)
  unfolding write_others write_msg
  write_others_done [] msg from m h = refl
  write_others_done (x ∷ xs) msg from m h = ground (
    arith,
    write_others_done xs msg from m,
    write_others_done xs msg from (with_log m (wrote x.stream_id msg ∷ m.log)),
  )

  pub send_disconnect_log_only :
      (sid : Bytes) (m : Manager)
      → (send_disconnect_relay env sid m).0 ≡ with_log m (send_disconnect_relay env sid m).0.log
  unfolding send_disconnect_relay
  send_disconnect_log_only sid m = elim (Option-cases (load m.session_map sid)) [
    | inl e ↦ ground arith
    | inr (s, e) ↦ elim (Option-cases (new_disconnect env sid)) [
      | inl d ↦ ground arith
      | inr (msg, d) ↦ ground (arith, write_each_log_only s.pair msg m)
    ]
  ]

  remove_session-Removed_log :
      (sid : Bytes) (l : List Effect) (m m' : Manager)
      → m' ≡ with_log m l
      → Removed sid m (remove_session sid m')
  remove_session-Removed_log sid l m m' e =
      let r = remove_session-Removed sid (with_log m l) in
      rw e (record {
        sessions = r.sessions;
        circuits = r.circuits;
        secures = r.secures;
        probes = r.probes;
        streams = r.streams;
        role = r.role;
        local_id = r.local_id;
      })

  -- CloseCircuit removes the session, its connection and its secure connection from the maps, and
  -- no other entry, on every path, also where the session is unknown or the disconnect message is
  -- not written.
  pub close_circuit-Removed :
      (sid : Bytes) (m : Manager) → Removed sid m (close_circuit env sid m).0
  unfolding close_circuit
  close_circuit-Removed sid m = elim (Option-cases (load m.session_map sid)) [
    | inl e ↦ rw (e, close_circuit) (remove_session-Removed sid m)
    | inr (s, e) ↦
        rw (e, close_circuit)
          (remove_session-Removed_log sid _ m _ (send_disconnect_log_only sid m))
  ]

  -- So does the closing of a circuit after any writes.
  pub close_circuit-Removed_after :
      (sid : Bytes) (l : List Effect) (m m' : Manager)
      → m' ≡ with_log m l
      → Removed sid m (close_circuit env sid m').0
  close_circuit-Removed_after sid l m m' e =
      let r = close_circuit-Removed sid (with_log m l) in
      rw e (record {
        sessions = r.sessions;
        circuits = r.circuits;
        secures = r.secures;
        probes = r.probes;
        streams = r.streams;
        role = r.role;
        local_id = r.local_id;
      })
