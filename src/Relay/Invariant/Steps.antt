-- ===== src/Relay/Invariant/Steps.antt =====
-- protocol/relay: every operation of the manager keeps the invariant.
use white_noise.Prelude.{◌≡◌, refl, ◌∙◌, Option, List, arith, Bytes, inl, inr, Option-cases}
use white_noise.Errors.{Error}
use white_noise.SyncMap.{load}
use white_noise.Session
use white_noise.Session.{Role, Stream, Session, Probe, new_session}
use white_noise.Session.Pairing.{add_stream-IsPaired}
use white_noise.Relay.State.{
  Env, Manager, Effect, emit, add_stream, add_stream_session_id, add_circuit_conn_caller,
}
use white_noise.Relay.Sending.{write_msg, send_relay, forward_relay, close_circuit, remove_session}
use white_noise.Relay.Sending.Removal.{remove_session-Removed}
use white_noise.Relay.Sending.Writes.{others, write_msg_log_only, close_circuit-Removed}
use white_noise.Relay.Sending.Sends.{Sent, send_relay-Sent, forward_relay-Sent}
use white_noise.Relay.Setup.{session_or_new, join_session}
use white_noise.Relay.Invariant.{
  Inv, with_log-Inv, Removed-Inv, store_session-Inv, store_stream-Inv, store_circuit-Inv,
}

pub emit-Inv : {m : Manager} (e : Effect) → Inv m → Inv (emit e m)
emit-Inv e v = with_log-Inv _ refl v

pub add_stream-Inv : {m : Manager} (s : Stream) → Inv m → Inv (add_stream s m)
add_stream-Inv s v = store_stream-Inv s.stream_id _ refl v

pub add_stream_session_id-Inv :
    {m : Manager} (id sid : Bytes) → Inv m → Inv (add_stream_session_id id sid m)
unfolding add_stream_session_id
add_stream_session_id-Inv {m} id sid v = elim (Option-cases (load m.stream_map id)) [
  | inl e ↦ rw (e, add_stream_session_id) v
  | inr (i, e) ↦ rw (e, add_stream_session_id) (store_stream-Inv id _ (v.streams id i e) v)
]

pub add_circuit_conn-Inv :
    {m : Manager} (sid remote : Bytes) → Inv m → Inv (add_circuit_conn_caller sid remote m)
unfolding add_circuit_conn_caller
add_circuit_conn-Inv {m} sid remote v = elim (Option-cases (load m.circuit_conn_map sid)) [
  | inl e ↦ rw (e, add_circuit_conn_caller) (store_circuit-Inv sid _ refl v)
  | inr (c, e) ↦ rw (e, add_circuit_conn_caller) v
]

-- The session that a stream joins is the one of its key.
pub session_or_new-id :
    {m : Manager} (sid : Bytes) (role : Role) → Inv m → (session_or_new sid role m).id ≡ sid
session_or_new-id {m} sid role v = elim (Option-cases (load m.session_map sid)) [
  | inl e ↦ rw (e, session_or_new) refl
  | inr (s, e) ↦ rw (e, session_or_new) (v.sessions sid s e).0
]

pub add_stream-id : (s : Session) (x : Stream) → (Session.add_stream s x).id ≡ s.id
unfolding Session.add_stream
add_stream-id s x = ground arith

pub join_session-Inv :
    {m : Manager} (sid : Bytes) (x : Stream) (role : Role) → Inv m → Inv (join_session sid x role m)
unfolding join_session
join_session-Inv {m} sid x role v = add_stream_session_id-Inv x.stream_id sid (
    store_session-Inv sid _ (add_stream-id _ x ∙ session_or_new-id sid role v)
      (add_stream-IsPaired (session_or_new sid role m) x) v)

module _ (env : Env) where
  pub write_msg-Inv :
      {m : Manager} (x : Stream) (msg : Bytes) → Inv m → Inv (write_msg env x msg m).0
  write_msg-Inv {m} x msg v = with_log-Inv _ (write_msg_log_only env x msg m) v

  pub close_circuit-Inv : {m : Manager} (sid : Bytes) → Inv m → Inv (close_circuit env sid m).0
  close_circuit-Inv {m} sid v = Removed-Inv (close_circuit-Removed env sid m) v

  pub remove_session-Inv : {m : Manager} (sid : Bytes) → Inv m → Inv (remove_session sid m)
  remove_session-Inv {m} sid v = Removed-Inv (remove_session-Removed sid m) v

  Sent-Inv :
      {m : Manager} (sid msg : Bytes) (f : List Stream → List Stream) (r : Manager × Option Error)
      → Sent sid msg f m r
      → Inv m
      → Inv r.0
  Sent-Inv sid msg f r (inl (s, known, nonempty, done, e)) v = with_log-Inv _ e v
  Sent-Inv sid msg f r (inr (e, failed, gone)) v = Removed-Inv gone v

  pub send_relay-Inv : {m : Manager} (sid msg : Bytes) → Inv m → Inv (send_relay env sid msg m).0
  send_relay-Inv {m} sid msg v = Sent-Inv sid msg (λ p. p) _ (send_relay-Sent env sid msg m) v

  pub forward_relay-Inv :
      {m : Manager} (sid msg from : Bytes) → Inv m → Inv (forward_relay env sid msg from m).0
  forward_relay-Inv {m} sid msg from v =
      Sent-Inv sid msg (λ p. others p from) _ (forward_relay-Sent env sid msg from m) v
