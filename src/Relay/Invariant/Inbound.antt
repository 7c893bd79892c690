-- ===== src/Relay/Invariant/Inbound.antt =====
-- protocol/relay: the handlers of inbound messages keep the invariant.
use white_noise.Prelude.{
  ◌≡◌, ◌≢◌, refl, ◌∙◌, none, List, [], ◌∷◌, arith, Bytes, inl, inr, Option-cases, Bool-cases, ◌==◌,
  get_elem?, length, ◌&&◌,
}
use white_noise.Errors.{Outcome, panic}
use white_noise.SyncMap.{load}
use white_noise.Wire.{Relay, SetSessionIdMsg, Decoded-cases}
use white_noise.Session
use white_noise.Session.{
  Role, Stream, Session, Probe, is_ready, entry_role, relay_role, answer_role,
}
use white_noise.Session.Pairing.{add_stream-IsPaired}
use white_noise.Relay.State.{
  Env, Manager, add_stream, add_session_id, add_stream_session_id, add_circuit_conn_answer,
}
use white_noise.Relay.Setup.{session_or_new}
use white_noise.Relay.Inbound.{
  replace_joint, expand_plain, is_client, expand_session, handle_set_session, set_second,
}
use white_noise.Relay.Invariant.{Inv, store_session-Inv, delete_stream-Inv}
use white_noise.Relay.Invariant.Steps.{
  emit-Inv, add_stream-Inv, add_stream_session_id-Inv, add_circuit_conn-Inv, session_or_new-id,
  add_stream-id, write_msg-Inv, close_circuit-Inv,
}

second_of_two : (xs : List Stream) → length xs ≡ 2 → get_elem? xs 1 ≢ none
second_of_two [] h e = omega arith
second_of_two (a ∷ []) h e = omega arith
second_of_two (a ∷ b ∷ r) h e = cc

-- A handler's end: the invariant holds, and there was no panic.
abbrev pub Good : Manager × Outcome (Unit {0}) → Type 0
Good r = Inv r.0 × (r.1 ≢ panic)

length-set_second : (xs : List Stream) (s : Stream) → length (set_second xs s) ≡ length xs
length-set_second [] s = refl
length-set_second (a ∷ []) s = refl
length-set_second (a ∷ b ∷ r) s = refl

expand_plain-Inv :
    {m : Manager} (relay : Relay) (msg : SetSessionIdMsg) (s : Stream)
    → Inv m
    → Inv (expand_plain relay msg s m)
unfolding expand_plain
expand_plain-Inv {m} relay msg s v =
    let sid = msg.session_id in
    let sess = session_or_new sid msg.role m in
    let joined = add_session_id sid (Session.add_stream sess s) m in
    emit-Inv {m = add_stream_session_id s.stream_id sid (add_stream s joined)} _ (
      add_stream_session_id-Inv s.stream_id sid (
        add_stream-Inv s (
          store_session-Inv sid _ (add_stream-id sess s ∙ session_or_new-id sid msg.role v)
            (add_stream-IsPaired sess s) v)))

add_circuit_conn_answer-Inv :
    {m : Manager} (sid : Bytes) → Inv m → Inv (add_circuit_conn_answer sid m)
unfolding add_circuit_conn_answer
add_circuit_conn_answer-Inv sid v = add_circuit_conn-Inv sid _ v

module _ (env : Env) (quiet : (m : Manager) → Inv m → Inv (env.meanwhile m)) where
  replace_joint-Inv :
      {m : Manager} (relay : Relay) (sid : Bytes) (sess : Session) (s : Stream)
      → sess.id ≡ sid
      → length sess.pair ≡ 2
      → Inv m
      → Good (replace_joint env relay sid sess s m)
  unfolding replace_joint
  replace_joint-Inv {m} relay sid sess s e p v = elim (Option-cases (get_elem? sess.pair 1)) [
    | inl h ↦ absurd (second_of_two sess.pair p h)
    | inr (joint, h) ↦
        rw (h, replace_joint)
          (
            emit-Inv _ (
                add_stream_session_id-Inv s.stream_id sid (
                  add_stream-Inv s (
                    store_session-Inv sid (record sess { pair = set_second sess.pair s }) e
                      (rw (length-set_second sess.pair s) (omega arith))
                      (delete_stream-Inv joint.stream_id (write_msg-Inv env joint _ v))))),
            λ q. cc,
          )
  ]

  expand_session-Inv :
      {m : Manager} (relay : Relay) (msg : SetSessionIdMsg) (s : Stream)
      → Inv m
      → Good (expand_session env relay msg s m)
  unfolding expand_session
  expand_session-Inv {m} relay msg s v =
      let plain = expand_plain-Inv relay msg s v in
      elim (Option-cases (load m.session_map msg.session_id)) [
        | inl h ↦ rw (h, expand_session) (plain, λ p. cc)
        | inr (known, h) ↦ elim (Bool-cases (known.role == entry_role && msg.role == relay_role)) [
          | inr e ↦ rw (h, e, expand_session) (plain, λ p. cc)
          | inl e ↦ elim (Bool-cases (is_ready known)) [
            | inl r ↦
                rw (h, e, r, expand_session)
                  (replace_joint-Inv relay msg.session_id known s (v.sessions _ known h).0
                    (ground arith) v)
            | inr r ↦ rw (h, e, r, expand_session) (close_circuit-Inv env msg.session_id v, λ p. cc)
          ]
        ]
      ]

  pub handle_set_session-Inv :
      {m : Manager} (relay : Relay) (s : Stream) → Inv m → Good (handle_set_session env relay s m)
  unfolding handle_set_session
  handle_set_session-Inv {m} relay s v =
      elim (Decoded-cases (env.codecs.set_session_id_msg.unmarshal relay.payload)) [
        | inr (t, _, h) ↦ rw (h, handle_set_session) (emit-Inv _ v, λ p. cc)
        | inl (msg, h) ↦ elim (Bool-cases (is_client m.role)) [
          | inr c ↦ rw (h, c, handle_set_session) (expand_session-Inv relay msg s v)
          | inl c ↦ elim (Bool-cases (msg.role == answer_role)) [
            | inl a ↦
                rw (h, c, a, handle_set_session)
                  (expand_session-Inv relay msg s (add_circuit_conn_answer-Inv msg.session_id v))
            | inr a ↦ rw (h, c, a, handle_set_session) (emit-Inv _ v, λ p. cc)
          ]
        ]
      ]
