-- ===== src/Relay/Invariant/Handlers.antt =====
-- protocol/relay: the handlers of requests and of inbound messages keep the invariant.
use white_noise.Prelude.{
  ◌≡◌, Option, none, some, arith, Bytes, inl, inr, Option-cases, Sum-cases, Bool-cases,
}
use white_noise.SyncMap.{load}
use white_noise.Session.{Role, Stream}
use white_noise.Relay.State.{
  Env, AckResult, Manager, add_stream, emit, opened, inbound_started, task_added,
}
use white_noise.Relay.Sending.{write_msg}
use white_noise.Relay.Messages.{new_relay_wake, new_set_session_id_command}
use white_noise.Relay.Setup.{await_answer, new_relay_stream, set_session_id, new_session_to_peer}
use white_noise.Relay.Invariant.{Inv}
use white_noise.Relay.Invariant.Steps.{emit-Inv, add_stream-Inv, join_session-Inv, write_msg-Inv}

await_answer-Inv :
    {m : Manager} (sid : Bytes) (x : Stream) (role : Role) (r : Option AckResult)
    → Inv m
    → Inv (await_answer sid x role r m).0
unfolding await_answer
await_answer-Inv sid x role none v = v
await_answer-Inv sid x role (some r) v = elim (Bool-cases r.ok) [
  | inl e ↦ rw e (join_session-Inv sid x role v)
  | inr e ↦ rw e v
]

module _ (env : Env) (quiet : (m : Manager) → Inv m → Inv (env.meanwhile m)) where
  new_relay_stream-Inv : {m : Manager} (peer : Bytes) → Inv m → Inv (new_relay_stream env peer m).0
  unfolding new_relay_stream
  new_relay_stream-Inv {m} peer v = elim (Option-cases (env.new_stream_error m.log peer)) [
    | inr (e, h) ↦ rw (h, new_relay_stream) v
    | inl h ↦
        let s = env.new_stream m.log peer in
        let started =
          emit (inbound_started s.stream_id) (add_stream s (emit (opened peer s.stream_id) m)) in
        let woken = write_msg env s (new_relay_wake env) started in
        let same_state : (new_relay_stream env peer m).0 ≡ woken.0 = ground arith in
        rw same_state (
          write_msg-Inv env s _ (
            emit-Inv {m = add_stream s (emit (opened peer s.stream_id) m)} _
              (add_stream-Inv s (emit-Inv _ v))))
  ]

  set_session_id-Inv :
      {m : Manager} (sid id : Bytes) (mine other : Role)
      → Inv m
      → Inv (set_session_id env sid id mine other m).0
  unfolding set_session_id
  set_session_id-Inv {m} sid id mine other v = elim (Option-cases (load m.stream_map id)) [
    | inl h ↦ rw (h, set_session_id) v
    | inr (info, h) ↦
        let command = new_set_session_id_command env sid other in
        let told = write_msg env info.stream command.0 m in
        let waiting = emit (task_added command.1) told.0 in
        let told-Inv : Inv told.0 = write_msg-Inv env info.stream command.0 v in
        let done =
          await_answer-Inv sid info.stream mine (env.ack_result waiting.log command.1)
            (quiet waiting (emit-Inv _ told-Inv)) in
        elim (Option-cases told.1) [
          | inl e ↦ rw (h, e, set_session_id) (emit-Inv _ done)
          | inr (e, w) ↦ rw (h, w, set_session_id) told-Inv
        ]
  ]

  pub new_session_to_peer-Inv :
      {m : Manager} (peer sid : Bytes) (mine other : Role)
      → Inv m
      → Inv (new_session_to_peer env peer sid mine other m).0
  unfolding new_session_to_peer
  new_session_to_peer-Inv {m} peer sid mine other v =
      let opened_stream = new_relay_stream-Inv peer v in
      elim (Sum-cases (new_relay_stream env peer m).1) [
        | inl (s, h) ↦
            rw (h, new_session_to_peer)
              (set_session_id-Inv sid s.stream_id mine other opened_stream)
        | inr (e, h) ↦ rw (h, new_session_to_peer) opened_stream
      ]
