-- ===== src/Command/Expansion.antt =====
-- protocol/command: what it means when ExpendSession reports success.
use white_noise.Prelude.{
  ◌≡◌, refl, sym, ap, ◌∙◌, inl, inr, true, none, some, List, ◌∷◌, arith, Bytes, Option-cases,
  Bool-cases,
}
use white_noise.Errors.{Error}
use white_noise.Services.{
  Effect, task_added, task_deleted, opened, wrote, write_to, bind_result, ◌>>=◌,
}
use white_noise.Command.{
  CommandEnv, bare_command, command_id_of, await_expend, send_command, expend_session,
}

module _ (env : CommandEnv) where
  open env use {around}

  -- A relay node was sent the command, and acked it with success.
  pub record Expended (relay joint sid : Bytes) (log log' : List Effect) : Type 0 where
    pub request : Bytes
    pub without_id : Bytes
    pub msg : Bytes
    pub answer : Bytes
    pub request_marshals :
        env.session_expend.marshal (record { session_id = sid; peer_id = env.id_string joint })
        ≡ some request
    pub bare_marshals : env.command.marshal (bare_command env request) ≡ some without_id
    pub msg_marshals :
        env.command.marshal
          (record (bare_command env request) { command_id = command_id_of env without_id })
        ≡ some msg
    pub acked :
        around.ack_result
          (task_added (command_id_of env without_id) ∷ wrote relay msg ∷ opened relay ∷ log)
          (command_id_of env without_id)
        ≡ some (true, answer)
    pub done :
        log'
        ≡ task_deleted (command_id_of env without_id)
          ∷ task_added (command_id_of env without_id)
          ∷ wrote relay msg
          ∷ opened relay
          ∷ log

  await_expend-some :
      (id : Bytes) (log log' : List Effect)
      → await_expend env id none log ≡ (log', some none)
      → (answer : Bytes) × (around.ack_result (task_added id ∷ log) id ≡ some (true, answer))
        × (log' ≡ task_deleted id ∷ task_added id ∷ log)
  await_expend-some id log log' e =
      elim (Option-cases (around.ack_result (task_added id ∷ log) id)) [
        | inl f ↦ absurd (ground (arith, e, f))
        | inr ((result, answer), f) ↦ elim (Bool-cases result) [
          | inl g ↦ (answer, ground (arith, f, g), ground (arith, e, f, g))
          | inr g ↦ absurd (ground (arith, e, f, g))
        ]
      ]

  written :
      (relay msg id : Bytes) (log : List Effect)
      → around.write_error log relay ≡ none
      → (write_to around relay msg >>= await_expend env id) log
        ≡ await_expend env id none (wrote relay msg ∷ log)
  written relay msg id log h =
      let w : write_to around relay msg log ≡ (wrote relay msg ∷ log, some none) =
        rw (write_to, h) refl in
      ap (λ r. bind_result r.0 r.1 (await_expend env id)) w

  unwritten :
      (relay msg id : Bytes) (log : List Effect) (x : Error)
      → around.write_error log relay ≡ some x
      → (write_to around relay msg >>= await_expend env id) log ≡ (log, some (some x))
  unwritten relay msg id log x h =
      let w : write_to around relay msg log ≡ (log, some (some x)) = rw (write_to, h) refl in
      ap (λ r. bind_result r.0 r.1 (await_expend env id)) w

  send_command-some :
      (relay joint sid request : Bytes) (log log' : List Effect)
      → env.session_expend.marshal (record { session_id = sid; peer_id = env.id_string joint })
        ≡ some request
      → send_command env relay request (opened relay ∷ log) ≡ (log', some none)
      → Expended relay joint sid log log'
  unfolding send_command
  send_command-some relay joint sid request log log' m e =
      elim (Option-cases (env.command.marshal (bare_command env request))) [
        | inl f ↦ absurd (ground (arith, rw (send_command, f) at e))
        | inr (without_id, f) ↦
            let id : Bytes = command_id_of env without_id in
            elim (Option-cases
              (env.command.marshal (record (bare_command env request) { command_id = id }))) [
                | inl g ↦ absurd (ground (arith, rw (send_command, f, g) at e))
                | inr (msg, g) ↦
                    elim (Option-cases (around.write_error (opened relay ∷ log) relay)) [
                      | inr (x, h) ↦ absurd (
                          ground (
                            arith,
                            sym (unwritten relay msg id (opened relay ∷ log) x h)
                                ∙ (rw (send_command, f, g) at e),
                          ))
                      | inl h ↦
                          let (answer, k, l) =
                            await_expend-some id (wrote relay msg ∷ opened relay ∷ log) log' (
                              sym (written relay msg id (opened relay ∷ log) h)
                              ∙ (rw (send_command, f, g) at e)) in
                          record {
                            request = request;
                            without_id = without_id;
                            msg = msg;
                            answer = answer;
                            request_marshals = m;
                            bare_marshals = f;
                            msg_marshals = g;
                            acked = k;
                            done = l;
                          }
                    ]
              ]
      ]

  -- If ExpendSession returns no error, then it opened a stream to the relay node, wrote to it the
  -- command to extend the session to the joint node, marshalled with the hash of its bytes
  -- without an id as its id, waited for the ack under that id, got one that says success, and
  -- deleted the waiting task; and it did nothing else.
  pub expend_session-Expended :
      (relay joint sid : Bytes) (log log' : List Effect)
      → expend_session env relay joint sid log ≡ (log', some none)
      → Expended relay joint sid log log'
  unfolding expend_session
  expend_session-Expended relay joint sid log log' e =
      elim (Option-cases (around.new_stream_error log relay)) [
        | inr (x, f) ↦ absurd (ground (arith, rw (expend_session, f) at e))
        | inl f ↦
            elim (Option-cases (
              env.session_expend.marshal
                (record { session_id = sid; peer_id = env.id_string joint }))) [
                  | inl g ↦ absurd (ground (arith, rw (expend_session, f, g) at e))
                  | inr (request, g) ↦
                      send_command-some relay joint sid request log log' g
                        (rw (expend_session, f, g) at e)
                ]
      ]
