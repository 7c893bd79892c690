-- ===== src/Command.antt =====
-- protocol/command: a proxy tells a relay node to extend a session to a joint node.
pub mod Answers
pub mod Expansion
use white_noise.Prelude.{
  ℕ, Bool, true, false, Option, none, some, List, [], ◌∷◌, Bytes, codes, if◌then◌else◌,
}
use white_noise.Errors.{Error, timeout, cmd_rejected, external}
use white_noise.Wire.{Ack, Codec, decoded, malformed, Hashes, encode_msg_id_hash}
use white_noise.Session.{Session, relay_role, joint_role, is_ready}
use white_noise.Services.{
  acked, asked_close_circuit, stream_closed, Reply, reply, late, Surroundings, Act, give, crash,
  ◌>>=◌, ◌>>◌, emit, request_session, request_new_session, request_send_relay, opened, write_to,
  await_ack,
}
use white_noise.Relay.State.{Env}
use white_noise.Relay.Messages.{new_circuit_success}

-- pb.Cmdtype; the enum is open.
pub data Cmdtype : Type 0 where
  session_ex_pend disconnect : Cmdtype
  other_cmdtype : ℕ → Cmdtype

pub record Command : Type 0 where
  pub command_id : Bytes
  pub type : Cmdtype
  pub from : Bytes
  pub payload : Bytes

pub record SessionExpend : Type 0 where
  pub session_id : Bytes
  pub peer_id : Bytes

-- What the node has from the libraries and the other actors. A peer id is its bytes.
pub record CommandEnv : Type 0 where
  pub around : Surroundings
  pub relay : Env  -- for the relay messages that the node makes
  pub hashes : Hashes
  pub command : Codec Command
  pub session_expend : Codec SessionExpend
  pub host_id : Bytes
  pub id_string : Bytes → Bytes  -- peer.ID.String
  pub peer_decode : Bytes → Option Bytes  -- peer.Decode

module _ (env : CommandEnv) where
  open env use {around, hashes}

  abbrev pub send_ack : Command → Bytes → Bool → Bytes → Act (Unit {0})
  send_ack cmd peer result payload =
      emit (acked (record { command_id = cmd.command_id; result = result; payload = payload }) peer)

  -- The refusal of a command: the relay manager is asked to close the circuit.
  abbrev pub refuse : Command → Bytes → Bytes → Bytes → Act (Unit {0})
  refuse cmd peer sid reason = emit (asked_close_circuit sid) >> send_ack cmd peer false reason

  -- The session has both its streams: the node is entry and relay. The type assertion on a late answer
  -- panics, since the branch for it does not return.
  unfoldable pub ack_ready : Command → Bytes → Bytes → Act (Unit {0})
  ack_ready cmd peer sid =
      send_ack cmd peer true []
      >> request_send_relay around sid (new_circuit_success env.relay sid)
      >>= λ r. elim r [ late _ ↦ crash | reply _ ↦ give tt ]

  -- The session needs its second stream, to the joint node.
  unfoldable pub expend_to : Command → Bytes → SessionExpend → Act (Unit {0})
  expend_to cmd peer msg = elim (env.peer_decode msg.peer_id) [
    | none ↦ refuse cmd peer msg.session_id (codes "Decode peerid error")
    | some id ↦ request_new_session around id msg.session_id relay_role joint_role >>= λ r. elim r [
      | late _ ↦ give tt
      | reply e ↦ elim e [
        | some _ ↦ refuse cmd peer msg.session_id (codes "NewSessionToPeer error")
        | none ↦ send_ack cmd peer true []
      ]
    ]
  ]

  -- Cmdtype_SessionExPend, from the relay manager's answer on
  unfoldable pub expend : Command → Bytes → SessionExpend → Option Session → Act (Unit {0})
  unfolding ack_ready expend_to
  expend cmd peer msg none = refuse cmd peer msg.session_id (codes "No such session")
  expend cmd peer msg (some sess) =
      if is_ready sess then ack_ready cmd peer msg.session_id else expend_to cmd peer msg

  -- Cmdtype_SessionExPend
  unfoldable pub handle_expend : Command → Bytes → Act (Unit {0})
  unfolding expend
  handle_expend cmd peer = elim (env.session_expend.unmarshal cmd.payload) [
    | malformed _ _ ↦ give tt
    | decoded msg ↦ request_session around msg.session_id >>= λ r. elim r [
      | late _ ↦ give tt
      | reply s ↦ expend cmd peer msg s
    ]
  ]

  unfoldable pub handle_command : Command → Bytes → Act (Unit {0})
  unfolding handle_expend
  handle_command cmd peer = elim cmd.type [
    | session_ex_pend ↦ handle_expend cmd peer
    | disconnect ↦ give tt
    | other_cmdtype _ ↦ give tt
  ]

  -- CmdStreamHandler: what ReadMsg gave, or `none` for its error, and the peer at the other end. A
  -- message that does not unmarshal is handled as far as it was read.
  unfoldable pub cmd_stream_handler : Option Bytes → Bytes → Act (Unit {0})
  unfolding handle_command
  cmd_stream_handler none peer log = (stream_closed ∷ log, some tt)
  cmd_stream_handler (some payload) peer log = elim (env.command.unmarshal payload) [
    | malformed _ cmd ↦ let r = handle_command cmd peer log in (stream_closed ∷ r.0, r.1)
    | decoded cmd ↦ let r = handle_command cmd peer log in (stream_closed ∷ r.0, r.1)
  ]

  -- ExpendSession, from the written command on: the wait for its ack.
  abbrev pub await_expend : Bytes → Option Error → Act (Option Error)
  await_expend id (some e) = give (some e)
  await_expend id none = await_ack around id >>= λ r. elim r [
    | none ↦ give (some timeout)
    | some result ↦ give (if result.0 then none else some (cmd_rejected result.1))
  ]

  -- The command of an expansion, without its id.
  abbrev pub bare_command : Bytes → Command
  bare_command payload = record {
    command_id = [];
    type = session_ex_pend;
    from = env.id_string env.host_id;
    payload = payload;
  }

  -- The id of a command: the hash of its bytes without one.
  abbrev pub command_id_of : Bytes → Bytes
  command_id_of without_id = encode_msg_id_hash hashes (hashes.sha256 without_id)

  -- ExpendSession, on the open stream, from the marshalled SessionExpend on
  unfoldable pub send_command : Bytes → Bytes → Act (Option Error)
  send_command relay payload = elim (env.command.marshal (bare_command payload)) [
    | none ↦ give (some (external []))
    | some without_id ↦
        let id = command_id_of without_id in
        elim (env.command.marshal (record (bare_command payload) { command_id = id })) [
          | none ↦ give (some (external []))
          | some msg ↦ write_to around relay msg >>= await_expend id
        ]
  ]

  -- ExpendSession
  unfoldable pub expend_session : Bytes → Bytes → Bytes → Act (Option Error)
  unfolding send_command
  expend_session relay joint sid log = elim (around.new_stream_error log relay) [
    | some e ↦ (log, some (some e))
    | none ↦
        elim (env.session_expend.marshal
          (record { session_id = sid; peer_id = env.id_string joint })) [
            | none ↦ (opened relay ∷ log, some (some (external [])))
            | some payload ↦ send_command relay payload (opened relay ∷ log)
          ]
  ]

-- ReqExpendSession, and Receive, whose response is the error.
pub data Request : Type 0 where
  req_expend_session : Bytes → Bytes → Bytes → Request  -- the relay node, the joint node, the session

abbrev pub receive : CommandEnv → Request → Act (Option Error)
receive env (req_expend_session relay joint sid) = expend_session env relay joint sid
