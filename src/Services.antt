-- ===== src/Services.antt =====
-- What the command and proxy handlers ask of the other actors and of the network, and the order in which
-- they do. An actor's answer may be late (`RequestFuture` has a timeout); who answers sees all that was
-- asked before.
use white_noise.Prelude.{ℤ, Bool, Option, none, some, List, ◌∷◌, Bytes, ◌≡◌, ap}
use white_noise.Errors.{Error}
use white_noise.Wire.{Ack}
use white_noise.Session.{Role, Session}

-- The Pid-less requests: relay.Req…, actorMsg.Req…, ack.Req…, and the handler's own streams.
pub data Effect : Type 0 where
  asked_session : Bytes → Effect  -- relay.ReqGetSession
  asked_new_session : Bytes → Bytes → Role → Role → Effect  -- relay.ReqNewSessiontoPeer: peer, session, roles
  asked_send_relay : Bytes → Bytes → Effect  -- relay.ReqSendRelay
  asked_close_circuit : Bytes → Effect  -- relay.ReqCloseCircuit
  asked_dht_peers : ℤ → Effect  -- actorMsg.ReqDHTPeers
  asked_gossip_joint : Bytes → Bytes → Effect  -- actorMsg.ReqGossipJoint
  acked : Ack → Bytes → Effect  -- ack.ReqAck: the message, the peer
  task_added task_deleted : Bytes → Effect  -- ack.ReqAddTask, ack.ReqDeleteTask
  opened : Bytes → Effect  -- host.NewStream to a peer
  wrote : Bytes → Bytes → Effect  -- WriteMsg on a stream to a peer
  stream_closed : Effect  -- the deferred Close of the handled stream
  asked_client : Bytes → Effect  -- proxy.ReqGetClient
  asked_decrypt : Bytes → Bytes → Effect  -- proxy.ReqDecrypt: the peer, the cyphertext
  asked_expend : Bytes → Bytes → Bytes → Effect  -- command.ReqExpendSession: relay, joint, session
  published : Bytes → Effect  -- NoisePublish
  gossip_started : Bytes → Bytes → Bytes → Effect  -- go handleGossipMsg: client's peer, Des, Cypher
  delivered : Bytes → Bool → Bytes → Effect  -- an ack.Result, put on a task's channel

-- The result of `fut.Result()`.
pub data Reply {ℓ} (A : Type ℓ) : Type ℓ where
  reply : A → Reply A
  late : Error → Reply A

-- peer.AddrInfo, the addresses as their text
pub record AddrInfo : Type 0 where
  pub id : Bytes
  pub addrs : List Bytes

pub record Surroundings : Type 0 where
  pub get_session : List Effect → Bytes → Reply (Option Session)
  pub new_session_to_peer : List Effect → Bytes → Bytes → Role → Role → Reply (Option Error)
  pub send_relay : List Effect → Bytes → Bytes → Reply (Option Error)
  pub dht_peers : List Effect → ℤ → Reply (List AddrInfo)
  pub gossip_joint : List Effect → Bytes → Bytes → Reply (Option Error)
  pub new_stream_error : List Effect → Bytes → Option Error
  pub write_error : List Effect → Bytes → Option Error
  pub ack_result : List Effect → Bytes → Option (Bool × Bytes)  -- `none` is the timeout

-- A handler's steps: what was done so far, newest first, and a value, or `none` for a panic.
abbrev pub Act {ℓ} : Type ℓ → Type ℓ
Act A = List Effect → List Effect × Option A

module _ {ℓ} {A : Type ℓ} where
  abbrev pub give : A → Act A
  give a log = (log, some a)

  abbrev pub crash : Act A
  crash log = (log, none)

abbrev pub bind_result {ℓ κ} :
    {A : Type ℓ} {B : Type κ} → List Effect → Option A → (A → Act B) → List Effect × Option B
bind_result log none f = (log, none)
bind_result log (some a) f = f a log

abbrev pub bind {ℓ κ} : {A : Type ℓ} {B : Type κ} → Act A → (A → Act B) → Act B
bind m f log = bind_result (m log).0 (m log).1 f

infixl 5 ◌>>=◌ ◌>>◌
abbrev pub ◌>>=◌ {ℓ κ} : {A : Type ℓ} {B : Type κ} → Act A → (A → Act B) → Act B
m >>= f = bind m f

abbrev pub ◌>>◌ {ℓ} : {B : Type ℓ} → Act (Unit {0}) → Act B → Act B
m >> k = m >>= λ _. k

abbrev pub emit : Effect → Act (Unit {0})
emit e log = (e ∷ log, some tt)

-- A request whose answer is awaited: the answer may depend on the log without the request.
abbrev pub ask {ℓ} : {A : Type ℓ} → Effect → (List Effect → A) → Act A
ask e answer log = (e ∷ log, some (answer log))

-- `if err != nil { return fail }` after `fut.Result()`.
abbrev pub or_return {ℓ κ} :
    {A : Type ℓ} {B : Type κ} → (Error → B) → Act (Reply A) → (A → Act B) → Act B
or_return fail m f = m >>= λ r. elim r [ late e ↦ give (fail e) | reply a ↦ f a ]

module _ (around : Surroundings) where
  abbrev pub request_session : Bytes → Act (Reply (Option Session))
  request_session sid = ask (asked_session sid) λ log. around.get_session log sid

  abbrev pub request_new_session : Bytes → Bytes → Role → Role → Act (Reply (Option Error))
  request_new_session peer sid mine other =
      ask (asked_new_session peer sid mine other)
        λ log. around.new_session_to_peer log peer sid mine other

  abbrev pub request_send_relay : Bytes → Bytes → Act (Reply (Option Error))
  request_send_relay sid msg = ask (asked_send_relay sid msg) λ log. around.send_relay log sid msg

  abbrev pub request_dht_peers : ℤ → Act (Reply (List AddrInfo))
  request_dht_peers max = ask (asked_dht_peers max) λ log. around.dht_peers log max

  abbrev pub request_gossip_joint : Bytes → Bytes → Act (Reply (Option Error))
  request_gossip_joint des cypher =
      ask (asked_gossip_joint des cypher) λ log. around.gossip_joint log des cypher

  -- WriteMsg on a stream to a peer.
  abbrev pub write_to : Bytes → Bytes → Act (Option Error)
  write_to peer msg log = elim (around.write_error log peer) [
    | some e ↦ (log, some (some e))
    | none ↦ (wrote peer msg ∷ log, some none)
  ]

  -- NewStream to a peer and WriteMsg on it: the error, if one of them failed.
  abbrev pub open_and_write : Bytes → Bytes → Act (Option Error)
  open_and_write peer msg log = elim (around.new_stream_error log peer) [
    | some e ↦ (log, some (some e))
    | none ↦ elim (around.write_error (opened peer ∷ log) peer) [
      | some e ↦ (opened peer ∷ log, some (some e))
      | none ↦ (wrote peer msg ∷ opened peer ∷ log, some none)
    ]
  ]

  -- The wait for an ack: the task is added, and deleted when the wait ends.
  abbrev pub await_ack : Bytes → Act (Option (Bool × Bytes))
  await_ack id log =
      (task_deleted id ∷ task_added id ∷ log, some (around.ack_result (task_added id ∷ log) id))

-- What is done with a value that was given.
pub bind-given {ℓ κ} :
    {A : Type ℓ} {B : Type κ} (m : Act A) (f : A → Act B) (log : List Effect) (a : A)
    → (m log).1 ≡ some a
    → bind m f log ≡ f a (m log).0
bind-given m f log a e = ap (λ r. bind_result (m log).0 r f) e
