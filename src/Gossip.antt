-- ===== src/Gossip.antt =====
-- network/gossip: the node publishes the negotiations of its clients to all nodes (gossip.go), answers the
-- proxy (actor.go), and takes up the published negotiations for its own clients (pubsub.go), for which it
-- looks for a relay node between itself and the joint node.
pub mod Choice
pub mod Ending
pub mod Topic
use white_noise.Prelude.{
  ℤ, pos, negsuc, int32_of, int_of_int32, ℕ, zero, suc, Bool, true, false, not, ◌&&◌, ◌⊎◌, inl, inr,
  Option, none, some, List, [], ◌∷◌, Bytes, map, same, length, take, ltb, if◌then◌else◌,
}
use white_noise.Errors.{Error, external}
use white_noise.Wire.{Codec, decoded, malformed, or_nil}
use white_noise.Session.{exit_role, answer_role, relay_role}
use white_noise.Services.{
  Effect, asked_client, asked_decrypt, asked_expend, asked_close_circuit, published, gossip_started,
  Reply, reply, late, AddrInfo, Surroundings, Act, give, crash, ask, ◌>>=◌, ◌>>◌, emit,
  request_new_session, request_send_relay,
}
use white_noise.Search.{search, is_invalid}
use white_noise.Relay.State.{Env}
use white_noise.Relay.Messages.{new_circuit_success, new_probe_signal}
use white_noise.Proxy.State.{ClientInfo, retry_times}

-- pb.EncryptedNeg
pub record EncryptedNeg : Type 0 where
  pub des : Bytes
  pub cypher : Bytes

-- What the node has from the libraries and the other actors. A peer id is its bytes.
pub record GossipEnv : Type 0 where
  pub around : Surroundings
  pub relay : Env  -- for the relay messages that the node makes
  pub encrypted_neg : Codec EncryptedNeg
  pub host_id : Bytes
  pub id_string : Bytes → Bytes  -- peer.ID.String
  pub peer_decode : Bytes → Option Bytes  -- peer.Decode
  pub random : List Effect → ℕ  -- rand.Int
  pub list_peers : List Effect → List Bytes  -- RoutingTable().ListPeers
  pub find_local : Bytes → AddrInfo  -- FindLocal
  pub publish_error : List Effect → Bytes → Option Error  -- Topic.Publish
  pub client : List Effect → Bytes → Reply (Option ClientInfo)  -- proxy.ReqGetClient
  pub decrypt : List Effect → Bytes → Bytes → Reply ((Bytes × Bytes) ⊎ Error)  -- proxy.ReqDecrypt
  pub expend : List Effect → Bytes → Bytes → Bytes → Reply (Option Error)  -- command.ReqExpendSession

-- common.ReqDHTPeersMaxAmount
abbrev pub req_dht_peers_max_amount : ℤ
req_dht_peers_max_amount = pos 100

module _ (env : GossipEnv) where
  open env use {around}

  -- NoisePublish
  abbrev pub noise_publish : Bytes → Act (Option Error)
  noise_publish data_bytes log = elim (env.publish_error log data_bytes) [
    | some e ↦ (log, some (some e))
    | none ↦ (published data_bytes ∷ log, some none)
  ]

  -- GossipJoint
  unfoldable pub gossip_joint : Bytes → Bytes → Act (Option Error)
  gossip_joint des_hash neg_cypher =
      elim (env.encrypted_neg.marshal (record { des = des_hash; cypher = neg_cypher })) [
        | none ↦ give (some (external []))
        | some data_bytes ↦ noise_publish data_bytes
      ]

  -- GetDHTPeers; `none` is the panic of `peerIDs[:max]` for a negative `max`.
  unfoldable pub get_dht_peers : ℤ → List Effect → Option (List AddrInfo)
  get_dht_peers (negsuc n) log = none
  get_dht_peers (pos max) log =
      let peer_ids = env.list_peers log in
      some (map env.find_local (if ltb max (length peer_ids) then take max peer_ids else peer_ids))

  -- A request whose late answer ends the handler.
  abbrev pub or_stop {ℓ} : {A : Type ℓ} → Act (Reply A) → (A → Act (Unit {0})) → Act (Unit {0})
  or_stop m f = m >>= λ r. elim r [ late _ ↦ give tt | reply a ↦ f a ]

  -- A peer that may be the relay node.
  unfoldable pub is_candidate : List Bytes → Bytes → Bytes → Bool
  is_candidate invalid join_node id =
      not (is_invalid invalid (env.id_string id))
      && not (same id join_node)
      && not (same id env.host_id)

  -- The attempts to get a relay node: the last one that was tried, and whether it joined.
  unfoldable pub try_relay :
      ℕ → List AddrInfo → Bytes → Bytes → List Bytes → Bytes → Act (Reply (Bytes × Bool))
  unfolding is_candidate
  try_relay zero peers join_node sid invalid relay log = give (reply (relay, false)) log
  try_relay (suc n) peers join_node sid invalid relay log =
      elim (search (is_candidate invalid join_node) peers (length peers) (env.random log) relay) [
        | none ↦ (log, none)
        | some relay' ↦
            (request_new_session around relay' sid exit_role relay_role >>= λ r. elim r [
              | late e ↦ give (late e)
              | reply e ↦ elim e [
                | some _ ↦ try_relay n peers join_node sid (env.id_string relay' ∷ invalid) relay'
                | none ↦ give (reply (relay', true))
              ]
            ])
              log
      ]

  -- The relay node is told to extend the session to the joint node, and the probe follows.
  unfoldable pub expend_and_probe : Bytes → Bytes → Bytes → Act (Unit {0})
  expend_and_probe relay join_node sid =
      or_stop (ask (asked_expend relay join_node sid) λ log. env.expend log relay join_node sid)
        λ e. elim e [
          | some _ ↦ emit (asked_close_circuit sid)
          | none ↦
              or_stop (request_send_relay around sid (or_nil (new_probe_signal env.relay sid)))
                λ _. give tt
        ]

  -- handleGossipMsg, from the session with the client on
  unfoldable pub join_circuit : Bytes → Bytes → Act (Unit {0})
  unfolding get_dht_peers try_relay expend_and_probe
  join_circuit join_node sid log =
      if same join_node env.host_id
      then (or_stop (request_send_relay around sid (new_circuit_success env.relay sid))
            λ _. give tt)
          log
      else elim (get_dht_peers req_dht_peers_max_amount log) [
        | none ↦ (log, none)
        | some peers ↦
            (or_stop (try_relay retry_times peers join_node sid [] []) λ r.
                if r.1 then expend_and_probe r.0 join_node sid else emit (asked_close_circuit sid))
              log
      ]

  -- handleGossipMsg
  unfoldable pub handle_gossip_msg : ClientInfo → EncryptedNeg → Act (Unit {0})
  unfolding join_circuit
  handle_gossip_msg info neg_enc =
      or_stop
        (ask (asked_decrypt info.peer_id neg_enc.cypher)
          λ log. env.decrypt log info.peer_id neg_enc.cypher)
        λ neg. elim neg [
          | inr _ ↦ give tt
          | inl (sid, join) ↦
              or_stop (request_new_session around info.peer_id sid exit_role answer_role) λ e.
                elim e [
                  | some _ ↦ emit (asked_close_circuit sid)
                  | none ↦ join_circuit (or_nil (env.peer_decode join)) sid
                ]
        ]

  -- A round of handleNoiseMsg, on a message of the topic. The answer of the proxy is used before its error
  -- is looked at.
  unfoldable pub handle_published : Bytes → Act (Unit {0})
  handle_published data_bytes = elim (env.encrypted_neg.unmarshal data_bytes) [
    | malformed _ _ ↦ give tt
    | decoded neg ↦ ask (asked_client neg.des) (λ log. env.client log neg.des) >>= λ r. elim r [
      | late _ ↦ crash
      | reply none ↦ give tt
      | reply (some info) ↦ emit (gossip_started info.peer_id neg.des neg.cypher)
    ]
  ]

  -- handleNoiseMsg on the messages of the topic, `none` an error of the subscription, until the
  -- context is done.
  unfoldable pub handle_noise_msg : List (Option Bytes) → Act (Unit {0})
  unfolding handle_published
  handle_noise_msg [] = give tt
  handle_noise_msg (none ∷ msgs) = give tt
  handle_noise_msg (some data_bytes ∷ msgs) = handle_published data_bytes >> handle_noise_msg msgs

-- actorMsg.ReqGossipJoint and ReqDHTPeers, with their responses
pub data Request : Type 0 where
  req_gossip_joint : Bytes → Bytes → Request
  req_dht_peers : ℤ → Request

pub data Response : Type 0 where
  res_error : Option Error → Response
  res_dht_peers : List AddrInfo → Response

-- Receive
unfoldable pub receive : GossipEnv → Request → Act Response
unfolding gossip_joint get_dht_peers
receive env (req_gossip_joint des_hash neg_cypher) log =
    (gossip_joint env des_hash neg_cypher >>= λ e. give (res_error e)) log
receive env (req_dht_peers max) log = elim (get_dht_peers env max log) [
  | none ↦ (log, none)
  | some peers ↦ (log, some (res_dht_peers peers))
]
