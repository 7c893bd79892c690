-- ===== src/Gossip/Topic.antt =====
-- network/gossip: from GossipJoint at one node to handleNoiseMsg at another, and the peers that the actor gives.
use white_noise.Prelude.{
  ℤ, pos, negsuc, ℕ, ◌≡◌, ◌≤◌, refl, ap, sym, ◌∙◌, inl, inr, Option, none, some, List, [], ◌∷◌,
  ◌++◌, Bytes, length, take, map, length-map, length-take, take_all, ltb, Bool-cases, Option-cases,
  if◌then◌else◌, arith,
}
use mathlib.Core.List.{append_assoc}
use white_noise.Wire.{decoded, malformed, IsLossless, Decoded-cases}
use white_noise.Services.{
  Effect, asked_client, published, gossip_started, reply, AddrInfo, bind-given,
}
use white_noise.Proxy.State.{ClientInfo}
use white_noise.Gossip.{
  GossipEnv, noise_publish, gossip_joint, get_dht_peers, handle_published, handle_noise_msg,
  receive, Response, req_dht_peers, res_dht_peers,
}

-- The handlers that a log says were started, newest first.
abbrev pub started : List Effect → List (Bytes × Bytes × Bytes)
started [] = []
started (gossip_started peer des cypher ∷ log) = (peer, des, cypher) ∷ started log
started (_ ∷ log) = started log

module _ (env : GossipEnv) (clients : Bytes → Option ClientInfo) where
  -- The handlers that a published message calls for, and those of all messages up to an error of the
  -- subscription, the last one first.
  abbrev pub wanted : Bytes → List (Bytes × Bytes × Bytes)
  wanted data_bytes = elim (env.encrypted_neg.unmarshal data_bytes) [
    | malformed _ _ ↦ []
    | decoded neg ↦ elim (clients neg.des) [
      | none ↦ []
      | some info ↦ (info.peer_id, neg.des, neg.cypher) ∷ []
    ]
  ]

  abbrev pub all_wanted : List (Option Bytes) → List (Bytes × Bytes × Bytes)
  all_wanted [] = []
  all_wanted (none ∷ msgs) = []
  all_wanted (some data_bytes ∷ msgs) = all_wanted msgs ++ wanted data_bytes

  module _
      (answers : (log : List Effect) (des : Bytes) → env.client log des ≡ reply (clients des)) where
    handle_published-started :
        (data_bytes : Bytes) (log : List Effect)
        → ((handle_published env data_bytes log).1 ≡ some tt)
          × (started (handle_published env data_bytes log).0 ≡ wanted data_bytes ++ started log)
    unfolding handle_published
    handle_published-started data_bytes log =
        elim (Decoded-cases (env.encrypted_neg.unmarshal data_bytes)) [
          | inr (t, neg, e) ↦ rw (handle_published, e) (refl, rw (wanted, e) refl)
          | inl (neg, e) ↦ elim (Option-cases (clients neg.des)) [
            | inl f ↦
                rw (handle_published, e, answers log neg.des, f) (refl, rw (wanted, e, f) refl)
            | inr (info, f) ↦
                rw (handle_published, e, answers log neg.des, f) (refl, rw (wanted, e, f) refl)
          ]
        ]

    -- When the proxy answers each request for a client in time and with the same table of
    -- clients, handleNoiseMsg returns without a panic, and started one handler, with the client's
    -- peer and the negotiation, for each published message that is well-formed and for a client
    -- in the table, up to an error of the subscription, in their order, and no other.
    pub handle_noise_msg-started :
        (msgs : List (Option Bytes)) (log : List Effect)
        → ((handle_noise_msg env msgs log).1 ≡ some tt)
          × (started (handle_noise_msg env msgs log).0 ≡ all_wanted msgs ++ started log)
    unfolding handle_noise_msg
    handle_noise_msg-started [] log = (refl, refl)
    handle_noise_msg-started (none ∷ msgs) log = (refl, refl)
    handle_noise_msg-started (some data_bytes ∷ msgs) log =
        let (ends, first) = handle_published-started data_bytes log in
        let rest = handle_noise_msg-started msgs (handle_published env data_bytes log).0 in
        rw
          (bind-given (handle_published env data_bytes) (λ _. handle_noise_msg env msgs) log tt
            ends)
          (
            rest.0,
            rest.1
                ∙ ap (λ s. all_wanted msgs ++ s) first
                ∙ sym (append_assoc (all_wanted msgs) (wanted data_bytes) (started log)),
          )

-- If GossipJoint returns no error, then it published one message, and a node that gets this
-- message, reads what the publishing node's codec wrote, and whose proxy knows the destination as
-- a client, asks its proxy for it and starts a handler for the client's peer with just the
-- destination and the cyphertext that were given to GossipJoint.
pub handle_published-gossip_joint :
    (sender receiver : GossipEnv) (des cypher : Bytes) (info : ClientInfo) (log log' : List Effect)
    → IsLossless (record {
      marshal = sender.encrypted_neg.marshal;
      unmarshal = receiver.encrypted_neg.unmarshal;
    })
    → (gossip_joint sender des cypher log).1 ≡ some none
    → receiver.client log' des ≡ reply (some info)
    → (data_bytes : Bytes) × ((gossip_joint sender des cypher log).0 ≡ published data_bytes ∷ log)
      × (handle_published receiver data_bytes log'
          ≡ (gossip_started info.peer_id des cypher ∷ asked_client des ∷ log', some tt))
unfolding gossip_joint handle_published
handle_published-gossip_joint sender receiver des cypher info log log' lossless no_error known =
    elim (Option-cases (sender.encrypted_neg.marshal (record { des = des; cypher = cypher }))) [
      | inl e ↦ absurd (ground (arith, rw (gossip_joint, e) at no_error))
      | inr (data_bytes, e) ↦ elim (Option-cases (sender.publish_error log data_bytes)) [
        | inr (error, f) ↦
            absurd (ground (arith, rw (gossip_joint, e, noise_publish, f) at no_error))
        | inl f ↦ (
          data_bytes,
          rw (gossip_joint, e, noise_publish, f) refl,
          rw (handle_published, lossless.reads_back _ data_bytes e, known) refl,
        )
      ]
    ]

capped :
    (max : ℕ) (ids : List Bytes)
    → (if ltb max (length ids) then take max ids else ids) ≡ take max ids
capped max ids = elim (Bool-cases (ltb max (length ids))) [
  | inl e ↦ rw e refl
  | inr e ↦ rw e (sym (take_all max ids (ground (arith, e))))
]

-- What the actor does on a request for a number of peers.
abbrev pub Answers : GossipEnv → ℤ → List Effect → List Effect × Option Response → Type 0
Answers env (pos max) log r =
    (peers : List AddrInfo) × (r ≡ (log, some (res_dht_peers peers)))
    × (peers ≡ map env.find_local (take max (env.list_peers log)))
    × (length peers ≤ max)
Answers env (negsuc n) log r = r ≡ (log, none)

-- The gossip actor answers a request for peers whose maximum is not negative with at most as many
-- as were asked for, namely what the node knows of the first ones of its routing table, and does
-- nothing else; for a negative maximum it panics.
pub receive_dht_peers :
    (env : GossipEnv) (max : ℤ) (log : List Effect)
    → Answers env max log (receive env (req_dht_peers max) log)
unfolding receive get_dht_peers
receive_dht_peers env (negsuc n) log = refl
receive_dht_peers env (pos max) log =
    let ids = env.list_peers log in
    let taken = ap (map env.find_local) (capped max ids) in
    (
      map env.find_local (if ltb max (length ids) then take max ids else ids),
      refl,
      taken,
      rw taken (omega (arith, length-map env.find_local (take max ids), length-take max ids)),
    )
