-- ===== src/Proxy/Handler.antt =====
-- protocol/proxy/proxy.go, ProxyStreamHandler, and actor.go: the requests that reach a node, from a
-- peer on a stream or from an actor.
use white_noise.Prelude.{
  int_of_int32, ℕ, Bool, true, false, Option, none, some, List, [], ◌∷◌, Bytes, codes, map,
}
use white_noise.Errors.{Error, key_type, external, Outcome, ok, err, panic}
use white_noise.Wire.{decoded, malformed}
use white_noise.Services.{
  acked, stream_closed, reply, late, AddrInfo, Act, give, crash, ◌>>=◌, ◌>>◌, emit,
  request_dht_peers,
}
use white_noise.Id
use white_noise.Proxy.State.{
  get_online_nodes, new_proxy, new_circuit, decrypt_gossip, neg_plain_text, un_register_type,
  main_net_peers, other_reqtype, Request, NodeInfo, ProxyEnv, ClientInfo, Manager,
  proxy_service_time, add_client, un_register_client, get_client,
}
use white_noise.Proxy.Gossip.{handle_decrypt, handle_encrypt, decrypt_gossip_at}
use white_noise.Proxy.Circuit.{handle_new_circuit}

-- The text of an error, where a handler sends it.
abbrev pub text : Error → Bytes
text key_type = codes "not support key type"
text (external t) = t
text _ = []

module _ (env : ProxyEnv) where
  open env use {around, hashes, codecs}

  -- ack.ReqAck to the ack actor
  abbrev pub send_ack : Request → Bytes → Bool → Bytes → Act (Unit {0})
  send_ack request peer result payload =
      emit (acked (record { command_id = request.req_id; result = result; payload = payload }) peer)

  abbrev pub node_infos : List AddrInfo → List NodeInfo
  node_infos peers =
      map (λ (p : AddrInfo). record { id = env.id_string p.id; addr = p.addrs }) peers

  -- Reqtype_MainNetPeers
  unfoldable pub handle_main_net_peers : Request → Bytes → Act (Unit {0})
  handle_main_net_peers request peer = elim (codecs.main_net_peers.unmarshal request.payload) [
    | malformed _ _ ↦ send_ack request peer false (codes "Unmarshal getMainMetPeers err")
    | decoded max ↦ request_dht_peers around (int_of_int32 max) >>= λ r. elim r [
      | late _ ↦ send_ack request peer false (codes "get dht peers err")
      | reply peers ↦ elim (codecs.peers_list.marshal (node_infos peers)) [
        | none ↦ send_ack request peer false (codes "marshall peersList err")
        | some bytes ↦ send_ack request peer true bytes
      ]
    ]
  ]

  abbrev pub duration_of : Bytes → ℕ
  duration_of time = elim (env.parse_duration time) [ none ↦ proxy_service_time | some d ↦ d ]

  -- Reqtype_NewProxy, from the id on
  unfoldable pub register : Request → Bytes → Bytes → Bytes → Manager → Act Manager
  register request peer time white_noise_id m =
      elim (get_client m (Id.hash hashes white_noise_id)) [
        | some _ ↦ send_ack request peer false (codes "Proxy already") >> give m
        | none ↦
            send_ack request peer true []
            >> give (
                add_client env (Id.hash hashes white_noise_id)
                  (record {
                    white_noise_id = white_noise_id;
                    peer_id = peer;
                    state = 1;
                    time = duration_of time;
                  })
                  m)
      ]

  -- Reqtype_NewProxy
  unfoldable pub handle_new_proxy : Request → Bytes → Manager → Act Manager
  unfolding register
  handle_new_proxy request peer m = elim (codecs.new_proxy.unmarshal request.payload) [
    | malformed _ _ ↦ send_ack request peer false (codes "Unmarshal newProxy err") >> give m
    | decoded req ↦ elim (Id.white_noise_id_from_string hashes req.white_noise_id) [
      | panic ↦ crash
      | err e ↦ send_ack request peer false (text e) >> give m
      | ok white_noise_id ↦ register request peer req.time white_noise_id m
    ]
  ]

  -- Reqtype_NewCircuit
  unfoldable pub answer_circuit : Request → Bytes → Manager → Act (Unit {0})
  answer_circuit request peer m = handle_new_circuit env request peer m >>= λ r. elim r.1 [
    | some _ ↦ send_ack request peer false r.0
    | none ↦ send_ack request peer true []
  ]

  -- Reqtype_DecryptGossip and Reqtype_NegPlainText: the ack of a text that was computed.
  abbrev pub answer_text : Request → Bytes → Outcome Bytes → Act (Unit {0})
  answer_text request peer (ok bytes) = send_ack request peer true bytes
  answer_text request peer (err _) = send_ack request peer false []
  answer_text request peer panic = crash

  -- The switch of ProxyStreamHandler
  unfoldable pub handle_request : Request → Bytes → Manager → Act Manager
  unfolding handle_main_net_peers handle_new_proxy answer_circuit
  handle_request request peer m = elim request.reqtype [
    | main_net_peers ↦ handle_main_net_peers request peer >> give m
    | new_proxy ↦ handle_new_proxy request peer m
    | new_circuit ↦ answer_circuit request peer m >> give m
    | decrypt_gossip ↦ answer_text request peer (handle_decrypt env request) >> give m
    | neg_plain_text ↦ answer_text request peer (handle_encrypt env request m) >> give m
    | un_register_type ↦ give (un_register_client env peer m)
    | get_online_nodes ↦ give m
    | other_reqtype _ ↦ give m
  ]

  -- `defer stream.Close()`, which runs after a panic too
  abbrev pub deferred_close {ℓ} : {A : Type ℓ} → Act A → Act A
  deferred_close f log = (stream_closed ∷ (f log).0, (f log).1)

  -- ProxyStreamHandler: what ReadMsg gave, or `none` for its error, and the peer at the other end.
  unfoldable pub proxy_stream_handler : Option Bytes → Bytes → Manager → Act Manager
  unfolding handle_request
  proxy_stream_handler none peer m = deferred_close (give m)
  proxy_stream_handler (some payload) peer m =
      deferred_close (elim (codecs.request.unmarshal payload) [
        | malformed _ _ ↦ give m
        | decoded request ↦ handle_request request peer m
      ])

-- ReqGetClient, ReqDecrypt and ReqUnregister
pub data ActorRequest : Type 0 where
  req_get_client : Bytes → ActorRequest
  req_decrypt : Bytes → Bytes → ActorRequest
  req_unregister : Bytes → ActorRequest

-- ResGetClient and ResDecrypt
pub data ActorResponse : Type 0 where
  res_get_client : Option ClientInfo → ActorResponse
  res_decrypt : Outcome (Bytes × Bytes) → ActorResponse
  no_response : ActorResponse

-- Receive
unfoldable pub receive : ProxyEnv → ActorRequest → Manager → Act (Manager × ActorResponse)
receive env (req_get_client des) m = give (m, res_get_client (get_client m des))
receive env (req_decrypt cypher des) m =
    decrypt_gossip_at env des cypher >>= λ r. give (m, res_decrypt r)
receive env (req_unregister peer) m = give (un_register_client env peer m, no_response)
