-- ===== src/Examples/Clients.antt =====
-- A node that asks its proxy and the bootstrap node.
use white_noise.Prelude.{
  pos, ℕ, zero, suc, ◌≡◌, ap, refl, inl, true, false, Option, none, some, List, [], ◌∷◌, arith,
  Bytes, replicate, leb,
}
use white_noise.Errors.{ok}
use white_noise.SyncMap.{load-empty}
use white_noise.Wire.{Codec, IsLossless, decoded, malformed, or_nil}
use white_noise.Services.{
  Surroundings, AddrInfo, acked, asked_dht_peers, stream_closed, opened, wrote, task_added,
  task_deleted, reply,
}
use white_noise.Id
use white_noise.Relay.State.{new_relay_msg_manager, client_mode}
use white_noise.Proxy.State.{
  Reqtype, get_online_nodes, new_proxy, new_circuit, decrypt_gossip, neg_plain_text,
  un_register_type, main_net_peers, other_reqtype, Request, NewProxy, NodeInfo, ClientInfo,
  ProxyEnv, new_proxy_service, add_client,
}
use white_noise.Proxy.Handler.{handle_main_net_peers, proxy_stream_handler, duration_of}
use white_noise.Noise.{
  Service, NoiseEnv, registration_time, register_proxy, start_circuit, get_mainnet_peers,
}
use white_noise.Sdk.{Passing, session_of, dial}
use white_noise.Sdk.Dialling.{Dialled, dial-Dialled}
use white_noise.Noise.Circuits.{Ended, start_circuit-Ended}
use white_noise.Noise.Peers.{peers_request, get_mainnet_peers-handle_main_net_peers}
use white_noise.Noise.Registration.{registration, proxy_stream_handler-register_proxy}
use white_noise.Examples.Codecs.{sample_hashes}
use white_noise.Examples.Requests.{frame, first_part, second_part, frame_parts, calm}
use white_noise.Examples.Proxies.{proxy_env, sample_id, id_text}

abbrev number_of : Reqtype → ℕ
number_of get_online_nodes = 0
number_of new_proxy = 1
number_of new_circuit = 2
number_of decrypt_gossip = 3
number_of neg_plain_text = 4
number_of un_register_type = 5
number_of main_net_peers = 6
number_of (other_reqtype n) = suc (suc (suc (suc (suc (suc (suc n))))))

abbrev reqtype_of : ℕ → Reqtype
reqtype_of zero = get_online_nodes
reqtype_of (suc zero) = new_proxy
reqtype_of (suc (suc zero)) = new_circuit
reqtype_of (suc (suc (suc zero))) = decrypt_gossip
reqtype_of (suc (suc (suc (suc zero)))) = neg_plain_text
reqtype_of (suc (suc (suc (suc (suc zero))))) = un_register_type
reqtype_of (suc (suc (suc (suc (suc (suc zero)))))) = main_net_peers
reqtype_of (suc (suc (suc (suc (suc (suc (suc n))))))) = other_reqtype n

reqtype_of-number_of : (t : Reqtype) → reqtype_of (number_of t) ≡ t
reqtype_of-number_of get_online_nodes = refl
reqtype_of-number_of new_proxy = refl
reqtype_of-number_of new_circuit = refl
reqtype_of-number_of decrypt_gossip = refl
reqtype_of-number_of neg_plain_text = refl
reqtype_of-number_of un_register_type = refl
reqtype_of-number_of main_net_peers = refl
reqtype_of-number_of (other_reqtype n) = refl

abbrev request_codec : Codec Request
request_codec = record {
  marshal = λ r. some (number_of r.reqtype ∷ frame r.req_id (frame r.from r.payload));
  unmarshal = elim [
    | [] ↦
        malformed [] (record { req_id = []; from = []; reqtype = get_online_nodes; payload = [] })
    | k ∷ b ↦ decoded (record {
      req_id = first_part b;
      from = first_part (second_part b);
      reqtype = reqtype_of k;
      payload = second_part (second_part b);
    })
  ];
}

request_codec-IsLossless : IsLossless request_codec
request_codec-IsLossless = record {
  reads_back = λ r b e. ground (
    arith,
    reqtype_of-number_of r.reqtype,
    (frame_parts r.req_id (frame r.from r.payload)).0,
    (frame_parts r.req_id (frame r.from r.payload)).1,
    (frame_parts r.from r.payload).0,
    (frame_parts r.from r.payload).1,
  );
}

abbrev new_proxy_codec : Codec NewProxy
new_proxy_codec = record {
  marshal = λ p. some (frame p.time p.white_noise_id);
  unmarshal = λ b. decoded (record { time = first_part b; white_noise_id = second_part b });
}

new_proxy_codec-IsLossless : IsLossless new_proxy_codec
new_proxy_codec-IsLossless = record {
  reads_back = λ p b e.
      ground
        (arith, (frame_parts p.time p.white_noise_id).0, (frame_parts p.time p.white_noise_id).1);
}

abbrev max_codec : Codec ℕ
max_codec = record {
  marshal = λ n. some (n ∷ []);
  unmarshal = elim [ [] ↦ decoded 0 | n ∷ _ ↦ decoded n ];
}

max_codec-IsLossless : IsLossless max_codec
max_codec-IsLossless = record { reads_back = λ n b e. ground (arith, e) }

-- A codec that marshals no list, or one node with one address.
abbrev marshal_node : Bytes → List Bytes → Option Bytes
marshal_node id (a ∷ []) = some (frame id a)
marshal_node id [] = none
marshal_node id (_ ∷ _ ∷ _) = none

abbrev marshal_peers : List NodeInfo → Option Bytes
marshal_peers [] = some []
marshal_peers (p ∷ []) = marshal_node p.id p.addr
marshal_peers (_ ∷ _ ∷ _) = none

abbrev unmarshal_peers : Bytes → List NodeInfo
unmarshal_peers [] = []
unmarshal_peers (n ∷ b) = record { id = first_part (n ∷ b); addr = second_part (n ∷ b) ∷ [] } ∷ []

unmarshal_peers-marshal_node :
    (id : Bytes) (addr : List Bytes) (b : Bytes)
    → marshal_node id addr ≡ some b
    → unmarshal_peers b ≡ record { id = id; addr = addr } ∷ []
unmarshal_peers-marshal_node id [] b e = absurd (ground (arith, e))
unmarshal_peers-marshal_node id (a ∷ []) b e =
    ground (arith, e, (frame_parts id a).0, (frame_parts id a).1)
unmarshal_peers-marshal_node id (_ ∷ _ ∷ _) b e = absurd (ground (arith, e))

unmarshal_peers-marshal_peers :
    (peers : List NodeInfo) (b : Bytes) → marshal_peers peers ≡ some b → unmarshal_peers b ≡ peers
unmarshal_peers-marshal_peers [] b e = ground (arith, e)
unmarshal_peers-marshal_peers (p ∷ []) b e = unmarshal_peers-marshal_node p.id p.addr b e
unmarshal_peers-marshal_peers (_ ∷ _ ∷ _) b e = absurd (ground (arith, e))

abbrev peers_codec : Codec (List NodeInfo)
peers_codec = record { marshal = marshal_peers; unmarshal = λ b. decoded (unmarshal_peers b) }

peers_codec-IsLossless : IsLossless peers_codec
peers_codec-IsLossless = record {
  reads_back = λ peers b e. ap decoded (unmarshal_peers-marshal_peers peers b e);
}

abbrev some_peers : List AddrInfo
some_peers = record { id = 5 ∷ []; addrs = (6 ∷ []) ∷ [] } ∷ []

abbrev peers_bytes : Bytes
peers_bytes = frame (5 ∷ []) (6 ∷ [])

-- The other actors and the network, which answers each request with these peers.
abbrev answering : Surroundings
answering = record calm {
  dht_peers = λ log max. reply some_peers;
  ack_result = λ log id. some (true, peers_bytes);
}

abbrev client_proxy_env : ProxyEnv
client_proxy_env = record proxy_env {
  codecs = record proxy_env.codecs {
    request = request_codec;
    new_proxy = new_proxy_codec;
    main_net_peers = max_codec;
    peers_list = peers_codec;
  };
}

abbrev pub noise_env : NoiseEnv
noise_env = record {
  proxy = client_proxy_env;
  un_register = record { marshal = λ ids. some []; unmarshal = λ b. decoded [] };
  account_id = sample_id;
  bootstrap_peer = 2 ∷ [];
  peer_decode = λ text. some text;
  new_multiaddr = λ text. some text;
  meanwhile = λ s. s;
  white_list_mode = false;
  white_list = λ peer. false;
}

abbrev asking_env : NoiseEnv
asking_env = record noise_env { proxy = record client_proxy_env { around = answering } }

abbrev fresh_service : Service
fresh_service = record {
  relay = new_relay_msg_manager client_mode sample_id;
  proxy = new_proxy_service;
  proxy_node = 8 ∷ [];
}

start_circuit-Ended_example :
    Ended noise_env
      (8 ∷ [])
      id_text
      (7 ∷ [])
      []
      (start_circuit noise_env id_text (7 ∷ []) fresh_service [])
start_circuit-Ended_example = start_circuit-Ended noise_env id_text (7 ∷ []) fresh_service []

abbrev no_id_bytes : Bytes
no_id_bytes = 6 ∷ frame [] (frame [] (3 ∷ []))

get_mainnet_peers-handle_main_net_peers_example :
    (handle_main_net_peers asking_env.proxy
        (peers_request asking_env (3 ∷ []) no_id_bytes)
        (9 ∷ [])
        []
      ≡ (
        acked
              (record {
                command_id = (peers_request asking_env (3 ∷ []) no_id_bytes).req_id;
                result = true;
                payload = peers_bytes;
              })
              (9 ∷ [])
            ∷ asked_dht_peers (pos 3)
            ∷ [],
        some tt,
      ))
    × ((get_mainnet_peers asking_env (pos 3) []).1 ≡ some (ok some_peers))
get_mainnet_peers-handle_main_net_peers_example =
    get_mainnet_peers-handle_main_net_peers asking_env asking_env.proxy (pos 3) some_peers (3 ∷ [])
      no_id_bytes (or_nil (request_codec.marshal (peers_request asking_env (3 ∷ []) no_id_bytes)))
      peers_bytes (9 ∷ []) [] [] max_codec-IsLossless peers_codec-IsLossless (λ id. refl)
      ((refl, tt), tt) refl refl refl refl refl refl refl refl

abbrev id_request : Request
id_request =
    registration noise_env (frame registration_time id_text)
      (1 ∷ frame [] (frame (1 ∷ []) (frame registration_time id_text)))

abbrev id_message : Bytes
id_message = or_nil (request_codec.marshal id_request)

proxy_stream_handler-register_proxy_example :
    (register_proxy noise_env (8 ∷ []) fresh_service [] ≡ (
      task_deleted id_request.req_id
          ∷ task_added id_request.req_id
          ∷ wrote (8 ∷ []) id_message
          ∷ opened (8 ∷ [])
          ∷ [],
      some (fresh_service, ok tt),
    ))
    × (proxy_stream_handler noise_env.proxy (some id_message) (9 ∷ []) new_proxy_service [] ≡ (
      stream_closed
          ∷ acked (record { command_id = id_request.req_id; result = true; payload = [] }) (9 ∷ [])
          ∷ [],
      some (
          add_client noise_env.proxy
            (Id.hash sample_hashes sample_id)
            (record {
              white_noise_id = sample_id;
              peer_id = 9 ∷ [];
              state = 1;
              time = duration_of noise_env.proxy registration_time;
            })
            new_proxy_service),
    ))
unfolding Id.string
proxy_stream_handler-register_proxy_example =
    proxy_stream_handler-register_proxy noise_env noise_env.proxy fresh_service new_proxy_service
      (8 ∷ []) (9 ∷ []) (frame registration_time id_text)
      (1 ∷ frame [] (frame (1 ∷ []) (frame registration_time id_text))) id_message (replicate 32 4)
      0 [] [] new_proxy_codec-IsLossless request_codec-IsLossless refl (λ b. refl) refl
      (inl (refl, refl)) refl refl refl
      (load-empty {V = ClientInfo} (Id.hash sample_hashes sample_id)) refl refl refl

-- A timer that fires by the third poll.
abbrev short_wait : Passing
short_wait = record { later = λ s i. s; is_over = λ i. leb 2 i; now = 1 }

dial-Dialled_example :
    Dialled noise_env short_wait
      (session_of noise_env short_wait id_text)
      id_text
      2
      (dial noise_env short_wait 3 id_text fresh_service []).1
dial-Dialled_example =
    dial-Dialled noise_env short_wait 3 2 id_text fresh_service [] refl (omega arith)
