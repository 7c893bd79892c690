-- ===== src/Examples/Topics.antt =====
-- A server of the network: the topic of negotiations, and the search for a relay node.
use white_noise.Prelude.{
  pos, ◌≡◌, ◌≤◌, refl, inl, inr, none, some, List, [], ◌∷◌, arith, Bytes, map, length, take, All,
  same,
}
use white_noise.Wire.{Codec, IsLossless, decoded}
use white_noise.Services.{AddrInfo, reply, published, gossip_started, asked_client, asked_decrypt}
use white_noise.Search.{search}
use white_noise.Search.Rotation.{rotate, first_accepted, search-first_accepted}
use white_noise.Gossip.{
  GossipEnv, EncryptedNeg, gossip_joint, try_relay, handle_published, handle_noise_msg,
  handle_gossip_msg, receive, req_dht_peers, res_dht_peers,
}
use white_noise.Gossip.Choice.{AsksAllowed, AtEnd, try_relay-AsksAllowed}
use white_noise.Gossip.Topic.{
  started, handle_noise_msg-started, handle_published-gossip_joint, receive_dht_peers,
}
use white_noise.Gossip.Ending.{IsPrompt, Ended, handle_gossip_msg-Ended}
use white_noise.Examples.RelayNodes.{healthy_env}
use white_noise.Examples.Requests.{frame, first_part, second_part, frame_parts, calm}
use white_noise.Examples.Proxies.{sample_info}

abbrev peer_of : Bytes → AddrInfo
peer_of id = record { id = id; addrs = [] }

abbrev three_peers : List AddrInfo
three_peers = map peer_of ((1 ∷ []) ∷ (2 ∷ []) ∷ (3 ∷ []) ∷ [])

search-first_accepted_example :
    search (λ id. same id (1 ∷ [])) three_peers (length three_peers) 4 []
    ≡ some (first_accepted (λ id. same id (1 ∷ [])) (rotate 2 three_peers) [])
search-first_accepted_example =
    search-first_accepted (λ id. same id (1 ∷ [])) three_peers 4 [] (omega arith)

abbrev neg_codec : Codec EncryptedNeg
neg_codec = record {
  marshal = λ n. some (frame n.des n.cypher);
  unmarshal = λ b. decoded (record { des = first_part b; cypher = second_part b });
}

neg_codec-IsLossless : IsLossless neg_codec
neg_codec-IsLossless = record {
  reads_back =
      λ a b e. ground (arith, (frame_parts a.des a.cypher).0, (frame_parts a.des a.cypher).1);
}

abbrev gossip_env : GossipEnv
gossip_env = record {
  around = calm;
  relay = healthy_env;
  encrypted_neg = neg_codec;
  host_id = 1 ∷ [];
  id_string = λ id. id;
  peer_decode = λ text. some text;
  random = λ log. 4;
  list_peers = λ log. (1 ∷ []) ∷ (2 ∷ []) ∷ (3 ∷ []) ∷ [];
  find_local = peer_of;
  publish_error = λ log b. none;
  client = λ log des. reply (some sample_info);
  decrypt = λ log peer cypher. reply (inl (6 ∷ [], 3 ∷ []));
  expend = λ log relay join_node sid. reply none;
}

gossip_env-IsPrompt : IsPrompt gossip_env
gossip_env-IsPrompt = record {
  on_session = λ log peer sid mine other. inr refl;
  on_relay = λ log sid msg. inr refl;
  on_expend = λ log relay join_node sid. inr refl;
}

abbrev sample_neg : EncryptedNeg
sample_neg = record { des = 5 ∷ []; cypher = 8 ∷ [] }

handle_gossip_msg-Ended_example :
    (handle_gossip_msg gossip_env sample_info sample_neg []).1 ≡ some tt
    × Ended gossip_env
        (6 ∷ [])
        (3 ∷ [])
        (9 ∷ [])
        (asked_decrypt (9 ∷ []) (8 ∷ []) ∷ [])
        (handle_gossip_msg gossip_env sample_info sample_neg []).0
handle_gossip_msg-Ended_example =
    handle_gossip_msg-Ended gossip_env sample_info sample_neg (6 ∷ []) (3 ∷ []) []
      gossip_env-IsPrompt (λ log. omega arith) refl

try_relay-AsksAllowed_example :
    All
      (AsksAllowed gossip_env (3 ∷ []))
      (try_relay gossip_env 3 three_peers (3 ∷ []) (6 ∷ []) [] [] []).0
    × AtEnd gossip_env (3 ∷ []) (try_relay gossip_env 3 three_peers (3 ∷ []) (6 ∷ []) [] [] []).1
try_relay-AsksAllowed_example =
    try_relay-AsksAllowed gossip_env 3 three_peers (3 ∷ []) (6 ∷ []) [] [] [] (inl refl) tt

handle_noise_msg-started_example :
    ((handle_noise_msg gossip_env (some (1 ∷ 5 ∷ 8 ∷ []) ∷ none ∷ []) []).1 ≡ some tt)
    × (started (handle_noise_msg gossip_env (some (1 ∷ 5 ∷ 8 ∷ []) ∷ none ∷ []) []).0
        ≡ (9 ∷ [], 5 ∷ [], 8 ∷ []) ∷ [])
handle_noise_msg-started_example =
    handle_noise_msg-started gossip_env (λ des. some sample_info) (λ log des. refl)
      (some (1 ∷ 5 ∷ 8 ∷ []) ∷ none ∷ []) []

handle_published-gossip_joint_example :
    (data_bytes : Bytes) × ((gossip_joint gossip_env (5 ∷ []) (8 ∷ []) []).0
      ≡ published data_bytes ∷ [])
    × (handle_published gossip_env data_bytes []
        ≡ (gossip_started (9 ∷ []) (5 ∷ []) (8 ∷ []) ∷ asked_client (5 ∷ []) ∷ [], some tt))
unfolding gossip_joint
handle_published-gossip_joint_example =
    handle_published-gossip_joint gossip_env gossip_env (5 ∷ []) (8 ∷ []) sample_info [] []
      neg_codec-IsLossless refl refl

receive_dht_peers_example :
    (peers : List AddrInfo) × (receive gossip_env (req_dht_peers (pos 2)) []
      ≡ ([], some (res_dht_peers peers)))
    × (peers ≡ map peer_of (take 2 (gossip_env.list_peers [])))
    × (length peers ≤ 2)
receive_dht_peers_example = receive_dht_peers gossip_env (pos 2) []
