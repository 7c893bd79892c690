-- ===== src/Noise/Peers.antt =====
-- network/noise/noise.go, GetMainnetPeers, with protocol/proxy/proxy.go, which answers it.
use white_noise.Prelude.{
  ℤ, int32_of, int_of_int32, ◌≡◌, refl, ap, true, none, some, List, [], ◌∷◌, Bytes, All,
}
use white_noise.Errors.{ok, peers_rejected}
use white_noise.Wire.{IsLossless}
use white_noise.Services.{
  Effect, acked, asked_dht_peers, opened, wrote, task_added, reply, AddrInfo,
}
use white_noise.Proxy.State.{Request, main_net_peers, ProxyEnv}
use white_noise.Proxy.Handler.{node_infos, handle_main_net_peers}
use white_noise.Noise.Exchange.{exchange_acked}
use white_noise.Noise.{
  NoiseEnv, bare_request, with_id, exchange, with_stream, twice_checked_exchange, parse_addrs,
  with_addrs, parse_peers, get_mainnet_peers,
}

-- The peers that have an address.
abbrev pub reachable : List AddrInfo → List AddrInfo
reachable [] = []
reachable (p ∷ peers) = elim p.addrs [ [] ↦ reachable peers | _ ∷ _ ↦ p ∷ reachable peers ]

module _ (client : NoiseEnv) where
  -- The text of each address is read as the address.
  abbrev pub IsReadable : AddrInfo → Type 0
  IsReadable p = All (λ (a : Bytes). client.new_multiaddr a ≡ some a) p.addrs

  parse_addrs_readable :
      (addrs : List Bytes)
      → All (λ (a : Bytes). client.new_multiaddr a ≡ some a) addrs
      → parse_addrs client addrs ≡ addrs
  parse_addrs_readable [] h = refl
  parse_addrs_readable (a ∷ addrs) (e, h) =
      rw (parse_addrs, e) (ap (λ l. a ∷ l) (parse_addrs_readable addrs h))

  kept :
      (id : Bytes) (addrs : List Bytes) (infos peers : List AddrInfo)
      → infos ≡ reachable peers
      → with_addrs client id addrs infos ≡ reachable (record { id = id; addrs = addrs } ∷ peers)
  kept id [] infos peers e = e
  kept id (a ∷ addrs) infos peers e = ap (λ ps. record { id = id; addrs = a ∷ addrs } ∷ ps) e

  parse_peers-node_infos :
      (server : ProxyEnv)
      → ((id : Bytes) → client.peer_decode (server.id_string id) ≡ some id)
      → (peers : List AddrInfo) → All IsReadable peers
      → parse_peers client (node_infos server peers) ≡ reachable peers
  unfolding parse_peers
  parse_peers-node_infos server decodes [] h = refl
  parse_peers-node_infos server decodes (p ∷ peers) (readable, h) =
      rw (parse_peers, decodes p.id, parse_addrs_readable p.addrs readable)
        (kept p.id p.addrs _ peers (parse_peers-node_infos server decodes peers h))

  -- The request of GetMainnetPeers, for the message and the bytes without an id.
  abbrev pub peers_request : Bytes → Bytes → Request
  peers_request asked no_id = with_id client (bare_request client main_net_peers [] asked) no_id

  -- When the bootstrap node's gossip actor knows some peers, it acks a GetMainnetPeers request,
  -- for the maximum as an int32, with success and the marshalled peers; and when the client gets
  -- an ack with this data, GetMainnetPeers returns just those of the peers, in their order and
  -- with their addresses, that have an address, for codecs that lose nothing, peer ids that are
  -- decoded from their text and addresses that are read from theirs, and a network that takes
  -- what is written.
  pub get_mainnet_peers-handle_main_net_peers :
      (server : ProxyEnv) (max : ℤ) (peers : List AddrInfo) (asked no_id msg bytes : Bytes)
      (peer : Bytes) (log log' : List Effect)
      → IsLossless (record {
        marshal = client.proxy.codecs.main_net_peers.marshal;
        unmarshal = server.codecs.main_net_peers.unmarshal;
      })
      → IsLossless (record {
        marshal = server.codecs.peers_list.marshal;
        unmarshal = client.proxy.codecs.peers_list.unmarshal;
      })
      → ((id : Bytes) → client.peer_decode (server.id_string id) ≡ some id)
      → All IsReadable peers
      → client.proxy.codecs.main_net_peers.marshal (int32_of max) ≡ some asked
      → client.proxy.codecs.request.marshal (bare_request client main_net_peers [] asked)
        ≡ some no_id
      → client.proxy.codecs.request.marshal (peers_request asked no_id) ≡ some msg
      → server.around.dht_peers log' (int_of_int32 (int32_of max)) ≡ reply peers
      → server.codecs.peers_list.marshal (node_infos server peers) ≡ some bytes
      → client.proxy.around.new_stream_error log client.bootstrap_peer ≡ none
      → client.proxy.around.write_error (opened client.bootstrap_peer ∷ log) client.bootstrap_peer
        ≡ none
      → client.proxy.around.ack_result
          (task_added (peers_request asked no_id).req_id
            ∷ wrote client.bootstrap_peer msg
            ∷ opened client.bootstrap_peer
            ∷ log)
          (peers_request asked no_id).req_id
        ≡ some (true, bytes)
      → (handle_main_net_peers server (peers_request asked no_id) peer log' ≡ (
        acked
              (record {
                command_id = (peers_request asked no_id).req_id;
                result = true;
                payload = bytes;
              })
              peer
            ∷ asked_dht_peers (int_of_int32 (int32_of max))
            ∷ log',
        some tt,
      ))
        × ((get_mainnet_peers client max log).1 ≡ some (ok (reachable peers)))
  unfolding handle_main_net_peers get_mainnet_peers exchange
  get_mainnet_peers-handle_main_net_peers server max peers asked no_id msg bytes peer log log'
        lossless_max lossless_peers decodes readable a n w answer b opens writes acks =
      (
        rw (handle_main_net_peers, lossless_max.reads_back _ asked a, answer, b) refl,
        rw
            (
              get_mainnet_peers,
              with_stream,
              opens,
              a,
              twice_checked_exchange,
              n,
              w,
              exchange_acked client client.bootstrap_peer (peers_request asked no_id)
                  (λ _. peers_rejected) (opened client.bootstrap_peer ∷ log) bytes writes
                  (rw w acks),
              lossless_peers.reads_back _ bytes b,
              parse_peers-node_infos server decodes peers readable,
            )
            refl,
      )
