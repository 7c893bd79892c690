-- ===== src/Noise.antt =====
-- network/noise/noise.go and notify.go: the node's own requests to a proxy and to the bootstrap node, and what
-- it does when the network tells it of connections and streams.
mod Exchange
pub mod Circuits
pub mod Peers
pub mod Registration
use white_noise.Prelude.{
  ℤ, pos, negsuc, int32_of, int_of_int32, ℕ, ◌%◌, Bool, true, false, not, ◌&&◌, Option, none, some,
  List, [], ◌∷◌, Bytes, codes, map, if◌then◌else◌,
}
use white_noise.Errors.{
  Error, timeout, no_proxy, circuit_exists, peers_rejected, peers_malformed, register_rejected,
  circuit_rejected, external, Outcome, ok, err, panic,
}
use white_noise.Wire.{Codec, decoded, malformed, Hashes, encode_msg_id_hash, or_nil}
use white_noise.Session.{caller_role, entry_role}
use white_noise.Services.{
  Effect, opened, Surroundings, AddrInfo, Act, give, bind, write_to, await_ack,
}
use white_noise.Id
use white_noise.Relay.State as RelayState
use white_noise.Relay.State.{Env, get_session, add_circuit_conn_caller, get_session_id_list}
use white_noise.Relay.Sending.{close_circuit}
use white_noise.Relay.Setup.{new_session_to_peer}
use white_noise.Relay.Actor.{handle_stream_closed}
use white_noise.Proxy.State as ProxyState
use white_noise.Proxy.State.{
  Reqtype, new_proxy, new_circuit, un_register_type, main_net_peers, Request, ProxyEnv, ProxyCodecs,
  NodeInfo, add_new_circuit_task, un_register_client,
}

-- NoiseService, as far as it changes: the managers, and ProxyNode, which is empty where there is none.
pub record Service : Type 0 where
  pub relay : RelayState.Manager
  pub proxy : ProxyState.Manager
  pub proxy_node : Bytes

-- What the node has from the libraries and the other nodes. `meanwhile` is what the other goroutines do while
-- one waits.
pub record NoiseEnv : Type 0 where
  pub proxy : ProxyEnv
  pub un_register : Codec (List Bytes)  -- pb.UnRegister: its session ids
  pub account_id : Bytes  -- Account.GetPublicKey().GetWhiteNoiseID()
  pub bootstrap_peer : Bytes
  pub peer_decode : Bytes → Option Bytes  -- peer.Decode
  pub new_multiaddr : Bytes → Option Bytes  -- multiaddr.NewMultiaddr, as its text
  pub meanwhile : Service → Service
  pub white_list_mode : Bool
  pub white_list : Bytes → Bool

-- What the NoiseNotifiee does to a connection and the peerstore.
pub data Noticed : Type 0 where
  conn_closed : Noticed
  addr_added addrs_cleared : Bytes → Noticed

-- `time.Hour.String()`
abbrev pub registration_time : Bytes
registration_time = codes "1h0m0s"

module _ (env : NoiseEnv) where
  open env use {proxy}
  open proxy use {around, hashes, codecs}

  -- A request without its id.
  abbrev pub bare_request : Reqtype → Bytes → Bytes → Request
  bare_request reqtype from payload = record {
    req_id = [];
    from = from;
    reqtype = reqtype;
    payload = payload;
  }

  -- The request with the hash of its bytes without an id as its id.
  abbrev pub with_id : Request → Bytes → Request
  with_id bare no_id = record bare { req_id = encode_msg_id_hash hashes (hashes.sha256 no_id) }

  -- The request is written on the stream to the peer, and its ack awaited: the data of the ack.
  unfoldable pub exchange : Bytes → Request → (Bytes → Error) → Act (Outcome Bytes)
  exchange peer req refused = bind (write_to around peer (or_nil (codecs.request.marshal req))) λ e.
      elim e [
        | some e' ↦ give (err e')
        | none ↦ bind (await_ack around req.req_id) λ r. elim r [
          | none ↦ give (err timeout)
          | some result ↦ give (if result.0 then ok result.1 else err (refused result.1))
        ]
      ]

  -- NewStream to a peer for the proxy protocol, and what follows where it opens.
  abbrev pub with_stream : {A : Type 0} → Bytes → Act (Outcome A) → Act (Outcome A)
  with_stream peer f log = elim (around.new_stream_error log peer) [
    | some e ↦ (log, some (err e))
    | none ↦ f (opened peer ∷ log)
  ]

  -- The request, marshalled twice, of which the first failure is an error.
  abbrev pub checked_exchange : Bytes → Request → (Bytes → Error) → Act (Outcome Bytes)
  checked_exchange peer bare refused = elim (codecs.request.marshal bare) [
    | none ↦ give (err (external []))
    | some no_id ↦ exchange peer (with_id bare no_id) refused
  ]

  -- The same, where the second failure is an error, too.
  abbrev pub twice_checked_exchange : Bytes → Request → (Bytes → Error) → Act (Outcome Bytes)
  twice_checked_exchange peer bare refused = elim (codecs.request.marshal bare) [
    | none ↦ give (err (external []))
    | some no_id ↦ elim (codecs.request.marshal (with_id bare no_id)) [
      | none ↦ give (err (external []))
      | some _ ↦ exchange peer (with_id bare no_id) refused
    ]
  ]

  -- RegisterProxy, its request and the answer
  unfoldable pub ask_registration : Bytes → Act (Outcome Bytes)
  unfolding exchange
  ask_registration proxy_id =
      with_stream proxy_id
        (elim (codecs.new_proxy.marshal
          (record { time = registration_time; white_noise_id = Id.string hashes env.account_id })) [
            | none ↦ give (err (external []))
            | some bytes ↦
                checked_exchange proxy_id
                  (bare_request new_proxy (proxy.id_string proxy.host_id) bytes) register_rejected
          ])

  abbrev pub registered : Bytes → Service → Outcome Bytes → Service × Outcome (Unit {0})
  registered proxy_id s (ok _) = (record s { proxy_node = proxy_id }, ok tt)
  registered proxy_id s (err e) = (s, err e)
  registered proxy_id s panic = (s, panic)

  -- RegisterProxy
  unfoldable pub register_proxy : Bytes → Service → Act (Service × Outcome (Unit {0}))
  unfolding ask_registration
  register_proxy proxy_id s = bind (ask_registration proxy_id) λ r. give (registered proxy_id s r)

  -- UnRegister, its request; no answer is awaited.
  unfoldable pub tell_un_register : Service → Act (Outcome (Unit {0}))
  tell_un_register s = elim s.proxy_node [
    | [] ↦ give (err no_proxy)
    | c ∷ cs ↦ with_stream (c ∷ cs) (elim (env.un_register.marshal (get_session_id_list s.relay)) [
      | none ↦ give (err (external []))
      | some bytes ↦
          let bare = bare_request un_register_type (proxy.id_string proxy.host_id) bytes in
          elim (codecs.request.marshal bare) [
            | none ↦ give (err (external []))
            | some no_id ↦
                bind
                  (write_to around (c ∷ cs) (or_nil (codecs.request.marshal (with_id bare no_id))))
                  λ e. give (elim e [ none ↦ ok tt | some e' ↦ err e' ])
          ]
    ])
  ]

  -- UnRegister: whatever happens, the node has no proxy after it.
  unfoldable pub un_register : Service → Act (Service × Outcome (Unit {0}))
  unfolding tell_un_register
  un_register s = bind (tell_un_register s) λ r. give (record s { proxy_node = [] }, r)

  -- CloseCircuit of the relay manager.
  abbrev pub close : Bytes → Service → Service
  close sid s = record s { relay = (close_circuit proxy.relay sid s.relay).0 }

  -- What NewCircuit makes of the answer: a refusal closes the circuit at once.
  abbrev pub answered : Bytes → Service → Outcome Bytes → Service × Outcome (Unit {0})
  answered sid s (ok _) = (s, ok tt)
  answered sid s (err (circuit_rejected t)) = (close sid s, err (circuit_rejected t))
  answered sid s (err e) = (s, err e)
  answered sid s panic = (s, panic)

  -- The end of NewCircuit, from the new stream to the proxy on: the request, and its answer. An error of
  -- the second and third Marshal is overwritten by WriteMsg's.
  unfoldable pub ask_circuit : Bytes → Bytes → Service → Act (Service × Outcome (Unit {0}))
  unfolding exchange
  ask_circuit destination sid s =
      elim (codecs.new_circuit.marshal (record {
        from = Id.hash hashes env.account_id;
        to = Id.hash hashes destination;
        session_id = sid;
      })) [
        | none ↦ give (s, err (external []))
        | some bytes ↦
            let bare = bare_request new_circuit (proxy.id_string proxy.host_id) bytes in
            let req = with_id bare (or_nil (codecs.request.marshal bare)) in
            bind (exchange s.proxy_node req circuit_rejected)
              λ r. give (answered sid (env.meanwhile s) r)
      ]

  -- NewCircuit, from the session with the proxy on
  unfoldable pub open_circuit : Bytes → Bytes → Service → Act (Service × Outcome (Unit {0}))
  unfolding ask_circuit
  open_circuit destination sid s log = elim (around.new_stream_error log s.proxy_node) [
    | some e ↦ (log, some (s, err e))
    | none ↦
        ask_circuit destination sid
          (record s { relay = add_circuit_conn_caller sid destination s.relay })
          (opened s.proxy_node ∷ log)
  ]

  -- NewCircuit, from the destination's id on
  unfoldable pub dial : Bytes → Bytes → Service → Act (Service × Outcome (Unit {0}))
  unfolding open_circuit
  dial destination sid s =
      let s' = record s { proxy = add_new_circuit_task sid destination s.proxy } in
      elim (get_session s'.relay sid) [
        | some _ ↦ give (s', err circuit_exists)
        | none ↦
            let (m, e) =
              new_session_to_peer proxy.relay s'.proxy_node sid caller_role entry_role s'.relay in
            elim e [
              | some e' ↦ give (record s' { relay = m }, err e')
              | none ↦ open_circuit destination sid (record s' { relay = m })
            ]
      ]

  -- The deferred end of NewCircuit: an error closes the circuit.
  abbrev pub close_on_error : Bytes → Service × Outcome (Unit {0}) → Service × Outcome (Unit {0})
  close_on_error sid (s, ok a) = (s, ok a)
  close_on_error sid (s, err e) = (close sid s, err e)
  close_on_error sid (s, panic) = (s, panic)

  -- NewCircuit, to a destination's id as text
  unfoldable pub start_circuit : Bytes → Bytes → Service → Act (Service × Outcome (Unit {0}))
  unfolding dial
  start_circuit remote_id_string sid s =
      bind
        (elim (Id.white_noise_id_from_string hashes remote_id_string) [
          | ok destination ↦ dial destination sid s
          | err e ↦ give (s, err e)
          | panic ↦ give (s, panic)
        ])
        λ r. give (close_on_error sid r)

  -- The addresses that can be parsed.
  abbrev pub parse_addrs : List Bytes → List Bytes
  parse_addrs [] = []
  parse_addrs (a ∷ addrs) = elim (env.new_multiaddr a) [
    | none ↦ parse_addrs addrs
    | some addr ↦ addr ∷ parse_addrs addrs
  ]

  -- A node with its addresses, unless it has none.
  abbrev pub with_addrs : Bytes → List Bytes → List AddrInfo → List AddrInfo
  with_addrs id [] peers = peers
  with_addrs id (a ∷ addrs) peers = record { id = id; addrs = a ∷ addrs } ∷ peers

  -- The loop of GetMainnetPeers over the answer
  unfoldable pub parse_peers : List NodeInfo → List AddrInfo
  parse_peers [] = []
  parse_peers (info ∷ infos) = elim (env.peer_decode info.id) [
    | none ↦ parse_peers infos
    | some id ↦ with_addrs id (parse_addrs info.addr) (parse_peers infos)
  ]

  -- GetMainnetPeers; `max` is sent as an int32.
  unfoldable pub get_mainnet_peers : ℤ → Act (Outcome (List AddrInfo))
  unfolding exchange parse_peers
  get_mainnet_peers max =
      bind
        (with_stream env.bootstrap_peer (elim (codecs.main_net_peers.marshal (int32_of max)) [
          | none ↦ give (err (external []))
          | some bytes ↦
              twice_checked_exchange env.bootstrap_peer (bare_request main_net_peers [] bytes)
                λ _. peers_rejected
        ]))
        λ r. give (elim r [
          | ok bytes ↦ elim (codecs.peers_list.unmarshal bytes) [
            | malformed _ _ ↦ err peers_malformed
            | decoded infos ↦ ok (parse_peers infos)
          ]
          | err e ↦ err e
          | panic ↦ panic
        ])

  -- Connected: a peer that the white list blocks is disconnected, and its address is added all the same.
  unfoldable pub connected : Bytes → List Noticed
  connected peer =
      if env.white_list_mode && not (env.white_list peer)
      then conn_closed ∷ addr_added peer ∷ []
      else addr_added peer ∷ []

  -- Disconnected: the proxy actor is asked to unregister the peer.
  unfoldable pub disconnected : Bytes → Service → Service × List Noticed
  disconnected peer s =
      (record s { proxy = un_register_client proxy peer s.proxy }, addrs_cleared peer ∷ [])

  -- ClosedStream: the relay actor is told.
  unfoldable pub closed_stream : Bytes → Service → Service
  closed_stream stream_id s = record s {
    relay = handle_stream_closed proxy.relay stream_id s.relay;
  }
