-- ===== src/Examples/Proxies.antt =====
-- A proxy with a registered client, and the ends of a negotiation.
use white_noise.Prelude.{
  ◌≡◌, refl, ◌⊎◌, inl, true, false, none, some, [], ◌∷◌, arith, Bytes, codes, drop, replicate, All,
  same_iff,
}
use white_noise.Errors.{key_type, ok}
use white_noise.SyncMap.{empty, load, load-store, load-empty}
use white_noise.Wire.{decoded}
use white_noise.Services.{acked, stream_closed, reply}
use white_noise.Id
use white_noise.Proxy.State.{
  new_proxy, Request, Negotiate, ProxyCodecs, ProxyEnv, ClientInfo, Manager, new_proxy_service,
  add_client, proxy_service_time, add_new_circuit_task,
}
use white_noise.Proxy.Gossip.{handle_encrypt, handle_decrypt}
use white_noise.Proxy.Circuit.{try_join, find_joint}
use white_noise.Proxy.Handler.{proxy_stream_handler, handle_request, handle_new_proxy, register}
use white_noise.Proxy.Clients.{Consistent}
use white_noise.Proxy.Requests.{Reach, start, streamed, reachable-Consistent, registration_kept}
use white_noise.Proxy.Registry.{registry, Step, Run, proxy_stream_handler-Refines}
use white_noise.Proxy.Joint.{
  IsAllowed, AtEnd, AsksAllowed, try_join-AsksAllowed, find_joint_rejected,
}
use white_noise.Proxy.Negotiation.{handle_decrypt-handle_encrypt}
use white_noise.Examples.Codecs.{sample_hashes}
use white_noise.Examples.RelayNodes.{healthy_env}
use white_noise.Examples.Requests.{frame, first_part, second_part, frame_parts, calm}

abbrev pub sample_id : Bytes
sample_id = Id.id_of 0 (replicate 32 4)

abbrev sample_proxy_codecs : ProxyCodecs
sample_proxy_codecs = record {
  request = record {
    marshal = λ r. some r.payload;
    unmarshal =
        λ b. decoded (record { req_id = 1 ∷ []; from = []; reqtype = new_proxy; payload = b });
  };
  new_circuit = record {
    marshal = λ r. some (frame r.from r.to);
    unmarshal = λ b. decoded (record { from = first_part b; to = second_part b; session_id = [] });
  };
  new_proxy = record {
    marshal = λ r. some r.white_noise_id;
    unmarshal = λ b. decoded (record { time = []; white_noise_id = b });
  };
  decrypt = record {
    marshal = λ r. some (frame r.destination r.cypher);
    unmarshal = λ b. decoded (record { destination = first_part b; cypher = second_part b });
  };
  neg_plaintext = record {
    marshal = λ r. some (frame r.session_id r.neg);
    unmarshal = λ b. decoded (record { session_id = first_part b; neg = second_part b });
  };
  main_net_peers = record { marshal = λ n. some (n ∷ []); unmarshal = λ b. decoded 5 };
  peers_list = record { marshal = λ l. some []; unmarshal = λ b. decoded [] };
  negotiate = record {
    marshal = λ n. some (frame n.join (frame n.session_id (frame n.destination n.sig)));
    unmarshal = λ b. decoded (record {
      join = first_part b;
      session_id = first_part (second_part b);
      destination = first_part (second_part (second_part b));
      sig = second_part (second_part (second_part b));
    });
  };
}

abbrev pub proxy_env : ProxyEnv
proxy_env = record {
  around = calm;
  relay = healthy_env;
  hashes = sample_hashes;
  codecs = sample_proxy_codecs;
  host_id = 1 ∷ [];
  id_string = λ id. id;
  parse_duration = λ t. none;
  ecies_encrypt = λ kind key p. ok (77 ∷ p);
  ecies_decrypt = λ c. ok (drop 1 c);
  random = λ log. 3;
}

abbrev pub id_text : Bytes
id_text = 48 ∷ replicate 32 4

abbrev pub sample_info : ClientInfo
sample_info = record {
  white_noise_id = sample_id;
  peer_id = 9 ∷ [];
  state = 1;
  time = proxy_service_time;
}

abbrev registered_state : Manager
registered_state =
    add_client proxy_env (Id.hash sample_hashes sample_id) sample_info new_proxy_service

registers : proxy_stream_handler proxy_env (some id_text) (9 ∷ []) new_proxy_service [] ≡ (
  stream_closed ∷ acked (record { command_id = 1 ∷ []; result = true; payload = [] }) (9 ∷ []) ∷ [],
  some registered_state,
)
unfolding proxy_stream_handler handle_request handle_new_proxy register
    Id.white_noise_id_from_string
registers =
    rw
      (
        proxy_stream_handler,
        handle_request,
        handle_new_proxy,
        register,
        load-empty {V = ClientInfo} (Id.hash sample_hashes sample_id),
      )
      refl

registered_Reach : Reach proxy_env registered_state
registered_Reach = streamed (some id_text) (9 ∷ []) [] _ start registers

reachable-Consistent_example : Consistent proxy_env registered_state
reachable-Consistent_example = reachable-Consistent proxy_env registered_state registered_Reach

is_registered :
    load registered_state.client_wn_map (Id.hash sample_hashes sample_id) ≡ some sample_info
unfolding add_client
is_registered = ground (
  arith,
  load-store {V = ClientInfo} empty (Id.hash sample_hashes sample_id)
      (Id.hash sample_hashes sample_id) sample_info,
  same_iff (Id.hash sample_hashes sample_id) (Id.hash sample_hashes sample_id),
)

registers_once : proxy_stream_handler proxy_env (some id_text) (8 ∷ []) registered_state [] ≡ (
  stream_closed
      ∷ acked
          (record { command_id = 1 ∷ []; result = false; payload = codes "Proxy already" })
          (8 ∷ [])
      ∷ [],
  some registered_state,
)
unfolding proxy_stream_handler handle_request handle_new_proxy register
    Id.white_noise_id_from_string
registers_once =
    rw (proxy_stream_handler, handle_request, handle_new_proxy, register, is_registered) refl

registration_kept_example :
    (load registered_state.client_wn_map (Id.hash sample_hashes sample_id) ≡ some sample_info)
    ⊎ ((load registered_state.client_wn_map (Id.hash sample_hashes sample_id) ≡ none)
        × (sample_info.peer_id ≡ 8 ∷ []))
registration_kept_example =
    registration_kept proxy_env registered_state registered_state (Id.hash sample_hashes sample_id)
      sample_info (some id_text) (8 ∷ []) [] _ registered_Reach is_registered registers_once

proxy_stream_handler-Refines_example :
    Run (registry proxy_env registered_state)
    × Step (8 ∷ []) (registry proxy_env registered_state) (registry proxy_env registered_state)
proxy_stream_handler-Refines_example =
    proxy_stream_handler-Refines proxy_env registered_state registered_state (some id_text) (8 ∷ [])
      [] _ registered_Reach registers_once

try_join-AsksAllowed_example :
    let r =
      try_join proxy_env 3
        (record { id = 50 ∷ []; addrs = [] } ∷ [])
        (9 ∷ [])
        (8 ∷ [])
        (7 ∷ [])
        []
        []
        [] in
    All (AsksAllowed proxy_env (9 ∷ []) (8 ∷ [])) r.0
    × AtEnd proxy_env (IsAllowed proxy_env (9 ∷ []) (8 ∷ [])) r.1
try_join-AsksAllowed_example =
    try_join-AsksAllowed proxy_env 3 (record { id = 50 ∷ []; addrs = [] } ∷ []) (9 ∷ []) (8 ∷ [])
      (7 ∷ []) [] [] [] (inl refl) tt

abbrev refusing_env : ProxyEnv
refusing_env = record proxy_env {
  around = record calm { new_session_to_peer = λ log peer sid mine other. reply (some key_type) };
}

find_joint_rejected_example :
    (find_joint refusing_env
      (record { from = 9 ∷ []; to = 8 ∷ []; session_id = 7 ∷ [] })
      (9 ∷ [])
      []).1
    ≡ none
find_joint_rejected_example =
    find_joint_rejected refusing_env (λ log peer sid mine other. (key_type, refl))
      (record { from = 9 ∷ []; to = 8 ∷ []; session_id = 7 ∷ [] }) (9 ∷ []) []
      (record { id = 50 ∷ []; addrs = [] } ∷ []) refl

abbrev sample_neg : Negotiate
sample_neg = record { join = 50 ∷ []; session_id = 7 ∷ []; destination = 8 ∷ []; sig = [] }

abbrev plain : Bytes
plain = frame (50 ∷ []) (frame (7 ∷ []) (frame (8 ∷ []) []))

abbrev caller_maps : Manager
caller_maps = add_new_circuit_task (7 ∷ []) sample_id new_proxy_service

abbrev asking : Bytes → Request
asking payload = record { req_id = []; from = []; reqtype = new_proxy; payload = payload }

handle_decrypt-handle_encrypt_example :
    (handle_encrypt proxy_env (asking (frame (7 ∷ []) plain)) caller_maps ≡ ok (77 ∷ plain))
    × (handle_decrypt proxy_env (asking (frame (8 ∷ []) (77 ∷ plain))) ≡ ok plain)
    × (sample_proxy_codecs.negotiate.unmarshal plain ≡ decoded sample_neg)
unfolding add_new_circuit_task Id.public_key
handle_decrypt-handle_encrypt_example =
    handle_decrypt-handle_encrypt proxy_env proxy_env caller_maps sample_neg sample_id (77 ∷ plain)
      (0, replicate 32 4) plain (frame (7 ∷ []) plain) (frame (8 ∷ []) (77 ∷ plain)) (8 ∷ [])
      (asking (frame (7 ∷ []) plain)) (asking (frame (8 ∷ []) (77 ∷ plain)))
      (record {
        reads_back = λ a b e.
            ground (arith, (frame_parts a.session_id a.neg).0, (frame_parts a.session_id a.neg).1);
      })
      (record {
        reads_back = λ a b e.
            ground (
              arith,
              (frame_parts a.destination a.cypher).0,
              (frame_parts a.destination a.cypher).1,
            );
      })
      (record {
        reads_back = λ a b e. ground (
          arith,
          (frame_parts a.join (frame a.session_id (frame a.destination a.sig))).0,
          (frame_parts a.join (frame a.session_id (frame a.destination a.sig))).1,
          (frame_parts a.session_id (frame a.destination a.sig)).0,
          (frame_parts a.session_id (frame a.destination a.sig)).1,
          (frame_parts a.destination a.sig).0,
          (frame_parts a.destination a.sig).1,
        );
      })
      (ground (
        arith,
        load-store {V = Bytes} empty (7 ∷ []) (7 ∷ []) sample_id,
        same_iff (7 ∷ []) (7 ∷ []),
      ))
      refl (λ p c e. ground (arith, e)) refl refl refl refl refl refl
