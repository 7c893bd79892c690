-- ===== src/Noise/Registration.antt =====
-- network/noise/noise.go, RegisterProxy, with protocol/proxy/proxy.go, which registers the client.
use white_noise.Prelude.{ℕ, ◌≡◌, refl, ap, subst, sym, ◌∙◌, true, none, some, List, [], ◌∷◌, Bytes}
use white_noise.Errors.{ok, register_rejected}
use white_noise.Wire.{IsLossless}
use white_noise.SyncMap.{load}
use white_noise.Services.{Effect, acked, stream_closed, opened, wrote, task_added, task_deleted}
use white_noise.Id
use white_noise.Id.{IsKey, id_of, white_noise_id_from_string-string}
use white_noise.Proxy.State.{Request, new_proxy, ProxyEnv, Manager, add_client}
use white_noise.Proxy.Handler.{
  proxy_stream_handler, handle_request, handle_new_proxy, register, duration_of,
}
use white_noise.Noise.Exchange.{exchange_acked}
use white_noise.Noise.{
  Service, NoiseEnv, registration_time, bare_request, with_id, exchange, with_stream,
  checked_exchange, ask_registration, register_proxy,
}

-- The request that a client makes of its id, marshalled.
abbrev pub registration : NoiseEnv → Bytes → Bytes → Request
registration client bytes no_id =
    with_id client
      (bare_request client new_proxy (client.proxy.id_string client.proxy.host_id) bytes) no_id

id_back :
    (client : NoiseEnv) (server : ProxyEnv) (key : Bytes) (kind : ℕ)
    → server.hashes ≡ client.proxy.hashes
    → ((b : Bytes)
        → client.proxy.hashes.base58_decode (client.proxy.hashes.base58_encode b) ≡ some b)
    → client.account_id ≡ id_of kind key
    → IsKey kind key
    → Id.white_noise_id_from_string server.hashes (Id.string client.proxy.hashes client.account_id)
      ≡ ok client.account_id
id_back client server key kind same_hashes law is_id is_key =
    ap (λ h. Id.white_noise_id_from_string h (Id.string client.proxy.hashes client.account_id))
      same_hashes
    ∙ subst
        (λ id.
          Id.white_noise_id_from_string client.proxy.hashes (Id.string client.proxy.hashes id)
          ≡ ok id)
        (sym is_id) (white_noise_id_from_string-string client.proxy.hashes law kind key is_key)

-- When a client of an id that the proxy has no client of registers, the network takes what it
-- writes, and it gets an ack of success, RegisterProxy returns no error and the client has the
-- proxy as its proxy node; and the proxy's stream handler, on the very message that the client
-- wrote, adds the client under the hash of its id, with the peer at the other end and the
-- duration that was asked for, and acks the request with success, for codecs that lose nothing,
-- the same hashes on both sides, a base58 that decodes what it encoded, and an id made of a key
-- of a known type.
pub proxy_stream_handler-register_proxy :
    (client : NoiseEnv) (server : ProxyEnv) (s : Service) (m : Manager)
    (proxy_id peer bytes no_id msg key : Bytes) (kind : ℕ) (log log' : List Effect)
    → IsLossless (record {
      marshal = client.proxy.codecs.new_proxy.marshal;
      unmarshal = server.codecs.new_proxy.unmarshal;
    })
    → IsLossless (record {
      marshal = client.proxy.codecs.request.marshal;
      unmarshal = server.codecs.request.unmarshal;
    })
    → server.hashes ≡ client.proxy.hashes
    → ((b : Bytes)
        → client.proxy.hashes.base58_decode (client.proxy.hashes.base58_encode b) ≡ some b)
    → client.account_id ≡ id_of kind key
    → IsKey kind key
    → client.proxy.codecs.new_proxy.marshal (record {
      time = registration_time;
      white_noise_id = Id.string client.proxy.hashes client.account_id;
    })
      ≡ some bytes
    → client.proxy.codecs.request.marshal
        (bare_request client new_proxy (client.proxy.id_string client.proxy.host_id) bytes)
      ≡ some no_id
    → client.proxy.codecs.request.marshal (registration client bytes no_id) ≡ some msg
    → load m.client_wn_map (Id.hash server.hashes client.account_id) ≡ none
    → client.proxy.around.new_stream_error log proxy_id ≡ none
    → client.proxy.around.write_error (opened proxy_id ∷ log) proxy_id ≡ none
    → client.proxy.around.ack_result
        (task_added (registration client bytes no_id).req_id
          ∷ wrote proxy_id msg
          ∷ opened proxy_id
          ∷ log)
        (registration client bytes no_id).req_id
      ≡ some (true, [])
    → (register_proxy client proxy_id s log ≡ (
      task_deleted (registration client bytes no_id).req_id
          ∷ task_added (registration client bytes no_id).req_id
          ∷ wrote proxy_id msg
          ∷ opened proxy_id
          ∷ log,
      some (record s { proxy_node = proxy_id }, ok tt),
    ))
      × (proxy_stream_handler server (some msg) peer m log' ≡ (
        stream_closed
            ∷ acked
                (record {
                  command_id = (registration client bytes no_id).req_id;
                  result = true;
                  payload = [];
                })
                peer
            ∷ log',
        some (
            add_client server
              (Id.hash server.hashes client.account_id)
              (record {
                white_noise_id = client.account_id;
                peer_id = peer;
                state = 1;
                time = duration_of server registration_time;
              })
              m),
      ))
unfolding register_proxy ask_registration exchange proxy_stream_handler handle_request
    handle_new_proxy register
proxy_stream_handler-register_proxy client server s m proxy_id peer bytes no_id msg key kind log
      log' l l' same_hashes law is_id is_key e n w fresh opens writes acks =
    (
      rw
          (
            register_proxy,
            ask_registration,
            with_stream,
            opens,
            e,
            checked_exchange,
            n,
            exchange_acked client proxy_id (registration client bytes no_id) register_rejected
                (opened proxy_id ∷ log) [] writes (rw w acks),
          )
          (rw w refl),
      rw
          (
            proxy_stream_handler,
            l'.reads_back (registration client bytes no_id) msg w,
            handle_request,
            handle_new_proxy,
            l.reads_back _ bytes e,
            id_back client server key kind same_hashes law is_id is_key,
            register,
            fresh,
          )
          refl,
    )
