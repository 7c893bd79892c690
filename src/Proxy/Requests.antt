-- ===== src/Proxy/Requests.antt =====
-- protocol/proxy: what the requests of peers make of the client maps, over a whole run.
use white_noise.Prelude.{
  ◌≡◌, refl, ◌∙◌, sym, subst, ◌⊎◌, inl, inr, Option, none, some, List, arith, Bytes, same, same_iff,
  Option-cases, Bool-cases,
}
use white_noise.Errors.{Outcome-cases}
use white_noise.SyncMap.{load, load-store, load-delete}
use white_noise.Wire.{Decoded-cases}
use white_noise.Services.{Effect, Act, give, ◌>>◌}
use white_noise.Id
use white_noise.Proxy.State.{
  get_online_nodes, new_proxy, new_circuit, decrypt_gossip, neg_plain_text, un_register_type,
  main_net_peers, other_reqtype, Reqtype, Request, ProxyEnv, ClientInfo, Manager, new_proxy_service,
  add_new_circuit_task, add_client, remove_client, un_register_client,
}
use white_noise.Proxy.Gossip.{handle_decrypt, handle_encrypt, decrypt_gossip_at}
use white_noise.Proxy.Handler.{
  register, handle_new_proxy, handle_request, answer_circuit, answer_text, handle_main_net_peers,
  proxy_stream_handler, ActorRequest, ActorResponse, req_get_client, req_decrypt, req_unregister,
  receive,
}
use white_noise.Proxy.Clients.{
  Consistent, new_proxy_service-Consistent, add_client-Consistent, remove_client-Consistent,
  distinct,
}

module _ (env : ProxyEnv) where
  open env use {hashes, id_string}

  -- What a request from `peer` makes of the client maps.
  pub data Changes (peer : Bytes) (m : Manager) : Option Manager → Type 0 where
    crashed : Changes peer m none
    kept : Changes peer m (some m)
    added :
        (info : ClientInfo)
        → load m.client_wn_map (Id.hash hashes info.white_noise_id) ≡ none
        → info.peer_id ≡ peer
        → Changes peer m (some (add_client env (Id.hash hashes info.white_noise_id) info m))
    removed : Changes peer m (some (un_register_client env peer m))

  then_kept :
      (f : Act (Unit {0})) (peer : Bytes) (m : Manager) (log : List Effect)
      → Changes peer m ((f >> give m) log).1
  then_kept f peer m log = elim (Option-cases (f log).1) [
    | inl e ↦ rw e crashed
    | inr (u, e) ↦ rw e kept
  ]

  register-Changes :
      (request : Request) (peer time id : Bytes) (m : Manager) (log : List Effect)
      → Changes peer m (register env request peer time id m log).1
  unfolding register
  register-Changes request peer time id m log =
      elim (Option-cases (load m.client_wn_map (Id.hash hashes id))) [
        | inl e ↦ rw (register, e) (added _ e refl)
        | inr (info, e) ↦ rw (register, e) kept
      ]

  handle_new_proxy-Changes :
      (request : Request) (peer : Bytes) (m : Manager) (log : List Effect)
      → Changes peer m (handle_new_proxy env request peer m log).1
  unfolding handle_new_proxy
  handle_new_proxy-Changes request peer m log =
      elim (Decoded-cases (env.codecs.new_proxy.unmarshal request.payload)) [
        | inr (e, msg, f) ↦ rw (handle_new_proxy, f) kept
        | inl (msg, f) ↦
            elim (Outcome-cases (Id.white_noise_id_from_string hashes msg.white_noise_id)) [
              | inl (id, g) ↦
                  rw (handle_new_proxy, f, g) (register-Changes request peer msg.time id m log)
              | inr (inl (e, g)) ↦ rw (handle_new_proxy, f, g) kept
              | inr (inr g) ↦ rw (handle_new_proxy, f, g) crashed
            ]
      ]

  handle_request-Changes :
      (request : Request) (peer : Bytes) (m : Manager) (log : List Effect) (t : Reqtype)
      → request.reqtype ≡ t
      → Changes peer m (handle_request env request peer m log).1
  unfolding handle_request
  handle_request-Changes request peer m log get_online_nodes e = rw (handle_request, e) kept
  handle_request-Changes request peer m log new_proxy e =
      rw (handle_request, e) (handle_new_proxy-Changes request peer m log)
  handle_request-Changes request peer m log new_circuit e =
      rw (handle_request, e) (then_kept (answer_circuit env request peer m) peer m log)
  handle_request-Changes request peer m log decrypt_gossip e =
      rw (handle_request, e)
        (then_kept (answer_text env request peer (handle_decrypt env request)) peer m log)
  handle_request-Changes request peer m log neg_plain_text e =
      rw (handle_request, e)
        (then_kept (answer_text env request peer (handle_encrypt env request m)) peer m log)
  handle_request-Changes request peer m log un_register_type e = rw (handle_request, e) removed
  handle_request-Changes request peer m log main_net_peers e =
      rw (handle_request, e) (then_kept (handle_main_net_peers env request peer) peer m log)
  handle_request-Changes request peer m log (other_reqtype n) e = rw (handle_request, e) kept

  pub proxy_stream_handler-Changes :
      (input : Option Bytes) (peer : Bytes) (m : Manager) (log : List Effect)
      → Changes peer m (proxy_stream_handler env input peer m log).1
  unfolding proxy_stream_handler
  proxy_stream_handler-Changes none peer m log = kept
  proxy_stream_handler-Changes (some payload) peer m log =
      elim (Decoded-cases (env.codecs.request.unmarshal payload)) [
        | inr (e, msg, f) ↦ rw (proxy_stream_handler, f) kept
        | inl (msg, f) ↦
            rw (proxy_stream_handler, f) (handle_request-Changes msg peer m log msg.reqtype refl)
      ]

  abbrev Kept : (Manager → Type 0) → Option Manager → Type 0
  Kept P none = Unit
  Kept P (some m) = P m

  Changes-Consistent :
      (peer : Bytes) (m : Manager) (o : Option Manager)
      → Consistent env m
      → Changes peer m o
      → Kept (Consistent env) o
  Changes-Consistent peer m _ c crashed = tt
  Changes-Consistent peer m _ c kept = c
  Changes-Consistent peer m _ c (added info new e) = add_client-Consistent env info m new c
  Changes-Consistent peer m _ c removed = remove_client-Consistent env (id_string peer) m c

  -- A client is registered still, or its own peer took it out.
  abbrev IsOwned : Bytes → Bytes → ClientInfo → Manager → Type 0
  IsOwned peer h info m =
      (load m.client_wn_map h ≡ some info)
      ⊎ ((load m.client_wn_map h ≡ none) × (id_string info.peer_id ≡ id_string peer))

  add_client-IsOwned :
      (peer h : Bytes) (info new : ClientInfo) (m : Manager)
      → load m.client_wn_map h ≡ some info
      → load m.client_wn_map (Id.hash hashes new.white_noise_id) ≡ none
      → IsOwned peer h info (add_client env (Id.hash hashes new.white_noise_id) new m)
  unfolding add_client
  add_client-IsOwned peer h info new m e free = inl (
      ground (
        arith,
        e,
        free,
        load-store m.client_wn_map (Id.hash hashes new.white_noise_id) h new,
        same_iff (Id.hash hashes new.white_noise_id) h,
      ))

  remove_client-IsOwned :
      (peer h : Bytes) (info : ClientInfo) (m : Manager)
      → Consistent env m
      → load m.client_wn_map h ≡ some info
      → IsOwned peer h info (remove_client env (id_string peer) m)
  unfolding remove_client
  remove_client-IsOwned peer h info m c e =
      elim (Option-cases (load m.client_peer_map (id_string peer))) [
        | inl none_there ↦ rw (remove_client, none_there) (inl e)
        | inr (id, there) ↦
            let (own, f, q) = c.registered (id_string peer) id there in
            rw (remove_client, there)
              (elim (Bool-cases (same (Id.hash hashes id) h)) [
                | inl this ↦ inr (
                  rw (load-delete m.client_wn_map (Id.hash hashes id) h, this) refl,
                  sym (
                        distinct env own info (Id.hash hashes id) h m f e
                          ((same_iff (Id.hash hashes id) h).0 this))
                      ∙ q,
                )
                | inr other ↦ inl (rw (load-delete m.client_wn_map (Id.hash hashes id) h, other) e)
              ])
      ]

  Changes-IsOwned :
      (peer h : Bytes) (info : ClientInfo) (m : Manager) (o : Option Manager)
      → Consistent env m
      → load m.client_wn_map h ≡ some info
      → Changes peer m o
      → Kept (IsOwned peer h info) o
  Changes-IsOwned peer h info m _ c e crashed = tt
  Changes-IsOwned peer h info m _ c e kept = inl e
  Changes-IsOwned peer h info m _ c e (added new free p) =
      add_client-IsOwned peer h info new m e free
  Changes-IsOwned peer h info m _ c e removed = remove_client-IsOwned peer h info m c e

  -- The states that a node's client maps reach: by what peers send it, by the actors' requests and by the
  -- tasks of its own client.
  pub data Reach : Manager → Type 0 where
    start : Reach new_proxy_service
    streamed :
        {m m' : Manager} (input : Option Bytes) (peer : Bytes) (log log' : List Effect)
        → Reach m
        → proxy_stream_handler env input peer m log ≡ (log', some m')
        → Reach m'
    requested :
        {m m' : Manager} {r : ActorResponse} (req : ActorRequest) (log log' : List Effect)
        → Reach m
        → receive env req m log ≡ (log', some (m', r))
        → Reach m'
    tasked :
        {m : Manager} (session_id id : Bytes)
        → Reach m
        → Reach (add_new_circuit_task session_id id m)

  abbrev KeptReply : (Manager → Type 0) → Option (Manager × ActorResponse) → Type 0
  KeptReply P none = Unit
  KeptReply P (some r) = P r.0

  receive-Consistent :
      (req : ActorRequest) (m : Manager) (log : List Effect)
      → Consistent env m
      → KeptReply (Consistent env) (receive env req m log).1
  unfolding receive
  receive-Consistent (req_get_client des) m log c = c
  receive-Consistent (req_decrypt cypher des) m log c =
      elim (Option-cases (decrypt_gossip_at env des cypher log).1) [
        | inl e ↦ rw e tt
        | inr (r, e) ↦ rw e c
      ]
  receive-Consistent (req_unregister peer) m log c =
      remove_client-Consistent env (id_string peer) m c

  add_new_circuit_task-Consistent :
      (session_id id : Bytes) (m : Manager)
      → Consistent env m
      → Consistent env (add_new_circuit_task session_id id m)
  unfolding add_new_circuit_task
  add_new_circuit_task-Consistent session_id id m c = record {
    under_hash = c.under_hash;
    registered = c.registered;
  }

  -- In every state that the client maps reach, by any streams of any peers, actor requests and
  -- circuit tasks in any order, each client stands under the hash of its WhiteNoiseID, and the id
  -- that a peer has in the second map is a client of that peer in the first.
  pub reachable-Consistent : (m : Manager) → Reach m → Consistent env m
  reachable-Consistent _ start = new_proxy_service-Consistent env
  reachable-Consistent m' (streamed {m = m} input peer log log' reach e) =
      subst (λ r. Kept (Consistent env) r.1) e
        (Changes-Consistent peer m (proxy_stream_handler env input peer m log).1
          (reachable-Consistent m reach) (proxy_stream_handler-Changes input peer m log))
  reachable-Consistent m' (requested {m = m} req log log' reach e) =
      subst (λ r. KeptReply (Consistent env) r.1) e
        (receive-Consistent req m log (reachable-Consistent m reach))
  reachable-Consistent _ (tasked {m = m} session_id id reach) =
      add_new_circuit_task-Consistent session_id id m (reachable-Consistent m reach)

  -- In a reached state of the client maps, whatever a peer sends, a client that is registered is
  -- registered as before when the stream handler returns, unless the peer's id has the text of
  -- the client's own peer's, and then it may be gone: no peer takes over or removes the
  -- registration of another.
  pub registration_kept :
      (m m' : Manager) (h : Bytes) (info : ClientInfo) (input : Option Bytes) (peer : Bytes)
      (log log' : List Effect)
      → Reach m
      → load m.client_wn_map h ≡ some info
      → proxy_stream_handler env input peer m log ≡ (log', some m')
      → (load m'.client_wn_map h ≡ some info)
        ⊎ ((load m'.client_wn_map h ≡ none) × (id_string info.peer_id ≡ id_string peer))
  registration_kept m m' h info input peer log log' reach e f =
      subst (λ r. Kept (IsOwned peer h info) r.1) f
        (Changes-IsOwned peer h info m (proxy_stream_handler env input peer m log).1
          (reachable-Consistent m reach) e (proxy_stream_handler-Changes input peer m log))
