-- ===== src/Proxy/Registry.antt =====
-- protocol/proxy: the registrations that other nodes see, without the maps: who owns the hash of an id.
use white_noise.Prelude.{
  ◌≡◌, refl, ◌∙◌, ap, subst, inl, inr, Option, none, some, List, [], Bool, true, false, Bytes, same,
  if◌then◌else◌, Option-cases,
}
use white_noise.SyncMap.{load, load-empty, load-store, load-delete}
use white_noise.Services.{Effect}
use white_noise.Id
use white_noise.Proxy.State.{
  ProxyEnv, ClientInfo, Manager, add_client, remove_client, add_new_circuit_task,
}
use white_noise.Proxy.Gossip.{decrypt_gossip_at}
use white_noise.Proxy.Handler.{
  proxy_stream_handler, ActorRequest, ActorResponse, req_get_client, req_decrypt, req_unregister,
  receive,
}
use white_noise.Proxy.Clients.{Consistent}
use white_noise.Proxy.Requests.{
  Changes, crashed, kept, added, removed, proxy_stream_handler-Changes, Reach, start, streamed,
  requested, tasked, reachable-Consistent,
}

-- The registry: the peer, as text, that owns a hash.
abbrev pub Registry : Type 0
Registry = Bytes → Option Bytes

-- What a peer may do to the registry: nothing, claim a hash that is free, or give up one that it owns.
pub data Step (peer : Bytes) (r : Registry) : Registry → Type 0 where
  stays : {r' : Registry} → ((j : Bytes) → r' j ≡ r j) → Step peer r r'
  claims :
      {r' : Registry} (h : Bytes)
      → r h ≡ none
      → ((j : Bytes) → r' j ≡ (if same h j then some peer else r j))
      → Step peer r r'
  gives_up :
      {r' : Registry} (h : Bytes)
      → r h ≡ some peer
      → ((j : Bytes) → r' j ≡ (if same h j then none else r j))
      → Step peer r r'

-- What any peers may do to an empty registry.
pub data Run : Registry → Type 0 where
  begins : {r : Registry} → ((j : Bytes) → r j ≡ none) → Run r
  goes_on : {r r' : Registry} (peer : Bytes) → Run r → Step peer r r' → Run r'

module _ (env : ProxyEnv) where
  open env use {hashes, id_string}

  -- The peer of a client, as text.
  abbrev pub owner_of : Option ClientInfo → Option Bytes
  owner_of none = none
  owner_of (some info) = some (id_string info.peer_id)

  -- What the registry is, in a state of the maps.
  abbrev pub registry : Manager → Registry
  registry m j = owner_of (load m.client_wn_map j)

  -- The step of a peer from a state, if there is a state after it.
  abbrev StepTo : Bytes → Manager → Option Manager → Type 0
  StepTo peer m none = Unit
  StepTo peer m (some m') = Step (id_string peer) (registry m) (registry m')

  owner_of-if :
      (b : Bool) (o o' : Option ClientInfo)
      → owner_of (if b then o else o') ≡ (if b then owner_of o else owner_of o')
  owner_of-if true o o' = refl
  owner_of-if false o o' = refl

  add_client-Step :
      (peer : Bytes) (info : ClientInfo) (m : Manager)
      → load m.client_wn_map (Id.hash hashes info.white_noise_id) ≡ none
      → info.peer_id ≡ peer
      → Step
          (id_string peer)
          (registry m)
          (registry (add_client env (Id.hash hashes info.white_noise_id) info m))
  unfolding add_client
  add_client-Step peer info m free own =
      let h = Id.hash hashes info.white_noise_id in
      claims h (ap owner_of free) λ j.
        ap owner_of (load-store m.client_wn_map h j info)
        ∙ owner_of-if (same h j) (some info) (load m.client_wn_map j)
        ∙ ap (λ p. if same h j then some (id_string p) else registry m j) own

  remove_client-Step :
      (peer : Bytes) (m : Manager)
      → Consistent env m
      → Step (id_string peer) (registry m) (registry (remove_client env (id_string peer) m))
  unfolding remove_client
  remove_client-Step peer m c = elim (Option-cases (load m.client_peer_map (id_string peer))) [
    | inl e ↦ rw (remove_client, e) (stays λ j. refl)
    | inr (id, e) ↦
        let (info, f, q) = c.registered (id_string peer) id e in
        let h = Id.hash hashes id in
        rw (remove_client, e)
          (gives_up h (ap owner_of f ∙ ap some q) λ j.
            ap owner_of (load-delete m.client_wn_map h j)
            ∙ owner_of-if (same h j) none (load m.client_wn_map j))
  ]

  Changes-Step :
      (peer : Bytes) (m : Manager) (o : Option Manager)
      → Consistent env m
      → Changes env peer m o
      → StepTo peer m o
  Changes-Step peer m _ c crashed = tt
  Changes-Step peer m _ c kept = stays λ j. refl
  Changes-Step peer m _ c (added info free own) = add_client-Step peer info m free own
  Changes-Step peer m _ c removed = remove_client-Step peer m c

  add_new_circuit_task-registry :
      (session_id id : Bytes) (m : Manager) (j : Bytes)
      → registry (add_new_circuit_task session_id id m) j ≡ registry m j
  unfolding add_new_circuit_task
  add_new_circuit_task-registry session_id id m j = refl

  -- The step of the actor, which serves some peer.
  abbrev ReplyStep : Manager → Option (Manager × ActorResponse) → Type 0
  ReplyStep m none = Unit
  ReplyStep m (some r) = (peer : Bytes) × Step peer (registry m) (registry r.0)

  receive-Step :
      (req : ActorRequest) (m : Manager) (log : List Effect)
      → Consistent env m
      → ReplyStep m (receive env req m log).1
  unfolding receive
  receive-Step (req_get_client des) m log c = (des, stays λ j. refl)
  receive-Step (req_decrypt cypher des) m log c =
      elim (Option-cases (decrypt_gossip_at env des cypher log).1) [
        | inl e ↦ rw e tt
        | inr (r, e) ↦ rw e (des, stays λ j. refl)
      ]
  receive-Step (req_unregister peer) m log c = (id_string peer, remove_client-Step peer m c)

  proxy_stream_handler-Step :
      (m m' : Manager) (input : Option Bytes) (peer : Bytes) (log log' : List Effect)
      → Reach env m
      → proxy_stream_handler env input peer m log ≡ (log', some m')
      → Step (id_string peer) (registry m) (registry m')
  proxy_stream_handler-Step m m' input peer log log' reach e =
      subst (λ r. StepTo peer m r.1) e
        (Changes-Step peer m (proxy_stream_handler env input peer m log).1
          (reachable-Consistent env m reach) (proxy_stream_handler-Changes env input peer m log))

  reachable-Run : (m : Manager) → Reach env m → Run (registry m)
  reachable-Run _ start = begins λ j. ap owner_of (load-empty {V = ClientInfo} j)
  reachable-Run m' (streamed {m = m} input peer log log' reach e) =
      goes_on (id_string peer) (reachable-Run m reach)
        (proxy_stream_handler-Step m m' input peer log log' reach e)
  reachable-Run m' (requested {m = m} req log log' reach e) =
      let (peer, step) =
        subst (λ r. ReplyStep m r.1) e
          (receive-Step req m log (reachable-Consistent env m reach)) in
      goes_on peer (reachable-Run m reach) step
  reachable-Run _ (tasked {m = m} session_id id reach) =
      goes_on [] (reachable-Run m reach) (stays (add_new_circuit_task-registry session_id id m))

  -- A reached state of the proxy's client maps, seen as who owns the hash of an id, is one that
  -- an abstract registry reaches from the empty one, whose only steps are that a peer does
  -- nothing, claims a hash that is free, or gives up one that it owns; and the stream handler, if
  -- it returns, takes one such step of the registry, by the peer whose request it handles,
  -- whatever this peer sends.
  pub proxy_stream_handler-Refines :
      (m m' : Manager) (input : Option Bytes) (peer : Bytes) (log log' : List Effect)
      → Reach env m
      → proxy_stream_handler env input peer m log ≡ (log', some m')
      → Run (registry m) × Step (id_string peer) (registry m) (registry m')
  proxy_stream_handler-Refines m m' input peer log log' reach e =
      (reachable-Run m reach, proxy_stream_handler-Step m m' input peer log log' reach e)
