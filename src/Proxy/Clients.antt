-- ===== src/Proxy/Clients.antt =====
-- protocol/proxy: the client maps over all requests. A registration belongs to the peer that made it.
use white_noise.Prelude.{
  ◌≡◌, inl, inr, none, some, arith, Bytes, same, same_iff, Option-cases, Bool-cases,
}
use white_noise.SyncMap.{load, delete, load-store, load-delete, load-empty}
use white_noise.Id
use white_noise.Proxy.State.{
  ProxyEnv, ClientInfo, Manager, new_proxy_service, add_client, remove_client,
}

module _ (env : ProxyEnv) where
  open env use {hashes, id_string}

  -- The entry of a client stands under its id's hash, and a peer's last id is a client of that peer.
  pub record Consistent (m : Manager) : Type 0 where
    pub under_hash :
        (h : Bytes) (info : ClientInfo)
        → load m.client_wn_map h ≡ some info
        → Id.hash hashes info.white_noise_id ≡ h
    pub registered :
        (p id : Bytes)
        → load m.client_peer_map p ≡ some id
        → (info : ClientInfo) × (load m.client_wn_map (Id.hash hashes id) ≡ some info)
          × (id_string info.peer_id ≡ p)

  pub new_proxy_service-Consistent : Consistent new_proxy_service
  new_proxy_service-Consistent = record {
    under_hash = λ h info e. absurd (ground (arith, e, load-empty {V = ClientInfo} h));
    registered = λ p id e. absurd (ground (arith, e, load-empty {V = Bytes} p));
  }

  pub add_client-Consistent :
      (info : ClientInfo) (m : Manager)
      → load m.client_wn_map (Id.hash hashes info.white_noise_id) ≡ none
      → Consistent m
      → Consistent (add_client env (Id.hash hashes info.white_noise_id) info m)
  unfolding add_client
  add_client-Consistent info m new c = record {
    under_hash = λ h other e. ground (
      arith,
      e,
      load-store m.client_wn_map (Id.hash hashes info.white_noise_id) h info,
      same_iff (Id.hash hashes info.white_noise_id) h,
      c.under_hash h other,
    );
    registered = λ p id e. elim (Bool-cases (same (id_string info.peer_id) p)) [
      | inl own ↦ (
        info,
        ground (
          arith,
          e,
          own,
          load-store m.client_peer_map (id_string info.peer_id) p info.white_noise_id,
          load-store m.client_wn_map (Id.hash hashes info.white_noise_id) (Id.hash hashes id) info,
          same_iff (Id.hash hashes info.white_noise_id) (Id.hash hashes id),
        ),
        (same_iff (id_string info.peer_id) p).0 own,
      )
      | inr other ↦
          let (info', e', q) = c.registered p id (
            ground (
              arith,
              e,
              other,
              load-store m.client_peer_map (id_string info.peer_id) p info.white_noise_id,
            )) in
          (
            info',
            ground (
              arith,
              e',
              new,
              load-store m.client_wn_map (Id.hash hashes info.white_noise_id) (Id.hash hashes id)
                  info,
              same_iff (Id.hash hashes info.white_noise_id) (Id.hash hashes id),
            ),
            q,
          )
    ];
  }

  -- Two entries under one hash are of one peer.
  pub distinct :
      (own info : ClientInfo) (h h' : Bytes) (m : Manager)
      → load m.client_wn_map h ≡ some own
      → load m.client_wn_map h' ≡ some info
      → h ≡ h'
      → id_string own.peer_id ≡ id_string info.peer_id
  distinct own info h h' m e f same_hash = cc

  remove_unknown-Consistent :
      (p : Bytes) (m : Manager)
      → load m.client_peer_map p ≡ none
      → Consistent m
      → Consistent (record m { client_peer_map = delete m.client_peer_map p })
  remove_unknown-Consistent p m e c = record {
    under_hash = c.under_hash;
    registered = λ q id f.
        c.registered q id (ground (arith, e, f, load-delete m.client_peer_map p q, same_iff p q));
  }

  remove_known-Consistent :
      (p id : Bytes) (m : Manager)
      → load m.client_peer_map p ≡ some id
      → Consistent m
      → Consistent (record m {
        client_wn_map = delete m.client_wn_map (Id.hash hashes id);
        client_peer_map = delete m.client_peer_map p;
      })
  remove_known-Consistent p id m e c = record {
    under_hash = λ h info f.
        c.under_hash h info (ground (arith, f, load-delete m.client_wn_map (Id.hash hashes id) h));
    registered = λ q id' f.
        let (own, e', p') = c.registered p id e in
        let (info, f', q') =
          c.registered q id' (ground (arith, f, load-delete m.client_peer_map p q)) in
        (
          info,
          ground (
            arith,
            f,
            load-delete m.client_peer_map p q,
            load-delete m.client_wn_map (Id.hash hashes id) (Id.hash hashes id'),
            same_iff p q,
            same_iff (Id.hash hashes id) (Id.hash hashes id'),
            distinct own info (Id.hash hashes id) (Id.hash hashes id') m e' f',
            p',
            q',
            f',
          ),
          q',
        );
  }

  pub remove_client-Consistent :
      (p : Bytes) (m : Manager) → Consistent m → Consistent (remove_client env p m)
  unfolding remove_client
  remove_client-Consistent p m c = elim (Option-cases (load m.client_peer_map p)) [
    | inl e ↦ rw (remove_client, e) (remove_unknown-Consistent p m e c)
    | inr (id, e) ↦ rw (remove_client, e) (remove_known-Consistent p id m e c)
  ]
