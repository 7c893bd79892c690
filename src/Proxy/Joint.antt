-- ===== src/Proxy/Joint.antt =====
-- protocol/proxy/proxy.go, HandleNewCircuit: which node is asked to join a circuit, and what happens
-- when none does.
use white_noise.Prelude.{
  pos, ℕ, zero, suc, ◌≡◌, ◌≢◌, subst, same_iff, Option-cases, refl, ◌⊎◌, inl, inr, Bool, true,
  false, Option, none, some, List, [], ◌∷◌, arith, Bytes, length, All,
}
use white_noise.Errors.{Error}
use white_noise.Wire.{encode_msg_id_hash}
use white_noise.Session.{Role, entry_role, joint_role}
use white_noise.Services.{Effect, asked_new_session, asked_dht_peers, Reply, reply, late, AddrInfo}
use white_noise.Search.{search}
use white_noise.Search.Choice.{Reply-cases, Found, search-preserves}
use white_noise.Proxy.State.{NewCircuit, ProxyEnv, retry_times}
use white_noise.Proxy.Circuit.{is_candidate, try_join, find_joint}

module _ (env : ProxyEnv) where
  open env use {around}

  -- A node that may be asked: none was found, or it is neither this node nor the caller, and the hash
  -- of its id's text is not the hash that the destination goes by.
  abbrev pub IsAllowed : Bytes → Bytes → Bytes → Type 0
  IsAllowed caller to join =
      (join ≡ [])
      ⊎ ((join ≢ env.host_id)
          × (join ≢ caller)
          × (encode_msg_id_hash env.hashes (env.hashes.sha256 (env.id_string join)) ≢ to))

  is_candidate-IsAllowed :
      (invalid : List Bytes) (caller to id : Bytes)
      → is_candidate env invalid caller to id ≡ true
      → IsAllowed caller to id
  unfolding is_candidate
  is_candidate-IsAllowed invalid caller to id e =
      let text_hash = encode_msg_id_hash env.hashes (env.hashes.sha256 (env.id_string id)) in
      inr (
        λ f. ground (arith, e, (same_iff id env.host_id).1 f),
        λ f. ground (arith, e, (same_iff id caller).1 f),
        λ f. ground (arith, e, (same_iff text_hash to).1 f),
      )

  search-IsAllowed :
      (invalid : List Bytes) (caller to : Bytes) (peers : List AddrInfo) (j start : ℕ)
      (join : Bytes)
      → IsAllowed caller to join
      → Found (IsAllowed caller to) (search (is_candidate env invalid caller to) peers j start join)
  search-IsAllowed invalid caller to peers =
      search-preserves (IsAllowed caller to) (is_candidate env invalid caller to) peers
        λ id e. is_candidate-IsAllowed invalid caller to id e

  -- Whatever the attempts end with, the node they ended at satisfies a predicate.
  abbrev pub AtEnd : (Bytes → Type 0) → Option (Reply (Bytes × Bool)) → Type 0
  AtEnd P none = Unit
  AtEnd P (some (late e)) = Unit
  AtEnd P (some (reply (join, joined))) = P join

  -- If an effect asks for a session, it asks a node that is allowed.
  abbrev pub AsksAllowed : Bytes → Bytes → Effect → Type 0
  AsksAllowed caller to e = elim e [
    | asked_new_session peer _ _ _ ↦ IsAllowed caller to peer
    | _ ↦ Unit
  ]

  -- When the earlier log asked for none else and the earlier choice was allowed, then in the
  -- attempts of HandleNewCircuit to find a joint node, however many attempts and peers there are,
  -- whatever the random starts and the answers, each node that is asked for a session, and the
  -- one that they end with, is neither this node nor the caller, and the hash of its peer id's
  -- text is not the hash that the destination goes by, or it is the empty id that stands for no
  -- node.
  pub try_join-AsksAllowed :
      (n : ℕ) (peers : List AddrInfo) (caller to sid : Bytes) (invalid : List Bytes) (join : Bytes)
      (log : List Effect)
      → IsAllowed caller to join
      → All (AsksAllowed caller to) log
      → All (AsksAllowed caller to) (try_join env n peers caller to sid invalid join log).0
        × AtEnd (IsAllowed caller to) (try_join env n peers caller to sid invalid join log).1
  unfolding try_join
  try_join-AsksAllowed zero peers caller to sid invalid join log h before = (before, h)
  try_join-AsksAllowed (suc n) peers caller to sid invalid join log h before =
      let choice =
        search (is_candidate env invalid caller to) peers (length peers) (env.random log) join in
      let allowed =
        search-IsAllowed invalid caller to peers (length peers) (env.random log) join h in
      elim (Option-cases choice) [
        | inl g ↦ rw (try_join, g) (before, tt)
        | inr (join', g) ↦
            let h' : IsAllowed caller to join' = subst (Found (IsAllowed caller to)) g allowed in
            elim (Reply-cases (around.new_session_to_peer log join' sid entry_role joint_role)) [
              | inl (e, f) ↦ rw (try_join, g, f) ((h', before), tt)
              | inr (inl (e, f)) ↦
                  rw (try_join, g, f)
                    (try_join-AsksAllowed n peers caller to sid (env.id_string join' ∷ invalid)
                      join' (asked_new_session join' sid entry_role joint_role ∷ log) h'
                      (h', before))
              | inr (inr f) ↦ rw (try_join, g, f) ((h', before), h')
            ]
      ]

  try_join_rejected :
      ((log : List Effect) (peer sid : Bytes) (mine other : Role)
        → (e : Error) × (around.new_session_to_peer log peer sid mine other ≡ reply (some e)))
      → (n : ℕ) (peers : List AddrInfo) (caller to sid : Bytes) (invalid : List Bytes)
        (join : Bytes) (log : List Effect)
      → ((j : Bytes) × ((try_join env n peers caller to sid invalid join log).1
            ≡ some (reply (j, false))))
        ⊎ ((try_join env n peers caller to sid invalid join log).1 ≡ none)
  unfolding try_join
  try_join_rejected rejected zero peers caller to sid invalid join log = inl (join, refl)
  try_join_rejected rejected (suc n) peers caller to sid invalid join log =
      elim (Option-cases
        (search (is_candidate env invalid caller to) peers (length peers) (env.random log) join)) [
          | inl g ↦ rw (try_join, g) (inr refl)
          | inr (join', g) ↦
              let (e, f) = rejected log join' sid entry_role joint_role in
              rw (try_join, g, f)
                (try_join_rejected rejected n peers caller to sid (env.id_string join' ∷ invalid)
                  join' (asked_new_session join' sid entry_role joint_role ∷ log))
        ]

  -- If the gossip actor answers with peers and every node that is asked for a session refuses it,
  -- the goroutine of HandleNewCircuit panics, whatever the peers are.
  pub find_joint_rejected :
      ((log : List Effect) (peer sid : Bytes) (mine other : Role)
        → (e : Error) × (around.new_session_to_peer log peer sid mine other ≡ reply (some e)))
      → (req : NewCircuit) (caller : Bytes) (log : List Effect) (peers : List AddrInfo)
      → around.dht_peers log (pos 100) ≡ reply peers
      → (find_joint env req caller log).1 ≡ none
  unfolding find_joint
  find_joint_rejected rejected req caller log peers e =
      elim (try_join_rejected rejected retry_times peers caller req.to req.session_id [] []
        (asked_dht_peers (pos 100) ∷ log)) [
          | inl (j, f) ↦ rw (find_joint, e, f) refl
          | inr f ↦ rw (find_joint, e, f) refl
        ]
