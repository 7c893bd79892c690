-- ===== src/Gossip/Choice.antt =====
-- network/gossip/pubsub.go, handleGossipMsg: which node is asked to be the relay node of a circuit.
use white_noise.Prelude.{
  ℕ, zero, suc, ◌≡◌, ◌≢◌, subst, same_iff, Option-cases, ◌⊎◌, inl, inr, Bool, true, Option, none,
  some, List, [], ◌∷◌, Bytes, length, All, arith,
}
use white_noise.Session.{exit_role, relay_role, answer_role}
use white_noise.Services.{Effect, asked_new_session, Reply, reply, late, AddrInfo}
use white_noise.Search.{search}
use white_noise.Search.Choice.{Reply-cases, Found, search-preserves}
use white_noise.Gossip.{GossipEnv, is_candidate, try_relay}

module _ (env : GossipEnv) where
  open env use {around}

  -- A node that may be asked: none was found, or it is neither the joint node nor this node.
  abbrev pub IsAllowed : Bytes → Bytes → Type 0
  IsAllowed join_node relay = (relay ≡ []) ⊎ ((relay ≢ join_node) × (relay ≢ env.host_id))

  is_candidate-IsAllowed :
      (invalid : List Bytes) (join_node id : Bytes)
      → is_candidate env invalid join_node id ≡ true
      → IsAllowed join_node id
  unfolding is_candidate
  is_candidate-IsAllowed invalid join_node id e = inr (
    λ f. ground (arith, e, (same_iff id join_node).1 f),
    λ f. ground (arith, e, (same_iff id env.host_id).1 f),
  )

  pub search-IsAllowed :
      (invalid : List Bytes) (join_node : Bytes) (peers : List AddrInfo) (j start : ℕ)
      (relay : Bytes)
      → IsAllowed join_node relay
      → Found
          (IsAllowed join_node)
          (search (is_candidate env invalid join_node) peers j start relay)
  search-IsAllowed invalid join_node peers =
      search-preserves (IsAllowed join_node) (is_candidate env invalid join_node) peers
        λ id e. is_candidate-IsAllowed invalid join_node id e

  -- If an effect asks for a session with a relay node, it asks one that is allowed.
  abbrev pub AsksAllowed : Bytes → Effect → Type 0
  AsksAllowed join_node e = elim e [
    | asked_new_session peer _ _ other ↦ (other ≡ answer_role) ⊎ IsAllowed join_node peer
    | _ ↦ Unit
  ]

  -- What the attempts end with, if they end: an allowed node.
  abbrev pub AtEnd : Bytes → Option (Reply (Bytes × Bool)) → Type 0
  AtEnd join_node none = Unit
  AtEnd join_node (some (late e)) = Unit
  AtEnd join_node (some (reply (relay, joined))) = IsAllowed join_node relay

  -- When the earlier log asked for none else and the earlier choice was allowed, then in the
  -- attempts of handleGossipMsg to find a relay node, however many attempts and peers there are,
  -- whatever the random starts and the answers, each node that is asked to be the relay node, and
  -- the one that they end with, is neither the joint node nor this node, or is the empty id that
  -- stands for no node.
  pub try_relay-AsksAllowed :
      (n : ℕ) (peers : List AddrInfo) (join_node sid : Bytes) (invalid : List Bytes) (relay : Bytes)
      (log : List Effect)
      → IsAllowed join_node relay
      → All (AsksAllowed join_node) log
      → All (AsksAllowed join_node) (try_relay env n peers join_node sid invalid relay log).0
        × AtEnd join_node (try_relay env n peers join_node sid invalid relay log).1
  unfolding try_relay
  try_relay-AsksAllowed zero peers join_node sid invalid relay log h before = (before, h)
  try_relay-AsksAllowed (suc n) peers join_node sid invalid relay log h before =
      let choice =
        search (is_candidate env invalid join_node) peers (length peers) (env.random log) relay in
      let allowed =
        search-IsAllowed invalid join_node peers (length peers) (env.random log) relay h in
      elim (Option-cases choice) [
        | inl g ↦ rw (try_relay, g) (before, tt)
        | inr (relay', g) ↦
            let h' : IsAllowed join_node relay' = subst (Found (IsAllowed join_node)) g allowed in
            elim (Reply-cases (around.new_session_to_peer log relay' sid exit_role relay_role)) [
              | inl (e, f) ↦ rw (try_relay, g, f) ((inr h', before), tt)
              | inr (inl (e, f)) ↦
                  rw (try_relay, g, f)
                    (try_relay-AsksAllowed n peers join_node sid (env.id_string relay' ∷ invalid)
                      relay' (asked_new_session relay' sid exit_role relay_role ∷ log) h'
                      (inr h', before))
              | inr (inr f) ↦ rw (try_relay, g, f) ((inr h', before), h')
            ]
      ]
