-- ===== src/Gossip/Ending.antt =====
-- network/gossip/pubsub.go, handleGossipMsg: what becomes of a circuit whose negotiation the client read.
use white_noise.Prelude.{
  map, ◌≢◌, ◌+◌, ◌≤◌, ◌<◌, arith, sym, subst, take, ltb, length-map, length-take, ℕ, zero, suc, ◌≡◌,
  refl, ◌⊎◌, inl, inr, Bool, true, false, Option, none, some, List, [], ◌∷◌, Bytes, length, same,
  same_iff, Bool-cases, if◌then◌else◌,
}
use white_noise.Errors.{Error}
use white_noise.Wire.{or_nil}
use white_noise.Session.{Role, exit_role, answer_role, relay_role}
use white_noise.Services.{
  Effect, asked_new_session, asked_close_circuit, asked_send_relay, asked_expend, asked_decrypt,
  Reply, reply, late, AddrInfo, bind_result, give, emit,
}
use white_noise.Search.{search}
use white_noise.Search.Choice.{Found}
use white_noise.Search.Rotation.{search-first_accepted}
use white_noise.Relay.Messages.{new_circuit_success, new_probe_signal}
use white_noise.Proxy.State.{ClientInfo, retry_times}
use white_noise.Gossip.{
  GossipEnv, EncryptedNeg, is_candidate, get_dht_peers, try_relay, expend_and_probe, join_circuit,
  handle_gossip_msg,
}
use white_noise.Gossip.Choice.{IsAllowed, search-IsAllowed}

-- The relay actor and the command actor answer in time.
pub record IsPrompt (env : GossipEnv) : Type 0 where
  pub on_session :
      (log : List Effect) (peer sid : Bytes) (mine other : Role)
      → ((e : Error) × (env.around.new_session_to_peer log peer sid mine other ≡ reply (some e)))
        ⊎ (env.around.new_session_to_peer log peer sid mine other ≡ reply none)
  pub on_relay :
      (log : List Effect) (sid msg : Bytes)
      → ((e : Error) × (env.around.send_relay log sid msg ≡ reply (some e)))
        ⊎ (env.around.send_relay log sid msg ≡ reply none)
  pub on_expend :
      (log : List Effect) (relay join_node sid : Bytes)
      → ((e : Error) × (env.expend log relay join_node sid ≡ reply (some e)))
        ⊎ (env.expend log relay join_node sid ≡ reply none)

module _ (env : GossipEnv) (sid join_node : Bytes) where
  open env use {around}

  -- A node was asked to be the relay node and consented, or refused.
  abbrev pub Consented : Bytes → List Effect → Type 0
  Consented relay before =
      around.new_session_to_peer before relay sid exit_role relay_role ≡ reply none

  abbrev pub Refused : Bytes → List Effect → Type 0
  Refused relay before =
      (e : Error) × (around.new_session_to_peer before relay sid exit_role relay_role
        ≡ reply (some e))

  -- The log of a request to be the relay node, after the earlier log.
  abbrev pub asking : Bytes → List Effect → List Effect
  asking relay before = asked_new_session relay sid exit_role relay_role ∷ before

  -- How the attempts to get a relay node end.
  data Tried : List Effect × Option (Reply (Bytes × Bool)) → Type 0 where
    got :
        (relay : Bytes)
        → IsAllowed env join_node relay
        → (before : List Effect) → Consented relay before
        → Tried (asking relay before, some (reply (relay, true)))
    gave_up :
        (last relay : Bytes) (before : List Effect)
        → Refused relay before
        → Tried (asking relay before, some (reply (last, false)))

  -- What the handler does once the client has the session, which its log begins with, up to the last thing
  -- that it asks for.
  pub data Joined (begun : List Effect) : List Effect → Type 0 where
    is_joint :
        join_node ≡ env.host_id
        → Joined begun (asked_send_relay sid (new_circuit_success env.relay sid) ∷ begun)
    no_relay :
        join_node ≢ env.host_id
        → (relay : Bytes) (before : List Effect) → Refused relay before
        → Joined begun (asked_close_circuit sid ∷ asking relay before)
    not_extended :
        join_node ≢ env.host_id
        → (relay : Bytes) → IsAllowed env join_node relay
        → (before : List Effect) → Consented relay before
        → (e : Error) → env.expend (asking relay before) relay join_node sid ≡ reply (some e)
        → Joined begun
            (asked_close_circuit sid ∷ asked_expend relay join_node sid ∷ asking relay before)
    probed :
        join_node ≢ env.host_id
        → (relay : Bytes) → IsAllowed env join_node relay
        → (before : List Effect) → Consented relay before
        → env.expend (asking relay before) relay join_node sid ≡ reply none
        → Joined begun (
            asked_send_relay sid (or_nil (new_probe_signal env.relay sid))
            ∷ asked_expend relay join_node sid
            ∷ asking relay before)

  -- How the handler ends, for the client's peer and the log until it was asked for its session.
  pub data Ended (peer : Bytes) (before : List Effect) : List Effect → Type 0 where
    client_refused :
        (e : Error)
        → around.new_session_to_peer before peer sid exit_role answer_role ≡ reply (some e)
        → Ended peer before
            (asked_close_circuit sid ∷ asked_new_session peer sid exit_role answer_role ∷ before)
    client_joined :
        around.new_session_to_peer before peer sid exit_role answer_role ≡ reply none
        → (log : List Effect)
        → Joined (asked_new_session peer sid exit_role answer_role ∷ before) log
        → Ended peer before log

-- The random starts are far enough from the largest int for the 100 peers.
abbrev pub HasRoom : GossipEnv → Type 0
HasRoom env = (log : List Effect) → env.random log + 100 < 9223372036854775808

-- The peers that handleGossipMsg gets.
abbrev known_peers : GossipEnv → List Effect → List AddrInfo
known_peers env log =
    let ids = env.list_peers log in
    map env.find_local (if ltb 100 (length ids) then take 100 ids else ids)

length-known_peers : (env : GossipEnv) (log : List Effect) → length (known_peers env log) ≤ 100
length-known_peers env log =
    let ids = env.list_peers log in
    let few : length (if ltb 100 (length ids) then take 100 ids else ids) ≤ 100 =
      elim (Bool-cases (ltb 100 (length ids))) [
        | inl e ↦ rw e (omega (arith, length-take 100 ids))
        | inr e ↦ rw e (ground (arith, e))
      ] in
    rw (length-map env.find_local (if ltb 100 (length ids) then take 100 ids else ids)) few

module _ (env : GossipEnv) (prompt : IsPrompt env) (room : HasRoom env)
    (sid join_node : Bytes) where
  open env use {around}

  -- The search finds a node that is allowed.
  chosen :
      (peers : List AddrInfo) (invalid : List Bytes) (relay : Bytes) (log : List Effect)
      → length peers ≤ 100
      → IsAllowed env join_node relay
      → (relay' : Bytes) × (search
            (is_candidate env invalid join_node)
            peers
            (length peers)
            (env.random log)
            relay
          ≡ some relay')
        × IsAllowed env join_node relay'
  chosen peers invalid relay log few h =
      let found =
        search-first_accepted (is_candidate env invalid join_node) peers (env.random log) relay
          (omega (arith, few, room log)) in
      (
        _,
        found,
        subst (Found (IsAllowed env join_node)) found
            (search-IsAllowed env invalid join_node peers (length peers) (env.random log) relay h),
      )

  try_relay-Tried :
      (n : ℕ) (peers : List AddrInfo) (invalid : List Bytes) (relay : Bytes) (log : List Effect)
      → length peers ≤ 100
      → IsAllowed env join_node relay
      → (0 < n)
        ⊎ ((last : Bytes) × (before : List Effect) × (log ≡ asking env sid join_node last before)
            × Refused env sid join_node last before)
      → Tried env sid join_node (try_relay env n peers join_node sid invalid relay log)
  unfolding try_relay
  try_relay-Tried zero peers invalid relay log few h (inl more) = absurd (omega (arith, more))
  try_relay-Tried zero peers invalid relay log few h (inr (last, before, e, refused)) =
      subst (λ l. Tried env sid join_node (l, some (reply (relay, false)))) (sym e)
        (gave_up relay last before refused)
  try_relay-Tried (suc n) peers invalid relay log few h _ =
      let (relay', g, h') = chosen peers invalid relay log few h in
      elim (prompt.on_session log relay' sid exit_role relay_role) [
        | inr f ↦ rw (try_relay, g, f) (got relay' h' log f)
        | inl (e, f) ↦
            rw (try_relay, g, f)
              (try_relay-Tried n peers (env.id_string relay' ∷ invalid) relay'
                (asked_new_session relay' sid exit_role relay_role ∷ log) few h'
                (inr (relay', log, refl, (e, f))))
      ]

  -- The handler returns, and ends in one of these ways.
  abbrev Returns : List Effect → List Effect × Option (Unit {0}) → Type 0
  Returns begun r = (r.1 ≡ some tt) × Joined env sid join_node begun r.0

  expend_and_probe-Returns :
      (begun : List Effect)
      → join_node ≢ env.host_id
      → (relay : Bytes) (before : List Effect) → IsAllowed env join_node relay
      → Consented env sid join_node relay before
      → Returns begun
          (expend_and_probe env relay join_node sid (asking env sid join_node relay before))
  unfolding expend_and_probe
  expend_and_probe-Returns begun far relay before h consented =
      let log : List Effect = asking env sid join_node relay before in
      let sent = asked_expend relay join_node sid ∷ log in
      elim (prompt.on_expend log relay join_node sid) [
        | inl (e, f) ↦
            rw (expend_and_probe, f) (refl, not_extended far relay h before consented e f)
        | inr f ↦ elim (prompt.on_relay sent sid (or_nil (new_probe_signal env.relay sid))) [
          | inl (e, g) ↦ rw (expend_and_probe, f, g) (refl, probed far relay h before consented f)
          | inr g ↦ rw (expend_and_probe, f, g) (refl, probed far relay h before consented f)
        ]
      ]

  after_trying :
      (begun : List Effect)
      → join_node ≢ env.host_id
      → (r : List Effect × Option (Reply (Bytes × Bool))) → Tried env sid join_node r
      → Returns begun (
          bind_result r.0 r.1 λ answer. elim answer [
            | late _ ↦ give tt
            | reply a ↦
                if a.1
                then expend_and_probe env a.0 join_node sid
                else emit (asked_close_circuit sid)
          ])
  after_trying begun far _ (got relay h before f) =
      expend_and_probe-Returns begun far relay before h f
  after_trying begun far _ (gave_up last relay before f) = (refl, no_relay far relay before f)

  join_circuit-Returns : (log : List Effect) → Returns log (join_circuit env join_node sid log)
  unfolding join_circuit get_dht_peers
  join_circuit-Returns log = elim (Bool-cases (same join_node env.host_id)) [
    | inr e ↦
        let far : join_node ≢ env.host_id =
          λ f. ground (arith, e, (same_iff join_node env.host_id).1 f) in
        rw (join_circuit, e)
          (after_trying log far _ (
            try_relay-Tried retry_times (known_peers env log) [] [] log (length-known_peers env log)
              (inl refl) (inl (omega arith))))
    | inl e ↦
        let here = (same_iff join_node env.host_id).0 e in
        elim (prompt.on_relay log sid (new_circuit_success env.relay sid)) [
          | inl (x, f) ↦ rw (join_circuit, e, f) (refl, is_joint here)
          | inr f ↦ rw (join_circuit, e, f) (refl, is_joint here)
        ]
  ]

-- When the proxy decrypts the negotiation, the relay and command actors answer in time, with
-- consent or refusal, and the random starts are at least 100 below the largest int,
-- handleGossipMsg returns without a panic, and in one of these ways: the client refused the
-- session, and nothing more was done than to ask for the circuit to be closed; or the client
-- consented, and then either this node is the joint node and the success signal was the only
-- thing that it sent, or it is not and it asked last for the circuit to be closed, right after
-- the last node that it asked to be the relay node refused, or right after an allowed relay node
-- consented and refused the extension to the joint node, or it sent the probe signal last, right
-- after an allowed relay node consented to the session and then to the extension; an allowed
-- relay node is neither the joint node nor this node, or is the empty id that stands for no node.
pub handle_gossip_msg-Ended :
    (env : GossipEnv) (info : ClientInfo) (neg : EncryptedNeg) (sid join : Bytes)
    (log : List Effect)
    → IsPrompt env
    → HasRoom env
    → env.decrypt log info.peer_id neg.cypher ≡ reply (inl (sid, join))
    → (handle_gossip_msg env info neg log).1 ≡ some tt
      × Ended env sid
          (or_nil (env.peer_decode join))
          info.peer_id
          (asked_decrypt info.peer_id neg.cypher ∷ log)
          (handle_gossip_msg env info neg log).0
unfolding handle_gossip_msg
handle_gossip_msg-Ended env info neg sid join log prompt room e =
    let before = asked_decrypt info.peer_id neg.cypher ∷ log in
    elim (prompt.on_session before info.peer_id sid exit_role answer_role) [
      | inl (x, f) ↦ rw (handle_gossip_msg, e, f) (refl, client_refused x f)
      | inr f ↦
          let (returns, joined) =
            join_circuit-Returns env prompt room sid (or_nil (env.peer_decode join))
              (asked_new_session info.peer_id sid exit_role answer_role ∷ before) in
          rw (handle_gossip_msg, e, f) (returns, client_joined f _ joined)
    ]
