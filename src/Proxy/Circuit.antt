-- ===== src/Proxy/Circuit.antt =====
-- protocol/proxy/proxy.go, HandleNewCircuit: a client asks its proxy for a circuit to another client.
use white_noise.Prelude.{
  pos, ℕ, zero, suc, Bool, true, false, not, ◌&&◌, Option, none, some, List, [], ◌∷◌, Bytes, codes,
  same, length, if◌then◌else◌,
}
use white_noise.Errors.{Error, unmarshal_circuit, no_stream_yet, session_full, ok, err, panic}
use white_noise.Wire.{decoded, malformed, encode_msg_id_hash, or_nil}
use white_noise.Session.{Session, entry_role, joint_role, exit_role, answer_role, is_ready}
use white_noise.Services.{
  asked_close_circuit, Reply, reply, late, AddrInfo, Act, give, crash, ◌>>=◌, ◌>>◌, emit, or_return,
  request_session, request_new_session, request_send_relay, request_dht_peers, request_gossip_joint,
}
use white_noise.Search.{search, is_invalid}
use white_noise.Relay.Messages.{new_circuit_success, new_probe_signal}
use white_noise.Proxy.State.{
  Request, NewCircuit, Negotiate, ProxyEnv, ClientInfo, Manager, retry_times, get_client,
}
use white_noise.Proxy.Gossip.{encrypt_gossip}

-- What HandleNewCircuit returns: the data of the ack, and the error.
abbrev pub Result : Type 0
Result = Bytes × Option Error

-- `return nil, err`
abbrev pub fail : Error → Result
fail e = ([], some e)

module _ (env : ProxyEnv) where
  open env use {around, hashes, codecs}

  -- The caller and the destination are both clients of this node.
  unfoldable pub serve_both : ClientInfo → Bytes → Act Result
  serve_both info sid =
      or_return fail (request_new_session around info.peer_id sid exit_role answer_role) λ e.
        elim e [
          | some e' ↦ emit (asked_close_circuit sid) >> give (fail e')
          | none ↦
              or_return fail (request_send_relay around sid (new_circuit_success env.relay sid))
                λ e'. give ([], e')
        ]

  -- A peer that may be the joint node: it did not fail before, and is not this node, the caller or
  -- the destination.
  unfoldable pub is_candidate : List Bytes → Bytes → Bytes → Bytes → Bool
  is_candidate invalid caller to id =
      not (same id env.host_id)
      && not (same id caller)
      && not (is_invalid invalid (env.id_string id))
      && not (same (encode_msg_id_hash hashes (hashes.sha256 (env.id_string id))) to)

  -- The attempts to get a joint node: the last one that was tried, and whether it joined.
  unfoldable pub try_join :
      ℕ → List AddrInfo → Bytes → Bytes → Bytes → List Bytes → Bytes → Act (Reply (Bytes × Bool))
  unfolding search is_candidate
  try_join zero peers caller to sid invalid join log = give (reply (join, false)) log
  try_join (suc n) peers caller to sid invalid join log =
      elim (search (is_candidate invalid caller to) peers (length peers) (env.random log) join) [
        | none ↦ (log, none)
        | some join' ↦
            (request_new_session around join' sid entry_role joint_role >>= λ r. elim r [
              | late e ↦ give (late e)
              | reply e ↦ elim e [
                | some _ ↦ try_join n peers caller to sid (env.id_string join' ∷ invalid) join'
                | none ↦ give (reply (join', true))
              ]
            ])
              log
      ]

  -- The message for the destination: the caller encrypts it, the network gossips it, and the probe goes
  -- to the joint node. When the gossip fails the code returns `err`, which is nil
  -- there, so that nobody reads the text; the cause at its end is left out.
  unfoldable pub negotiate : Bytes → NewCircuit → Bytes → Act Result
  negotiate join req caller =
      let neg : Negotiate = record {
        join = env.id_string join;
        session_id = req.session_id;
        destination = req.to;
        sig = [];
      } in
      encrypt_gossip env (or_nil (codecs.negotiate.marshal neg)) caller req.session_id >>= λ c.
      elim c [
        | panic ↦ crash
        | err e ↦ give (fail e)
        | ok neg_cypher ↦ or_return fail (request_gossip_joint around req.to neg_cypher) λ e.
            elim e [
              | some _ ↦
                  emit (asked_close_circuit req.session_id) >> give (codes "GossipJoint err", none)
              | none ↦
                  or_return fail
                    (request_send_relay around req.session_id
                      (or_nil (new_probe_signal env.relay req.session_id)))
                    λ e'. give ([], e')
            ]
      ]

  -- The rest of HandleNewCircuit, where the destination is no client of this node. When no node joined
  -- the code calls `err.Error()` of a nil error.
  unfoldable pub find_joint : NewCircuit → Bytes → Act Result
  unfolding try_join negotiate
  find_joint req caller = or_return fail (request_dht_peers around (pos 100)) λ peers.
      or_return fail (try_join retry_times peers caller req.to req.session_id [] []) λ joined.
        if joined.1
        then negotiate joined.0 req caller
        else (emit (asked_close_circuit req.session_id) >> crash)

  -- Whether the `from` of a request is a client that has this peer id.
  abbrev pub is_client_of : Manager → Bytes → Bytes → Bool
  is_client_of m from caller = elim (get_client m from) [
    | none ↦ false
    | some info ↦ same info.peer_id caller
  ]

  unfoldable pub with_session : Manager → NewCircuit → Bytes → Option Session → Act Result
  unfolding serve_both find_joint
  with_session m req caller none = give (codes "No stream for this session yet", some no_stream_yet)
  with_session m req caller (some sess) =
      if is_ready sess
      then give (codes "Session is full", some session_full)
      else elim (get_client m req.to) [
        | some info ↦ serve_both info req.session_id
        | none ↦ find_joint req caller
      ]

  -- HandleNewCircuit; the maps are read as they are when the request comes.
  unfoldable pub handle_new_circuit : Request → Bytes → Manager → Act Result
  unfolding with_session
  handle_new_circuit request caller m = elim (codecs.new_circuit.unmarshal request.payload) [
    | malformed _ _ ↦ give (codes "Unmarshal newCircuit err", some unmarshal_circuit)
    | decoded req ↦
        if is_client_of m req.from caller
        then or_return fail (request_session around req.session_id) (with_session m req caller)
        else give (codes "Unmarshal newCircuit err", some unmarshal_circuit)
  ]
