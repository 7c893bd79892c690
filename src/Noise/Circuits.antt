-- ===== src/Noise/Circuits.antt =====
-- network/noise/noise.go, NewCircuit: what a node has after it asked its proxy for a circuit.
use white_noise.Prelude.{
  ◌≡◌, refl, ◌∙◌, inl, inr, true, Option, none, some, List, [], ◌∷◌, Bytes, same_refl, Option-cases,
}
use white_noise.Errors.{
  Error, external, circuit_exists, circuit_rejected, Outcome, ok, err, panic, Outcome-cases,
}
use white_noise.SyncMap.{load}
use white_noise.Wire.{or_nil}
use white_noise.Session.{caller_role, entry_role}
use white_noise.Services.{Effect, opened, wrote, task_added, bind_result, give}
use white_noise.Id
use white_noise.Relay.State.{Manager, add_circuit_conn_caller}
use white_noise.Relay.Sending.Writes.{close_circuit-Removed}
use white_noise.Relay.Setup.{new_session_to_peer}
use white_noise.Proxy.State.{Request, new_circuit, add_new_circuit_task}
use white_noise.Noise.Exchange.{exchanged, Exchanged, failed, succeeded, exchange-Exchanged}
use white_noise.Noise.{
  Service, NoiseEnv, bare_request, with_id, exchange, close, answered, ask_circuit, open_circuit,
  dial, close_on_error, start_circuit,
}

-- The relay manager knows nothing of a session.
pub record IsCleared (sid : Bytes) (m : Manager) : Type 0 where
  pub no_session : load m.session_map sid ≡ none
  pub no_circuit : load m.circuit_conn_map sid ≡ none
  pub no_secure : load m.secure_conn_map sid ≡ none

module _ (env : NoiseEnv) where
  open env use {proxy}
  open proxy use {around, hashes, codecs}

  close-IsCleared : (sid : Bytes) (s : Service) → IsCleared sid (close env sid s).relay
  close-IsCleared sid s =
      let r = close_circuit-Removed proxy.relay sid s.relay in
      record {
        no_session = r.sessions sid ∙ rw (same_refl sid) refl;
        no_circuit = r.circuits sid ∙ rw (same_refl sid) refl;
        no_secure = r.secures sid ∙ rw (same_refl sid) refl;
      }

  -- The request for a circuit to a destination.
  abbrev pub IsRequest : Bytes → Bytes → Request → Type 0
  IsRequest destination sid req =
      (req.reqtype ≡ new_circuit)
      × (codecs.new_circuit.marshal (record {
        from = Id.hash hashes env.account_id;
        to = Id.hash hashes destination;
        session_id = sid;
      })
          ≡ some req.payload)

  -- How NewCircuit ends before its deferred end: an error, or the request was accepted.
  data Tried (proxy_node destination sid : Bytes) (log : List Effect)
      : List Effect × Option (Service × Outcome (Unit {0})) → Type 0 where
    gave_up :
        (log' : List Effect) (s : Service) (e : Error)
        → Tried proxy_node destination sid log (log', some (s, err e))
    got :
        (s : Service) (req : Request) (bytes : Bytes)
        → IsRequest destination sid req
        → around.ack_result
            (task_added req.req_id
              ∷ wrote proxy_node (or_nil (codecs.request.marshal req))
              ∷ opened proxy_node
              ∷ log)
            req.req_id
          ≡ some (true, bytes)
        → Tried proxy_node destination sid log
            (exchanged env proxy_node req (opened proxy_node ∷ log), some (s, ok tt))

  answered-Tried :
      (destination sid : Bytes) (s : Service) (proxy_node : Bytes) (req : Request)
      (log : List Effect) (r : List Effect × Option (Outcome Bytes))
      → IsRequest destination sid req
      → Exchanged env proxy_node req (opened proxy_node ∷ log) r
      → Tried proxy_node destination sid log (bind_result r.0 r.1 λ o. give (answered env sid s o))
  answered-Tried destination sid s proxy_node req log _ is_req (failed log' (circuit_rejected t)) =
      gave_up log' _ _
  answered-Tried destination sid s proxy_node req log _ is_req (failed log' e) = gave_up log' _ _
  answered-Tried destination sid s proxy_node req log _ is_req (succeeded bytes g) =
      got s req bytes is_req g

  ask_circuit-Tried :
      (destination sid : Bytes) (s : Service) (log : List Effect)
      → Tried s.proxy_node destination sid log
          (ask_circuit env destination sid s (opened s.proxy_node ∷ log))
  unfolding ask_circuit
  ask_circuit-Tried destination sid s log =
      elim (Option-cases (
        codecs.new_circuit.marshal (record {
          from = Id.hash hashes env.account_id;
          to = Id.hash hashes destination;
          session_id = sid;
        }))) [
          | inl e ↦ rw (ask_circuit, e) (gave_up _ s (external []))
          | inr (bytes, e) ↦
              let bare = bare_request env new_circuit (proxy.id_string proxy.host_id) bytes in
              let req = with_id env bare (or_nil (codecs.request.marshal bare)) in
              rw (ask_circuit, e)
                (answered-Tried destination sid (env.meanwhile s) s.proxy_node req log
                  (exchange env s.proxy_node req circuit_rejected (opened s.proxy_node ∷ log))
                  (refl, e)
                  (exchange-Exchanged env s.proxy_node req circuit_rejected
                    (opened s.proxy_node ∷ log)))
        ]

  open_circuit-Tried :
      (destination sid : Bytes) (s : Service) (log : List Effect)
      → Tried s.proxy_node destination sid log (open_circuit env destination sid s log)
  unfolding open_circuit
  open_circuit-Tried destination sid s log =
      elim (Option-cases (around.new_stream_error log s.proxy_node)) [
        | inr (e, f) ↦ rw (open_circuit, f) (gave_up log s e)
        | inl f ↦
            rw (open_circuit, f)
              (ask_circuit-Tried destination sid
                (record s { relay = add_circuit_conn_caller sid destination s.relay }) log)
      ]

  dial-Tried :
      (destination sid : Bytes) (s : Service) (log : List Effect)
      → Tried s.proxy_node destination sid log (dial env destination sid s log)
  unfolding dial
  dial-Tried destination sid s log = elim (Option-cases (load s.relay.session_map sid)) [
    | inr (x, f) ↦ rw (dial, f) (gave_up log _ circuit_exists)
    | inl f ↦
        let r = new_session_to_peer proxy.relay s.proxy_node sid caller_role entry_role s.relay in
        elim (Option-cases r.1) [
          | inr (e, g) ↦ rw (dial, f, g) (gave_up log _ e)
          | inl g ↦
              rw (dial, f, g)
                (open_circuit-Tried destination sid
                  (record s { proxy = add_new_circuit_task sid destination s.proxy; relay = r.0 })
                  log)
        ]
  ]

  -- How NewCircuit ends.
  pub data Ended (proxy_node remote sid : Bytes) (log : List Effect)
      : List Effect × Option (Service × Outcome (Unit {0})) → Type 0 where
    cleared :
        (log' : List Effect) (s : Service) (e : Error)
        → IsCleared sid s.relay
        → Ended proxy_node remote sid log (log', some (s, err e))
    accepted :
        (s : Service) (destination : Bytes) (req : Request) (bytes : Bytes)
        → Id.white_noise_id_from_string hashes remote ≡ ok destination
        → IsRequest destination sid req
        → around.ack_result
            (task_added req.req_id
              ∷ wrote proxy_node (or_nil (codecs.request.marshal req))
              ∷ opened proxy_node
              ∷ log)
            req.req_id
          ≡ some (true, bytes)
        → Ended proxy_node remote sid log
            (exchanged env proxy_node req (opened proxy_node ∷ log), some (s, ok tt))
    crashed :
        (s : Service)
        → Id.white_noise_id_from_string hashes remote ≡ panic
        → Ended proxy_node remote sid log (log, some (s, panic))

  close_on_error-Ended :
      (proxy_node remote destination sid : Bytes) (log : List Effect)
      (r : List Effect × Option (Service × Outcome (Unit {0})))
      → Id.white_noise_id_from_string hashes remote ≡ ok destination
      → Tried proxy_node destination sid log r
      → Ended proxy_node remote sid log (bind_result r.0 r.1 λ o. give (close_on_error env sid o))
  close_on_error-Ended proxy_node remote destination sid log _ e (gave_up log' s x) =
      cleared log' (close env sid s) x (close-IsCleared sid s)
  close_on_error-Ended proxy_node remote destination sid log _ e (got s req bytes is_req g) =
      accepted s destination req bytes e is_req g

  -- NewCircuit, whatever the node's state, the destination's text, the libraries and the other
  -- nodes are, ends in one of three ways: it returns an error and the relay manager has no
  -- session, connection or secure connection of the session any more; or it returns none, and
  -- then it wrote to the proxy node, on a new stream, what the codec makes of a NewCircuit
  -- request, or an empty message where it cannot marshal the request, for the hashes of the
  -- account's and the destination's ids and for the session, and got an ack of success under the
  -- request's id before the timeout; or the destination's text made WhiteNoiseIDfromString panic.
  pub start_circuit-Ended :
      (remote sid : Bytes) (s : Service) (log : List Effect)
      → Ended s.proxy_node remote sid log (start_circuit env remote sid s log)
  unfolding start_circuit
  start_circuit-Ended remote sid s log =
      elim (Outcome-cases (Id.white_noise_id_from_string hashes remote)) [
        | inl (destination, e) ↦
            rw (start_circuit, e)
              (close_on_error-Ended s.proxy_node remote destination sid log
                (dial env destination sid s log) e (dial-Tried destination sid s log))
        | inr (inl (x, e)) ↦
            rw (start_circuit, e) (cleared log (close env sid s) x (close-IsCleared sid s))
        | inr (inr e) ↦ rw (start_circuit, e) (crashed s e)
      ]
