-- ===== src/Sdk.antt =====
-- sdk/sdk.go: the client that a program uses, on top of the node's service.
pub mod Dialling
use white_noise.Prelude.{
  ℤ, pos, negsuc, int32_of, int_of_int32, ℕ, zero, suc, Bool, true, false, Option, none, some, List,
  [], ◌∷◌, ◌++◌, Bytes, map, if◌then◌else◌,
}
use white_noise.Errors.{Error, timeout, Outcome, ok, err, panic}
use white_noise.Wire.{Hashes}
use white_noise.Services.{AddrInfo, Act, give, bind}
use white_noise.Secure.Words.{put_uint64}
use white_noise.Id
use white_noise.Relay.State.{get_secure_conn}
use white_noise.Relay.Sending.{close_circuit}
use white_noise.Noise.{Service, NoiseEnv, start_circuit, get_mainnet_peers}

-- What passes while a client waits: the service at each poll, from what it was when the wait began, whether
-- the timer fired by then, and the clock. A poll comes every ten milliseconds, the timer fires after ten seconds.
pub record Passing : Type 0 where
  pub later : Service → ℕ → Service
  pub is_over : ℕ → Bool
  pub now : ℕ  -- UnixNano

-- generateSessionID
unfoldable pub generate_session_id : Hashes → Bytes → Bytes → ℕ → Bytes
generate_session_id hashes remote_id local_id t =
    hashes.base58_encode (hashes.sha256 (local_id ++ remote_id ++ put_uint64 t))

-- GetCircuit: whether the connection's session is the initiator, where there is one.
abbrev pub get_circuit : Bytes → Service → Option Bool
get_circuit sid s = get_secure_conn s.relay sid

-- The loop of Dial, from the `i`-th poll on; `none` is the end of the fuel.
unfoldable pub await_circuit : Passing → Bytes → Service → ℕ → ℕ → Option (Outcome Bool)
await_circuit passing sid s zero i = none
await_circuit passing sid s (suc fuel) i =
    let further = await_circuit passing sid s fuel (suc i) in
    elim (get_circuit sid (passing.later s i)) [
      | some conn ↦ some (ok conn)
      | none ↦ if passing.is_over i then some (err timeout) else further
    ]

module _ (env : NoiseEnv) where
  open env use {proxy}

  -- GetWhiteNoiseID
  abbrev pub get_white_noise_id : Bytes
  get_white_noise_id = Id.string proxy.hashes env.account_id

  -- The session id of a call of Dial
  abbrev pub session_of : Passing → Bytes → Bytes
  session_of passing remote_id =
      generate_session_id proxy.hashes remote_id get_white_noise_id passing.now

  -- What Dial does after NewCircuit
  abbrev pub dialled :
      Passing → Bytes → ℕ → Service × Outcome (Unit {0}) → Service × Option (Outcome Bool)
  dialled passing sid fuel (s, ok _) = (s, await_circuit passing sid s fuel 0)
  dialled passing sid fuel (s, err e) = (s, some (err e))
  dialled passing sid fuel (s, panic) = (s, some panic)

  -- Dial: the service when its loop began or it returned, and the connection.
  unfoldable pub dial : Passing → ℕ → Bytes → Service → Act (Service × Option (Outcome Bool))
  unfolding await_circuit
  dial passing fuel remote_id s =
      let sid = session_of passing remote_id in
      bind (start_circuit env remote_id sid s) λ r. give (dialled passing sid fuel r)

  -- DisconnectCircuit
  abbrev pub disconnect_circuit : Bytes → Service → Service × Option Error
  disconnect_circuit sid s =
      let (m, e) = close_circuit proxy.relay sid s.relay in (record s { relay = m }, e)

  -- GetMainNetPeers: the ids of the peers; their addresses go to the peerstore.
  abbrev pub ids_of : Outcome (List AddrInfo) → Outcome (List Bytes × List AddrInfo)
  ids_of (ok peers) = ok (map (λ (p : AddrInfo). p.id) peers, peers)
  ids_of (err e) = err e
  ids_of panic = panic

  abbrev pub get_main_net_peers : ℤ → Act (Outcome (List Bytes × List AddrInfo))
  get_main_net_peers cnt = bind (get_mainnet_peers env cnt) λ r. give (ids_of r)
