-- ===== src/Relay/Rendezvous.antt =====
-- protocol/relay: the joint node, where the two halves of a circuit meet. Each half sends a probe; two
-- equal probes complete the circuit, and two different ones close it.
use white_noise.Prelude.{
  ◌≡◌, ◌≢◌, refl, false, none, some, List, [], ◌∷◌, arith, Bytes, same, same_iff, same_refl, inl,
  inr, Option-cases,
}
use white_noise.Errors.{ok}
use white_noise.SyncMap.{load, store, load-store}
use white_noise.Wire.{probe_type, ProbeSignal, IsLossless, decoded}
use white_noise.Session.{Stream, Session, Probe, joint_role}
use white_noise.Relay.State.{Env, Manager, Effect}
use white_noise.Relay.Messages.{identified, new_probe_signal, new_circuit_success}
use white_noise.Relay.Sending.{send_relay}
use white_noise.Relay.Sending.Removal.{with_log, Removed}
use white_noise.Relay.Sending.Writes.{after_writes, close_circuit-Removed}
use white_noise.Relay.Sending.Sends.{send_relay_healthy}
use white_noise.Relay.Inbound.{handle_probe, handle_relay_probe, dispatch, inbound}

-- The codecs that a probe passes read back what they wrote.
pub record ProbeCodecs (env : Env) : Type 0 where
  pub relay_lossless : IsLossless env.codecs.relay
  pub probe_lossless : IsLossless env.codecs.probe_signal

module _ (env : Env) where
  -- The first probe of a session is kept, a second one with the same content sends the success
  -- signal to the session's streams, and a second one with another content removes the session,
  -- its connections and no other session.
  handle_probe_cases :
      (probe : Probe) (m : Manager)
      → (load m.probe_map probe.session_id ≡ none
          → handle_probe env probe m
            ≡ record m { probe_map = store m.probe_map probe.session_id probe })
        × ((p : Probe)
            → load m.probe_map probe.session_id ≡ some p
            → p.rand ≡ probe.rand
            → handle_probe env probe m
              ≡ (send_relay env probe.session_id (new_circuit_success env probe.session_id) m).0)
        × ((p : Probe)
            → load m.probe_map probe.session_id ≡ some p
            → p.rand ≢ probe.rand
            → Removed probe.session_id m (handle_probe env probe m))
  unfolding handle_probe
  handle_probe_cases probe m = (
    λ h. ground arith,
    λ p h e. ground (arith, same_iff p.rand probe.rand),
    λ p h e. rw (h, differ p e, handle_probe) (close_circuit-Removed env probe.session_id m),
  )
    where
      differ : (p : Probe) → p.rand ≢ probe.rand → same p.rand probe.rand ≡ false
      differ p e = ground (arith, same_iff p.rand probe.rand)

  -- The bytes of NewProbeSignal, as they are read back.
  probe_read :
      (sid bytes : Bytes)
      → ProbeCodecs env
      → new_probe_signal env sid ≡ some bytes
      → (inner : Bytes) × (env.codecs.relay.unmarshal bytes
          ≡ decoded (identified env probe_type inner))
        × (env.codecs.probe_signal.unmarshal inner
            ≡ decoded (record { session_id = sid; payload = env.hashes.sha256 sid }))
  unfolding new_probe_signal
  probe_read sid bytes c e =
      let probe : ProbeSignal = record { session_id = sid; payload = env.hashes.sha256 sid } in
      elim (Option-cases (env.codecs.probe_signal.marshal probe)) [
        | inl h ↦ cc
        | inr (inner, h) ↦ (
          inner,
          c.relay_lossless.reads_back _ _ (ground arith),
          c.probe_lossless.reads_back _ _ h,
        )
      ]

  -- At a joint node that knows a session of two streams and no probe of it, with lossless codecs
  -- and no write error, the first probe that NewProbeSignal made for the session is kept, and the
  -- second one makes the node write the success signal to both streams and change nothing else.
  pub probes_meet :
      (sid bytes : Bytes) (m : Manager) (s t a b : Stream) (sess : Session)
      → ProbeCodecs env
      → ((l : List Effect) (id : Bytes) → env.write_error l id ≡ none)
      → new_probe_signal env sid ≡ some bytes
      → load m.session_map sid ≡ some sess
      → sess.role ≡ joint_role
      → sess.pair ≡ a ∷ b ∷ []
      → load m.probe_map sid ≡ none
      → let probe : Probe = record { session_id = sid; rand = env.hashes.sha256 sid } in
        let kept = record m { probe_map = store m.probe_map sid probe } in
        (inbound env s bytes m ≡ ok kept)
        × (inbound env t bytes kept
            ≡ ok (with_log kept (after_writes (a ∷ b ∷ []) (new_circuit_success env sid) m.log)))
  unfolding inbound dispatch handle_relay_probe
  probes_meet sid bytes m s t a b sess c healthy e h role pair fresh =
      let (inner, outer, read) = probe_read sid bytes c e in
      let probe : Probe = record { session_id = sid; rand = env.hashes.sha256 sid } in
      let kept = record m { probe_map = store m.probe_map sid probe } in
      let sent =
        send_relay_healthy env sid (new_circuit_success env sid) kept sess a (b ∷ []) healthy h
          pair in
      let meet = handle_probe_cases probe kept in
      let first = (handle_probe_cases probe m).0 fresh in
      let second =
        (handle_probe_cases probe kept).1 probe
          (ground (arith, load-store m.probe_map sid sid probe, same_refl sid)) refl in
      (ground (arith, outer, read, first), ground (arith, outer, read, second, sent))
