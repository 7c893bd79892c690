-- ===== src/Relay/Sending/Sends.antt =====
-- protocol/relay/manager.go: what SendRelay and ForwardRelay achieve.
use white_noise.Prelude.{
  ◌≡◌, refl, ap, ◌≢◌, Option, none, some, List, [], ◌∷◌, arith, Bytes, inl, inr, Option-cases, ◌⊎◌,
}
use white_noise.Errors.{Error, relay_no_session, empty_pair}
use white_noise.SyncMap.{load}
use white_noise.Session.{Stream, Session}
use white_noise.Relay.State.{Env, Manager, Effect}
use white_noise.Relay.Sending.{
  write_msg, write_all, write_others, send_relay, forward_relay, close_circuit,
}
use white_noise.Relay.Sending.Removal.{with_log, Removed}
use white_noise.Relay.Sending.Writes.{
  after_writes, others, write_all_log_only, write_others_log_only, write_all_done,
  write_others_done, close_circuit-Removed_after,
}

-- A message either went to each of the given streams of the session and changed nothing but the log,
-- or there was an error and the session is removed.
abbrev pub Sent :
    Bytes → Bytes → (List Stream → List Stream) → Manager → Manager × Option Error → Type 0
Sent sid msg chosen m r =
    ((s : Session) × (load m.session_map sid ≡ some s)
      × (s.pair ≢ [])
      × (r.1 ≡ none)
      × (r.0 ≡ with_log m (after_writes (chosen s.pair) msg m.log)))
    ⊎ ((e : Error) × (r.1 ≡ some e) × Removed sid m r.0)

module _ (env : Env) where
  failed-Sent :
      (sid msg : Bytes) (chosen : List Stream → List Stream) (l : List Effect) (m m' : Manager)
      (e : Error) (r : Manager × Option Error)
      → m' ≡ with_log m l
      → r ≡ ((close_circuit env sid m').0, some e)
      → Sent sid msg chosen m r
  failed-Sent sid msg chosen l m m' e r logged failed =
      inr (e, ap (λ p. p.1) failed, rw failed (close_circuit-Removed_after env sid l m m' logged))

  send_to :
      (sid msg : Bytes) (m : Manager) (s : Session) (pair : List Stream)
      → load m.session_map sid ≡ some s
      → s.pair ≡ pair
      → Sent sid msg (λ p. p) m (send_relay env sid msg m)
  unfolding send_relay
  send_to sid msg m s [] h p =
      failed-Sent sid msg (λ p. p) m.log m m empty_pair _ refl (ground arith)
  send_to sid msg m s (x ∷ xs) h p = elim (Option-cases (write_all env (x ∷ xs) msg m).1) [
    | inl e ↦
        inl (s, h, ground arith, ground arith, ground (arith, write_all_done env (x ∷ xs) msg m))
    | inr (e, w) ↦
        failed-Sent sid msg (λ p. p) _ m _ e _ (write_all_log_only env (x ∷ xs) msg m)
          (ground arith)
  ]

  forward_to :
      (sid msg from : Bytes) (m : Manager) (s : Session) (pair : List Stream)
      → load m.session_map sid ≡ some s
      → s.pair ≡ pair
      → Sent sid msg (λ p. others p from) m (forward_relay env sid msg from m)
  unfolding forward_relay
  forward_to sid msg from m s [] h p =
      failed-Sent sid msg (λ p. others p from) m.log m m empty_pair _ refl (ground arith)
  forward_to sid msg from m s (x ∷ xs) h p =
      elim (Option-cases (write_others env (x ∷ xs) msg from m).1) [
        | inl e ↦ inl (
          s,
          h,
          ground arith,
          ground arith,
          rw p (ground (arith, write_others_done env (x ∷ xs) msg from m)),
        )
        | inr (e, w) ↦
            failed-Sent sid msg (λ p. others p from) _ m _ e _
              (write_others_log_only env (x ∷ xs) msg from m) (ground arith)
      ]

  -- SendRelay writes the message to every stream of a session that has one, in order, changes
  -- nothing else and returns no error, or it returns an error and the session, its connection and
  -- its secure connection are removed and no other; there is no third case.
  pub send_relay-Sent :
      (sid msg : Bytes) (m : Manager) → Sent sid msg (λ p. p) m (send_relay env sid msg m)
  unfolding send_relay
  send_relay-Sent sid msg m = elim (Option-cases (load m.session_map sid)) [
    | inl h ↦ failed-Sent sid msg (λ p. p) m.log m m relay_no_session _ refl (ground arith)
    | inr (s, h) ↦ send_to sid msg m s s.pair h refl
  ]

  -- ForwardRelay does the same for the streams whose remote peer is not the one that the message
  -- came from.
  pub forward_relay-Sent :
      (sid msg from : Bytes) (m : Manager)
      → Sent sid msg (λ p. others p from) m (forward_relay env sid msg from m)
  unfolding forward_relay
  forward_relay-Sent sid msg from m = elim (Option-cases (load m.session_map sid)) [
    | inl h ↦
        failed-Sent sid msg (λ p. others p from) m.log m m relay_no_session _ refl (ground arith)
    | inr (s, h) ↦ forward_to sid msg from m s s.pair h refl
  ]

  write_all_healthy :
      (xs : List Stream) (msg : Bytes) (m : Manager)
      → ((l : List Effect) (id : Bytes) → env.write_error l id ≡ none)
      → (write_all env xs msg m).1 ≡ none
  unfolding write_all write_msg
  write_all_healthy [] msg m healthy = refl
  write_all_healthy (x ∷ xs) msg m healthy =
      ground (
        arith,
        healthy m.log x.stream_id,
        write_all_healthy xs msg (write_msg env x msg m).0 healthy,
      )

  -- Where no write fails, SendRelay on a session that has a stream writes the message to all of
  -- its streams in order, changes nothing else and returns no error.
  pub send_relay_healthy :
      (sid msg : Bytes) (m : Manager) (s : Session) (x : Stream) (xs : List Stream)
      → ((l : List Effect) (id : Bytes) → env.write_error l id ≡ none)
      → load m.session_map sid ≡ some s
      → s.pair ≡ x ∷ xs
      → send_relay env sid msg m ≡ (with_log m (after_writes s.pair msg m.log), none)
  unfolding send_relay
  send_relay_healthy sid msg m s x xs healthy h p =
      rw p (
        ground (arith, write_all_healthy (x ∷ xs) msg m healthy, write_all_done env (x ∷ xs) msg m))
