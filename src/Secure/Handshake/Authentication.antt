-- ===== src/Secure/Handshake/Authentication.antt =====
-- secure/handshake.go and session.go: what a side knows of the other one when the handshake is over.
use white_noise.Prelude.{
  ap, ◌≡◌, ◌≢◌, refl, sym, subst, ◌∙◌, ◌⊎◌, inl, inr, Bool, true, false, not, ◌&&◌, Option, none,
  some, [], ◌++◌, Bytes, same, same_iff, Bool-cases, Option-cases, if◌then◌else◌, arith,
}
use white_noise.Wire.{decoded, Decoded-cases}
use white_noise.Secure.Handshake.{
  HandshakeError, NoiseHandshakePayload, SecureSession, HandshakeEnv, payload_sig_prefix, Returned,
  established, failed, Step, and_then, set_cipher_states, set_if_given, send_handshake_message,
  next_message, read_handshake_message, generate_handshake_payload, check_identity,
  handle_remote_handshake_payload, read_identity, initiate, respond, run_handshake,
  new_secure_session,
}

payload_cases :
    (r : Bytes ⊎ HandshakeError)
    → ((payload : Bytes) × (r ≡ inl payload)) ⊎ ((e : HandshakeError) × (r ≡ inr e))
payload_cases (inl payload) = inl (payload, refl)
payload_cases (inr e) = inr (e, refl)

-- What holds of the session and the value after a step, unless it is an error.
abbrev pub OnSuccess :
    {K P A : Type 0}
    → (SecureSession K P → A → Type 0)
    → SecureSession K P × (A ⊎ HandshakeError)
    → Type 0
OnSuccess Q (s, inl a) = Q s a
OnSuccess Q (s, inr e) = Unit

and_then-OnSuccess :
    {K P A B : Type 0} (Q : SecureSession K P → A → Type 0) (Q' : SecureSession K P → B → Type 0)
    (f : A → Step K P B) (r : SecureSession K P × (A ⊎ HandshakeError))
    → OnSuccess Q r
    → ((s : SecureSession K P) (a : A) → Q s a → OnSuccess Q' (f a s))
    → OnSuccess Q' (and_then r f)
and_then-OnSuccess Q Q' f (s, inl a) q next = next s a q
and_then-OnSuccess Q Q' f (s, inr e) q next = tt

-- The remote side of a session, with this side's role, is what it was.
abbrev Kept : {K P : Type 0} → SecureSession K P → SecureSession K P → Type 0
Kept s s' =
    (s'.initiator ≡ s.initiator) × (s'.remote_id ≡ s.remote_id) × (s'.remote_key ≡ s.remote_key)

-- The state of a side's handshake, and the message of its connection, that the other side's identity
-- must come with: for the caller the second message of the handshake, after its own first one, and for
-- the answer the third one, after the first one was read and the second one was sent. `hs` is the state
-- that the handshake began with.
abbrev pub StageAt :
    {S K P : Type 0} → HandshakeEnv S K P → Bool → S → Bytes → Bytes → S → Bytes → Type 0
StageAt {K = K} env true hs payload incoming before msg =
    (first : Bytes) × (keys : Option (K × K)) × (rest : Bytes) × (env.write_message hs []
      ≡ some (before, first, keys))
    × (next_message incoming ≡ some (msg, rest))
StageAt {S = S} {K = K} env false hs payload incoming before msg =
    (first : Bytes) × (rest : Bytes) × (heard : S) × (first_payload : Bytes) × (keys : Option
      (K × K))
    × (second : Bytes) × (keys' : Option (K × K)) × (rest' : Bytes) × (next_message incoming
        ≡ some (first, rest))
    × (env.read_message hs first ≡ some (heard, first_payload, keys))
    × (env.write_message heard payload ≡ some (before, second, keys'))
    × (next_message rest ≡ some (msg, rest'))

-- The same, for a handshake that begins with a fresh state for a fresh noise key of this side.
abbrev pub Reached : {S K P : Type 0} → HandshakeEnv S K P → Bool → Bytes → S → Bytes → Type 0
Reached {S = S} env initiator incoming before msg =
    (kp : Bytes × Bytes) × (hs : S) × (payload : Bytes) × (env.generate_keypair ≡ some kp)
    × (env.new_handshake_state initiator kp ≡ some hs)
    × (generate_handshake_payload env kp.1 ≡ inl payload)
    × StageAt env initiator hs payload incoming before msg

-- The remote identity was proved by a message that was read in the state `before`: its payload held the key
-- and a signature, by that key, of the noise key that the handshake agreed on with the other side;
-- the id is the key's, and for the caller it is the expected one.
pub record IsAuthenticated {S K P : Type 0} (env : HandshakeEnv S K P) (expected : Bytes)
    (initiator : Bool) (id : Bytes) (remote : Option P) (before : S) (msg : Bytes) : Type 0 where
  pub after : S
  pub payload : Bytes
  pub keys : Option (K × K)
  pub was_read : env.read_message before msg ≡ some (after, payload, keys)
  pub nhp : NoiseHandshakePayload
  pub was_decoded : env.handshake_payload.unmarshal payload ≡ decoded nhp
  pub key : P
  pub is_key : env.unmarshal_public_key nhp.identity_key ≡ some key
  pub is_remote : remote ≡ some key
  pub is_id : env.id_from_public_key key ≡ some id
  pub is_signed :
      env.verify key (payload_sig_prefix ++ env.peer_static after) nhp.identity_sig ≡ some true
  pub is_expected : (initiator ≡ false) ⊎ (id ≡ expected)

module _ {S K P : Type 0} (env : HandshakeEnv S K P) where
  set_if_given-Kept : (cs : Option (K × K)) (s : SecureSession K P) → Kept s (set_if_given cs s)
  unfolding set_cipher_states
  set_if_given-Kept none s = (refl, refl, refl)
  set_if_given-Kept (some (cs1, cs2)) s = elim (Bool-cases s.initiator) [
    | inl e ↦ rw (set_cipher_states, e) (refl, refl, refl)
    | inr e ↦ rw (set_cipher_states, e) (refl, refl, refl)
  ]

  set_if_given-incoming :
      (cs : Option (K × K)) (s : SecureSession K P)
      → (set_if_given cs s).reader.incoming ≡ s.reader.incoming
  unfolding set_cipher_states
  set_if_given-incoming none s = refl
  set_if_given-incoming (some (cs1, cs2)) s = elim (Bool-cases s.initiator) [
    | inl e ↦ rw (set_cipher_states, e) refl
    | inr e ↦ rw (set_cipher_states, e) refl
  ]

  -- The message that was sent; the remote side and what comes in are what they were.
  abbrev WasSent : S → Bytes → SecureSession K P → SecureSession K P → S → Type 0
  WasSent hs payload s s' hs' =
      Kept s s'
      × (s'.reader.incoming ≡ s.reader.incoming)
      × (bz : Bytes) × (keys : Option (K × K)) × (env.write_message hs payload
          ≡ some (hs', bz, keys))

  send_handshake_message-WasSent :
      (hs : S) (payload : Bytes) (s : SecureSession K P)
      → OnSuccess (WasSent hs payload s) (send_handshake_message env hs payload s)
  unfolding send_handshake_message
  send_handshake_message-WasSent hs payload s = elim (Option-cases (env.write_message hs payload)) [
    | inl e ↦ rw (send_handshake_message, e) tt
    | inr ((hs', bz, cs), e) ↦ elim (Option-cases (env.conn_error s.writer.sent)) [
      | inr (x, f) ↦ rw (send_handshake_message, e, f) tt
      | inl f ↦
          rw (send_handshake_message, e, f)
            (set_if_given-Kept cs _, set_if_given-incoming cs _, bz, cs, e)
    ]
  ]

  -- The message that was read, the first one that came in; the remote side is what it was.
  abbrev WasRead : S → SecureSession K P → SecureSession K P → S × Bytes → Type 0
  WasRead hs s s' r =
      Kept s s'
      × (msg : Bytes) × (keys : Option (K × K)) × (next_message s.reader.incoming
          ≡ some (msg, s'.reader.incoming))
      × (env.read_message hs msg ≡ some (r.0, r.1, keys))

  read_handshake_message-WasRead :
      (hs : S) (s : SecureSession K P) → OnSuccess (WasRead hs s) (read_handshake_message env hs s)
  unfolding read_handshake_message
  read_handshake_message-WasRead hs s = elim (Option-cases (next_message s.reader.incoming)) [
    | inl e ↦ rw (read_handshake_message, e) tt
    | inr ((buf, rest), e) ↦ elim (Option-cases (env.read_message hs buf)) [
      | inl f ↦ rw (read_handshake_message, e, f) tt
      | inr ((hs', msg, cs), f) ↦
          let s' = record s { reader = record s.reader { incoming = rest } } in
          rw (read_handshake_message, e, f)
            (
              set_if_given-Kept cs s',
              buf,
              cs,
              e ∙ ap (λ (i : Bytes). some (buf, i)) (sym (set_if_given-incoming cs s')),
              f,
            )
    ]
  ]

  -- A session that kept the role and what it expects knows the remote side, from a message and a state that
  -- satisfy a predicate.
  abbrev Proved : (S → Bytes → Type 0) → SecureSession K P → SecureSession K P → Type 0
  Proved At s s' =
      (before : S) × (msg : Bytes) × At before msg
      × IsAuthenticated env s.remote_id s.initiator s'.remote_id s'.remote_key before msg

  -- The next message that comes in, in a state.
  abbrev NextOf : S → SecureSession K P → S → Bytes → Type 0
  NextOf hs s before msg =
      (before ≡ hs) × (rest : Bytes) × (next_message s.reader.incoming ≡ some (msg, rest))

  no_mismatch :
      (initiator : Bool) (remote id : Bytes)
      → (initiator && not (same remote id)) ≡ false
      → (initiator ≡ false) ⊎ (id ≡ remote)
  no_mismatch false remote id h = inl refl
  no_mismatch true remote id h = inr (sym ((same_iff remote id).0 (ground (arith, h))))

  check_identity-Proved :
      (hs : S) (s s0 : SecureSession K P) (r : S × Bytes) (nhp : NoiseHandshakePayload) (key : P)
      (id : Bytes)
      → WasRead hs s0 s r
      → env.handshake_payload.unmarshal r.1 ≡ decoded nhp
      → env.unmarshal_public_key nhp.identity_key ≡ some key
      → env.id_from_public_key key ≡ some id
      → OnSuccess
          (λ s' _. Proved (NextOf hs s0) s0 s')
          (check_identity env key id nhp.identity_sig (env.peer_static r.0) s)
  unfolding check_identity
  check_identity-Proved hs s s0 r nhp key id (kept, msg, keys, next, read) d k i =
      elim (Bool-cases (s.initiator && not (same s.remote_id id))) [
        | inl e ↦ rw (check_identity, e) tt
        | inr e ↦
            elim (Option-cases
              (env.verify key (payload_sig_prefix ++ env.peer_static r.0) nhp.identity_sig)) [
                | inl f ↦ rw (check_identity, e, f) tt
                | inr (false, f) ↦ rw (check_identity, e, f) tt
                | inr (true, f) ↦
                    rw (check_identity, e, f)
                      (
                        hs,
                        msg,
                        (refl, s.reader.incoming, next),
                        record {
                          after = r.0;
                          payload = r.1;
                          keys = keys;
                          was_read = read;
                          nhp = nhp;
                          was_decoded = d;
                          key = key;
                          is_key = k;
                          is_remote = refl;
                          is_id = i;
                          is_signed = f;
                          is_expected = elim (no_mismatch s.initiator s.remote_id id e) [
                            | inl here ↦ inl (sym kept.0 ∙ here)
                            | inr there ↦ inr (there ∙ kept.1)
                          ];
                        },
                      )
              ]
      ]

  handle_payload-Proved :
      (hs : S) (s s0 : SecureSession K P) (r : S × Bytes)
      → WasRead hs s0 s r
      → OnSuccess
          (λ s' _. Proved (NextOf hs s0) s0 s')
          (handle_remote_handshake_payload env r.1 (env.peer_static r.0) s)
  unfolding handle_remote_handshake_payload
  handle_payload-Proved hs s s0 r was = elim (Decoded-cases (env.handshake_payload.unmarshal r.1)) [
    | inr (t, nhp, d) ↦ rw (handle_remote_handshake_payload, d) tt
    | inl (nhp, d) ↦ elim (Option-cases (env.unmarshal_public_key nhp.identity_key)) [
      | inl k ↦ rw (handle_remote_handshake_payload, d, k) tt
      | inr (key, k) ↦ elim (Option-cases (env.id_from_public_key key)) [
        | inl i ↦ rw (handle_remote_handshake_payload, d, k, i) tt
        | inr (id, i) ↦
            rw (handle_remote_handshake_payload, d, k, i)
              (check_identity-Proved hs s s0 r nhp key id was d k i)
      ]
    ]
  ]

  read_identity-Proved :
      (hs : S) (s : SecureSession K P)
      → OnSuccess (λ s' _. Proved (NextOf hs s) s s') (read_identity env hs s)
  unfolding read_identity
  read_identity-Proved hs s =
      and_then-OnSuccess (WasRead hs s) (λ s' _. Proved (NextOf hs s) s s') _
        (read_handshake_message env hs s) (read_handshake_message-WasRead hs s)
        λ s1 r was.
          and_then-OnSuccess (λ s' _. Proved (NextOf hs s) s s') (λ s' _. Proved (NextOf hs s) s s')
            _ (handle_remote_handshake_payload env r.1 (env.peer_static r.0) s1)
            (handle_payload-Proved hs s1 s r was) λ s2 _ proved. proved

  -- What is known before a step that keeps the remote side is known after it, and of a state and a message that
  -- satisfy another predicate.
  Proved-before :
      (At At' : S → Bytes → Type 0) (s s1 s2 : SecureSession K P)
      → Kept s s1
      → ((before : S) (msg : Bytes) → At before msg → At' before msg)
      → Proved At s1 s2
      → Proved At' s s2
  Proved-before At At' s s1 s2 (i, id, _) further (before, msg, at, proved) =
      rw (← i, ← id) (before, msg, further before msg at, proved)

  Proved-after :
      (At : S → Bytes → Type 0) (s s1 s2 : SecureSession K P)
      → Proved At s s1
      → Kept s1 s2
      → Proved At s s2
  Proved-after At s s1 s2 proved (_, id, key) = rw (id, key) proved

  initiate-Proved :
      (hs : S) (payload : Bytes) (s : SecureSession K P)
      → OnSuccess
          (λ s' _. Proved (StageAt env true hs payload s.reader.incoming) s s')
          (initiate env hs payload s)
  unfolding initiate
  initiate-Proved hs payload s =
      let At = StageAt env true hs payload s.reader.incoming in
      and_then-OnSuccess (WasSent hs [] s) (λ s' _. Proved At s s') _
        (send_handshake_message env hs [] s) (send_handshake_message-WasSent hs [] s)
        λ s1 hs1 (kept, same_in, bz, keys, sent).
          and_then-OnSuccess (λ s' _. Proved (NextOf hs1 s1) s1 s') (λ s' _. Proved At s s') _
            (read_identity env hs1 s1) (read_identity-Proved hs1 s1)
            λ s2 hs2 proved.
              and_then-OnSuccess (WasSent hs2 payload s2) (λ s' _. Proved At s s') _
                (send_handshake_message env hs2 payload s2)
                (send_handshake_message-WasSent hs2 payload s2)
                λ s3 _ (kept', _, _, _, _).
                  Proved-after At s s2 s3
                    (Proved-before (NextOf hs1 s1) At s s1 s2 kept
                      (λ before msg (here, rest, next).
                        (bz, keys, rest, rw here sent, ap next_message (sym same_in) ∙ next))
                      proved)
                    kept'

  respond-Proved :
      (hs : S) (payload : Bytes) (s : SecureSession K P)
      → OnSuccess
          (λ s' _. Proved (StageAt env false hs payload s.reader.incoming) s s')
          (respond env hs payload s)
  unfolding respond
  respond-Proved hs payload s =
      let At = StageAt env false hs payload s.reader.incoming in
      and_then-OnSuccess (WasRead hs s) (λ s' _. Proved At s s') _ (read_handshake_message env hs s)
        (read_handshake_message-WasRead hs s)
        λ s1 r (kept, first, keys, next, read).
          and_then-OnSuccess (WasSent r.0 payload s1) (λ s' _. Proved At s s') _
            (send_handshake_message env r.0 payload s1)
            (send_handshake_message-WasSent r.0 payload s1)
            λ s2 hs2 (kept', same_in, second, keys', sent).
              and_then-OnSuccess (λ s' _. Proved (NextOf hs2 s2) s2 s') (λ s' _. Proved At s s') _
                (read_identity env hs2 s2) (read_identity-Proved hs2 s2)
                λ s3 _ proved.
                  Proved-before At At s s1 s3 kept (λ _ _ at. at)
                    (Proved-before (NextOf hs2 s2) At s1 s2 s3 kept'
                      (λ before msg (here, rest, next'). (
                        first,
                        s1.reader.incoming,
                        r.0,
                        r.1,
                        keys,
                        second,
                        keys',
                        rest,
                        next,
                        read,
                        rw here sent,
                        ap next_message (sym same_in) ∙ next',
                      ))
                      proved)

  stages-Proved :
      (initiator : Bool) (hs : S) (payload : Bytes) (s : SecureSession K P)
      → OnSuccess
          (λ s' _. Proved (StageAt env initiator hs payload s.reader.incoming) s s')
          (if initiator then initiate env hs payload s else respond env hs payload s)
  stages-Proved true = initiate-Proved
  stages-Proved false = respond-Proved

  -- From the stages to the handshake that they belong to.
  OnSuccess-further :
      (At At' : S → Bytes → Type 0) (s : SecureSession K P)
      (r : SecureSession K P × (Unit {0} ⊎ HandshakeError))
      → ((before : S) (msg : Bytes) → At before msg → At' before msg)
      → OnSuccess (λ s' _. Proved At s s') r
      → OnSuccess (λ s' _. Proved At' s s') r
  OnSuccess-further At At' s (s', inl _) further (before, msg, at, proved) =
      (before, msg, further before msg at, proved)
  OnSuccess-further At At' s (s', inr e) further _ = tt

  pub run_handshake-stages :
      (s : SecureSession K P) (kp : Bytes × Bytes) (hs : S) (payload : Bytes)
      → env.generate_keypair ≡ some kp
      → env.new_handshake_state s.initiator kp ≡ some hs
      → generate_handshake_payload env kp.1 ≡ inl payload
      → run_handshake env s
        ≡ (if s.initiator then initiate env hs payload s else respond env hs payload s)
  unfolding run_handshake
  run_handshake-stages s kp hs payload e f g = rw (run_handshake, e, f, g) refl

  run_handshake-Proved :
      (s : SecureSession K P)
      → OnSuccess
          (λ s' _. Proved (Reached env s.initiator s.reader.incoming) s s')
          (run_handshake env s)
  unfolding run_handshake
  run_handshake-Proved s = elim (Option-cases env.generate_keypair) [
    | inl e ↦ rw (run_handshake, e) tt
    | inr (kp, e) ↦ elim (Option-cases (env.new_handshake_state s.initiator kp)) [
      | inl f ↦ rw (run_handshake, e, f) tt
      | inr (hs, f) ↦ elim (payload_cases (generate_handshake_payload env kp.1)) [
        | inr (x, g) ↦ rw (run_handshake, e, f, g) tt
        | inl (payload, g) ↦
            let At = Reached env s.initiator s.reader.incoming in
            subst (OnSuccess (λ s' _. Proved At s s'))
              (sym (run_handshake-stages s kp hs payload e f g))
              (OnSuccess-further (StageAt env s.initiator hs payload s.reader.incoming) At s
                (if s.initiator then initiate env hs payload s else respond env hs payload s)
                (λ before msg at. (kp, hs, payload, e, f, g, at))
                (stages-Proved s.initiator hs payload s))
      ]
    ]
  ]

  returned-IsAuthenticated :
      (s : SecureSession K P) (r : SecureSession K P × (Unit {0} ⊎ HandshakeError))
      → OnSuccess (λ s' _. Proved (Reached env s.initiator s.reader.incoming) s s') r
      → let r' : SecureSession K P × Returned = elim r.1 [
        | inl _ ↦ (r.0, established)
        | inr e ↦ (record r.0 { closed = true }, failed e)
      ] in
        ((r'.1 ≡ established)
          × (before : S) × (msg : Bytes) × Reached env s.initiator s.reader.incoming before msg
          × IsAuthenticated env s.remote_id s.initiator r'.0.remote_id r'.0.remote_key before msg)
        ⊎ ((r'.1 ≢ established) × (r'.0.closed ≡ true))
  returned-IsAuthenticated s (s', inl _) (before, msg, at, proved) =
      inl (refl, before, msg, at, proved)
  returned-IsAuthenticated s (s', inr e) proved = inr (λ f. cc, refl)

  -- Whatever the connection gives and the libraries answer, NewSecureSession returns a session
  -- without an error only if the session's remote key came, with a signature that verifies by
  -- this key of the noise key that the handshake has for the other side, in the payload that the
  -- noise library gave for one message: for the caller the first message of the connection, read
  -- in the state after its own first message was written in a fresh state, and for the answer the
  -- second message of the connection, read in the state after the first message was read in a
  -- fresh state and its own message, with its own payload, was written; and only if the remote id
  -- is the key's id and, for the caller, this id is the expected one; in every other case the
  -- connection is closed.
  pub new_secure_session-IsAuthenticated :
      (is_done : Bool) (s : SecureSession K P)
      → let r = new_secure_session env is_done s in
        ((r.1 ≡ established)
          × (before : S) × (msg : Bytes) × Reached env s.initiator s.reader.incoming before msg
          × IsAuthenticated env s.remote_id s.initiator r.0.remote_id r.0.remote_key before msg)
        ⊎ ((r.1 ≢ established) × (r.0.closed ≡ true))
  unfolding new_secure_session
  new_secure_session-IsAuthenticated true s = inr (λ e. cc, refl)
  new_secure_session-IsAuthenticated false s =
      returned-IsAuthenticated s (run_handshake env s) (run_handshake-Proved s)
