-- ===== src/Secure/Handshake.antt =====
-- secure/handshake.go and session.go: the handshake of a SecureSession in the pattern XX of the noise
-- library, in which both sides sign their noise key with the key of their identity. The noise library, the
-- key library and the random numbers are parameters.
pub mod Authentication
pub mod Agreement
pub mod Channel
use white_noise.Prelude.{
  ℕ, ◌%◌, ◌⊎◌, inl, inr, Bool, true, false, not, ◌&&◌, Option, none, some, List, [], ◌∷◌, ◌++◌,
  Bytes, codes, same, length, if◌then◌else◌,
}
use white_noise.Errors.{Error}
use white_noise.Wire.{Codec, decoded, malformed}
use white_noise.Secure.Words.{put_uint16}
use white_noise.Secure.Payload.{read_full}
use white_noise.Secure.Framing.{Writer, Reader, length_prefix}

-- The errors that the functions return, each by its text; the cause at a text's end is left out.
pub data HandshakeError : Type 0 where
  static_keypair handshake_state sending reading : HandshakeError  -- runHandshake
  identity_key signing marshaling : HandshakeError  -- generateHandshakePayload
  unmarshaling remote_key remote_id mismatch verifying invalid : HandshakeError  -- handleRemoteHandshakePayload

-- pb.NoiseHandshakePayload
pub record NoiseHandshakePayload : Type 0 where
  pub identity_key : Bytes
  pub identity_sig : Bytes
  pub payload : Bytes

-- SecureSession: its halves, and whether its insecure connection was closed. `K` is a cipher state, `P` a
-- public key.
pub record SecureSession (K P : Type 0) : Type 0 where
  pub initiator : Bool
  pub remote_id : Bytes
  pub remote_key : Option P
  pub writer : Writer K
  pub reader : Reader K
  pub closed : Bool

-- What a side has from the libraries: `S` is a noise.HandshakeState, which a call changes.
pub record HandshakeEnv (S K P : Type 0) : Type 0 where
  pub generate_keypair : Option (Bytes × Bytes)  -- the private and the public key
  pub new_handshake_state : Bool → Bytes × Bytes → Option S
  pub write_message : S → Bytes → Option (S × Bytes × Option (K × K))
  pub read_message : S → Bytes → Option (S × Bytes × Option (K × K))
  pub peer_static : S → Bytes
  pub local_public_key : Option Bytes  -- LocalPublicKey().Bytes()
  pub sign : Bytes → Option Bytes  -- with the local key
  pub unmarshal_public_key : Bytes → Option P
  pub id_from_public_key : P → Option Bytes
  pub verify : P → Bytes → Bytes → Option Bool
  pub handshake_payload : Codec NoiseHandshakePayload
  pub conn_error : Bytes → Option Error  -- of a write on the insecure connection

-- payloadSigPrefix
abbrev pub payload_sig_prefix : Bytes
payload_sig_prefix = codes "noise-libp2p-static-key:"

-- What NewSecureSession returns: the session, the session with an error, or the context's error alone.
pub data Returned : Type 0 where
  established cancelled : Returned
  failed : HandshakeError → Returned

-- A message of the handshake behind its length.
abbrev pub framed : Bytes → Bytes
framed bz = put_uint16 (length bz % 65536) ++ bz

-- readNextInsecureMsgLen and readNextMsgInsecure: the next message, or `none` for the error.
abbrev pub next_message : Bytes → Option (Bytes × Bytes)
next_message incoming = elim (read_full 2 incoming) [
  | none ↦ none
  | some (head, rest) ↦ read_full (length_prefix head) rest
]

-- A step that changes the session, and gives a value or an error.
abbrev pub Step : Type 0 → Type 0 → Type 0 → Type 0
Step K P A = SecureSession K P → SecureSession K P × (A ⊎ HandshakeError)

module _ {K P : Type 0} where
  abbrev pub and_then :
      {A B : Type 0}
      → SecureSession K P × (A ⊎ HandshakeError)
      → (A → Step K P B)
      → SecureSession K P × (B ⊎ HandshakeError)
  and_then (s, inr e) f = (s, inr e)
  and_then (s, inl a) f = f a s

  infixl 5 ◌>>=◌
  abbrev pub ◌>>=◌ : {A B : Type 0} → Step K P A → (A → Step K P B) → Step K P B
  (m >>= f) s = and_then (m s) f

  -- setCipherStates
  unfoldable pub set_cipher_states : K → K → SecureSession K P → SecureSession K P
  set_cipher_states cs1 cs2 s =
      if s.initiator
      then record s {
        writer = record s.writer { enc = some cs1 };
        reader = record s.reader { dec = some cs2 };
      }
      else record s {
        writer = record s.writer { enc = some cs2 };
        reader = record s.reader { dec = some cs1 };
      }

  -- Where the noise library gave the cipher states, they are set.
  abbrev pub set_if_given : Option (K × K) → SecureSession K P → SecureSession K P
  set_if_given none s = s
  set_if_given (some (cs1, cs2)) s = set_cipher_states cs1 cs2 s

  -- What NewSecureSession makes of a new session: the caller knows the id of the other side.
  unfoldable pub fresh_session : Bytes → Bytes → Bool → SecureSession K P
  fresh_session incoming remote initiator = record {
    initiator = initiator;
    remote_id = remote;
    remote_key = none;
    writer = record { enc = none; sent = [] };
    reader = record { dec = none; qbuf = none; qseek = 0; incoming = incoming };
    closed = false;
  }

module _ {S K P : Type 0} (env : HandshakeEnv S K P) where
  -- sendHandshakeMessage: the state of the handshake after it.
  unfoldable pub send_handshake_message : S → Bytes → Step K P S
  unfolding set_cipher_states
  send_handshake_message hs payload s = elim (env.write_message hs payload) [
    | none ↦ (s, inr sending)
    | some (hs', bz, cs) ↦ elim (env.conn_error s.writer.sent) [
      | some _ ↦ (s, inr sending)
      | none ↦
          let s' = record s { writer = record s.writer { sent = s.writer.sent ++ framed bz } } in
          (set_if_given cs s', inl hs')
    ]
  ]

  -- readHandshakeMessage: the state of the handshake after it, and the payload.
  unfoldable pub read_handshake_message : S → Step K P (S × Bytes)
  unfolding set_cipher_states
  read_handshake_message hs s = elim (next_message s.reader.incoming) [
    | none ↦ (record s { reader = record s.reader { incoming = [] } }, inr reading)
    | some (buf, rest) ↦
        let s' = record s { reader = record s.reader { incoming = rest } } in
        elim (env.read_message hs buf) [
          | none ↦ (s', inr reading)
          | some (hs', msg, cs) ↦ (set_if_given cs s', inl (hs', msg))
        ]
  ]

  -- generateHandshakePayload, for the public part of the noise key
  unfoldable pub generate_handshake_payload : Bytes → Bytes ⊎ HandshakeError
  generate_handshake_payload local_static = elim env.local_public_key [
    | none ↦ inr identity_key
    | some local_key_raw ↦ elim (env.sign (payload_sig_prefix ++ local_static)) [
      | none ↦ inr signing
      | some signed_payload ↦
          elim (env.handshake_payload.marshal (record {
            identity_key = local_key_raw;
            identity_sig = signed_payload;
            payload = [];
          })) [ none ↦ inr marshaling | some payload_enc ↦ inl payload_enc ]
    ]
  ]

  -- handleRemoteHandshakePayload, from the remote key and its id on
  unfoldable pub check_identity : P → Bytes → Bytes → Bytes → Step K P (Unit {0})
  check_identity key id sig remote_static s =
      if s.initiator && not (same s.remote_id id)
      then (s, inr mismatch)
      else elim (env.verify key (payload_sig_prefix ++ remote_static) sig) [
        | none ↦ (s, inr verifying)
        | some ok ↦
            if ok
            then (record s { remote_id = id; remote_key = some key }, inl tt)
            else (s, inr invalid)
      ]

  -- handleRemoteHandshakePayload
  unfoldable pub handle_remote_handshake_payload : Bytes → Bytes → Step K P (Unit {0})
  unfolding check_identity
  handle_remote_handshake_payload payload remote_static s =
      elim (env.handshake_payload.unmarshal payload) [
        | malformed _ _ ↦ (s, inr unmarshaling)
        | decoded nhp ↦ elim (env.unmarshal_public_key nhp.identity_key) [
          | none ↦ (s, inr remote_key)
          | some key ↦ elim (env.id_from_public_key key) [
            | none ↦ (s, inr remote_id)
            | some id ↦ check_identity key id nhp.identity_sig remote_static s
          ]
        ]
      ]

  -- A message is read and its payload handled.
  unfoldable pub read_identity : S → Step K P S
  unfolding read_handshake_message handle_remote_handshake_payload
  read_identity hs = read_handshake_message hs >>= λ r.
      handle_remote_handshake_payload r.1 (env.peer_static r.0) >>= λ _ s. (s, inl r.0)

  -- The stages of the caller.
  unfoldable pub initiate : S → Bytes → Step K P (Unit {0})
  unfolding send_handshake_message read_identity
  initiate hs payload = send_handshake_message hs [] >>= λ hs1.
      read_identity hs1 >>= λ hs2. send_handshake_message hs2 payload >>= λ _ s. (s, inl tt)

  -- The stages of the answer.
  unfoldable pub respond : S → Bytes → Step K P (Unit {0})
  unfolding send_handshake_message read_handshake_message read_identity
  respond hs payload = read_handshake_message hs >>= λ r.
      send_handshake_message r.0 payload >>= λ hs2. read_identity hs2 >>= λ _ s. (s, inl tt)

  -- runHandshake
  unfoldable pub run_handshake : Step K P (Unit {0})
  unfolding generate_handshake_payload initiate respond
  run_handshake s = elim env.generate_keypair [
    | none ↦ (s, inr static_keypair)
    | some kp ↦ elim (env.new_handshake_state s.initiator kp) [
      | none ↦ (s, inr handshake_state)
      | some hs ↦ elim (generate_handshake_payload kp.1) [
        | inr e ↦ (s, inr e)
        | inl payload ↦ if s.initiator then initiate hs payload s else respond hs payload s
      ]
    ]
  ]

  -- NewSecureSession, from the new session on. The context may end before the handshake does; the
  -- code waits for the handshake then, too.
  unfoldable pub new_secure_session : Bool → SecureSession K P → SecureSession K P × Returned
  unfolding run_handshake
  new_secure_session is_done s =
      let (s', r) = run_handshake s in
      if is_done
      then (record s' { closed = true }, cancelled)
      else elim r [ inl _ ↦ (s', established) | inr e ↦ (record s' { closed = true }, failed e) ]
