-- ===== src/Secure/Handshake/Agreement.antt =====
-- secure/handshake.go: the handshake of two honest sides, and the channel that they have after it.
use white_noise.Prelude.{
  ◌%◌, not, ◌&&◌, same, ◌≡◌, ◌<◌, refl, ◌∙◌, inl, Bool, true, false, Option, none, some, [], ◌++◌,
  Bytes, length, same_refl, arith,
}
use white_noise.Wire.{decoded}
use white_noise.Secure.Words.{put_uint16}
use white_noise.Secure.Payload.{read_full-append}
use white_noise.Secure.Framing.{length_prefix}
use white_noise.Secure.Handshake.{
  SecureSession, HandshakeEnv, payload_sig_prefix, framed, set_cipher_states, set_if_given,
  send_handshake_message, next_message, read_handshake_message, generate_handshake_payload,
  check_identity, handle_remote_handshake_payload, read_identity, initiate, respond, run_handshake,
  fresh_session,
}
use white_noise.Secure.Handshake.Authentication.{run_handshake-stages}

has_next :
    (msg rest : Bytes) → length msg < 65536 → next_message (framed msg ++ rest) ≡ some (msg, rest)
has_next msg rest short =
    rw (next_message, read_full-append 2 (put_uint16 (length msg % 65536)) (msg ++ rest) refl)
      (read_full-append (length_prefix (put_uint16 (length msg % 65536))) msg rest (omega arith))

-- The two sessions when the handshake is over: each knows the other side, and each one's sending state is
-- the other one's receiving state.
abbrev pub session_after :
    {K P : Type 0} → Bool → Bytes → P → K → K → Bytes → Bytes → SecureSession K P
session_after initiator id key enc dec sent incoming = record {
  initiator = initiator;
  remote_id = id;
  remote_key = some key;
  writer = record { enc = some enc; sent = sent };
  reader = record { dec = some dec; qbuf = none; qseek = 0; incoming = incoming };
  closed = false;
}

module _ {S K P : Type 0} where
  -- What one side says of its identity, in the payload of its noise key, and what the other side makes of it:
  -- the key and the id that belong to the identity.
  pub record IsIdentified (self other : HandshakeEnv S K P) (static payload id : Bytes) (key : P)
      : Type 0 where
    pub raw : Bytes
    pub sig : Bytes
    pub has_key : self.local_public_key ≡ some raw
    pub signs : self.sign (payload_sig_prefix ++ static) ≡ some sig
    pub marshals :
        self.handshake_payload.marshal
          (record { identity_key = raw; identity_sig = sig; payload = [] })
        ≡ some payload
    pub unmarshals :
        other.handshake_payload.unmarshal payload
        ≡ decoded (record { identity_key = raw; identity_sig = sig; payload = [] })
    pub is_key : other.unmarshal_public_key raw ≡ some key
    pub is_id : other.id_from_public_key key ≡ some id
    pub verifies : other.verify key (payload_sig_prefix ++ static) sig ≡ some true

  -- The pattern XX of the noise library for the keys of both sides and their payloads: its three messages are
  -- read as they were written, both sides then have the same two cipher states, and each knows the
  -- other's noise key.
  pub record IsExchange (a b : HandshakeEnv S K P) (key_a key_b : Bytes × Bytes)
      (payload_a payload_b m1 m2 m3 : Bytes) (c1 c2 : K) : Type 0 where
    pub a0 : S
    pub a1 : S
    pub a2 : S
    pub a3 : S
    pub b0 : S
    pub b1 : S
    pub b2 : S
    pub b3 : S
    pub a_key : a.generate_keypair ≡ some key_a
    pub b_key : b.generate_keypair ≡ some key_b
    pub a_starts : a.new_handshake_state true key_a ≡ some a0
    pub b_starts : b.new_handshake_state false key_b ≡ some b0
    pub a_writes : a.write_message a0 [] ≡ some (a1, m1, none)
    pub b_reads : b.read_message b0 m1 ≡ some (b1, [], none)
    pub b_writes : b.write_message b1 payload_b ≡ some (b2, m2, none)
    pub a_reads : a.read_message a1 m2 ≡ some (a2, payload_b, none)
    pub a_writes_last : a.write_message a2 payload_a ≡ some (a3, m3, some (c1, c2))
    pub b_reads_last : b.read_message b2 m3 ≡ some (b3, payload_a, some (c1, c2))
    pub a_static : a.peer_static a2 ≡ key_b.1
    pub b_static : b.peer_static b3 ≡ key_a.1
    pub m1_short : length m1 < 65536
    pub m2_short : length m2 < 65536
    pub m3_short : length m3 < 65536

  module _ (env : HandshakeEnv S K P) (healthy : (sent : Bytes) → env.conn_error sent ≡ none) where
    sends :
        (hs hs' : S) (payload bz : Bytes) (cs : Option (K × K)) (s : SecureSession K P)
        → env.write_message hs payload ≡ some (hs', bz, cs)
        → send_handshake_message env hs payload s ≡ (
          set_if_given cs
              (record s { writer = record s.writer { sent = s.writer.sent ++ framed bz } }),
          inl hs',
        )
    unfolding send_handshake_message
    sends hs hs' payload bz cs s e = rw (send_handshake_message, e, healthy s.writer.sent) refl

  module _ (env : HandshakeEnv S K P) where
    reads :
        (hs hs' : S) (msg rest payload : Bytes) (cs : Option (K × K)) (s : SecureSession K P)
        → s.reader.incoming ≡ framed msg ++ rest
        → length msg < 65536
        → env.read_message hs msg ≡ some (hs', payload, cs)
        → read_handshake_message env hs s ≡ (
          set_if_given cs (record s { reader = record s.reader { incoming = rest } }),
          inl (hs', payload),
        )
    unfolding read_handshake_message
    reads hs hs' msg rest payload cs s i short e =
        rw (read_handshake_message, i, has_next msg rest short, e) refl

    generates :
        (other : HandshakeEnv S K P) (static payload id : Bytes) (key : P)
        → IsIdentified env other static payload id key
        → generate_handshake_payload env static ≡ inl payload
    unfolding generate_handshake_payload
    generates other static payload id key who =
        rw (generate_handshake_payload, who.has_key, who.signs, who.marshals) refl

    identifies :
        (other : HandshakeEnv S K P) (static payload id : Bytes) (key : P) (hs : S)
        (s : SecureSession K P)
        → IsIdentified other env static payload id key
        → env.peer_static hs ≡ static
        → (s.initiator && not (same s.remote_id id)) ≡ false
        → handle_remote_handshake_payload env payload (env.peer_static hs) s
          ≡ (record s { remote_id = id; remote_key = some key }, inl tt)
    unfolding handle_remote_handshake_payload check_identity
    identifies other static payload id key hs s who is_static guard =
        rw
          (
            handle_remote_handshake_payload, who.unmarshals, who.is_key, who.is_id, check_identity,
            guard, is_static, who.verifies,
          )
          refl

    reads_identity :
        (hs hs' : S) (payload : Bytes) (s s1 s2 : SecureSession K P)
        → read_handshake_message env hs s ≡ (s1, inl (hs', payload))
        → handle_remote_handshake_payload env payload (env.peer_static hs') s1 ≡ (s2, inl tt)
        → read_identity env hs s ≡ (s2, inl hs')
    unfolding read_identity
    reads_identity hs hs' payload s s1 s2 e1 e2 = rw (read_identity, e1, e2) refl

    initiates :
        (hs hs1 hs2 hs3 : S) (payload : Bytes) (s s1 s2 s3 : SecureSession K P)
        → send_handshake_message env hs [] s ≡ (s1, inl hs1)
        → read_identity env hs1 s1 ≡ (s2, inl hs2)
        → send_handshake_message env hs2 payload s2 ≡ (s3, inl hs3)
        → initiate env hs payload s ≡ (s3, inl tt)
    unfolding initiate
    initiates hs hs1 hs2 hs3 payload s s1 s2 s3 e1 e2 e3 = rw (initiate, e1, e2, e3) refl

    responds :
        (hs hs1 hs2 hs3 : S) (payload read : Bytes) (s s1 s2 s3 : SecureSession K P)
        → read_handshake_message env hs s ≡ (s1, inl (hs1, read))
        → send_handshake_message env hs1 payload s1 ≡ (s2, inl hs2)
        → read_identity env hs2 s2 ≡ (s3, inl hs3)
        → respond env hs payload s ≡ (s3, inl tt)
    unfolding respond
    responds hs hs1 hs2 hs3 payload read s s1 s2 s3 e1 e2 e3 = rw (respond, e1, e2, e3) refl

  -- The handshakes of two honest sides, each on the bytes that the other one sends and whatever
  -- comes after them, both succeed: each side then knows the other one's key and id, one's
  -- sending cipher state is the other's receiving one, each sent just its messages, and what came
  -- after them is left to be read, for a noise library that does the three messages of the
  -- pattern XX in less than 65536 bytes each, identities that the key library accepts and
  -- connections that take their writes.
  pub run_handshake-agrees :
      (a b : HandshakeEnv S K P) (key_a key_b : Bytes × Bytes)
      (payload_a payload_b m1 m2 m3 id_a id_b : Bytes) (c1 c2 : K) (public_a public_b : P)
      (rest_a rest_b : Bytes)
      → IsExchange a b key_a key_b payload_a payload_b m1 m2 m3 c1 c2
      → IsIdentified a b key_a.1 payload_a id_a public_a
      → IsIdentified b a key_b.1 payload_b id_b public_b
      → ((sent : Bytes) → a.conn_error sent ≡ none)
      → ((sent : Bytes) → b.conn_error sent ≡ none)
      → (run_handshake a (fresh_session (framed m2 ++ rest_a) id_b true)
          ≡ (session_after true id_b public_b c1 c2 (framed m1 ++ framed m3) rest_a, inl tt))
        × (run_handshake b (fresh_session (framed m1 ++ (framed m3 ++ rest_b)) [] false)
            ≡ (session_after false id_a public_a c2 c1 (framed m2) rest_b, inl tt))
  unfolding fresh_session set_cipher_states
  run_handshake-agrees a b key_a key_b payload_a payload_b m1 m2 m3 id_a id_b c1 c2 public_a
        public_b rest_a rest_b x who_a who_b healthy_a healthy_b =
      (
        run_handshake-stages a (fresh_session (framed m2 ++ rest_a) id_b true) key_a x.a0 payload_a
              x.a_key x.a_starts (generates a b key_a.1 payload_a id_a public_a who_a)
            ∙ initiates a x.a0 x.a1 x.a2 x.a3 payload_a _ _ _ _
                (sends a healthy_a x.a0 x.a1 [] m1 none _ x.a_writes)
                (reads_identity a x.a1 x.a2 payload_b _ _ _
                  (reads a x.a1 x.a2 m2 rest_a payload_b none _ refl x.m2_short x.a_reads)
                  (identifies a b key_b.1 payload_b id_b public_b x.a2 _ who_b x.a_static
                    (rw (same_refl id_b) refl)))
                (sends a healthy_a x.a2 x.a3 payload_a m3 (some (c1, c2)) _ x.a_writes_last),
        run_handshake-stages b (fresh_session (framed m1 ++ (framed m3 ++ rest_b)) [] false) key_b
              x.b0 payload_b x.b_key x.b_starts
              (generates b a key_b.1 payload_b id_b public_b who_b)
            ∙ responds b x.b0 x.b1 x.b2 x.b3 payload_b [] _ _ _ _
                (reads b x.b0 x.b1 m1 (framed m3 ++ rest_b) [] none _ refl x.m1_short x.b_reads)
                (sends b healthy_b x.b1 x.b2 payload_b m2 none _ x.b_writes)
                (reads_identity b x.b2 x.b3 payload_a _ _ _
                  (reads b x.b2 x.b3 m3 rest_b payload_a (some (c1, c2)) _ refl x.m3_short
                    x.b_reads_last)
                  (identifies b a key_a.1 payload_a id_a public_a x.b3 _ who_a x.b_static refl)),
      )
