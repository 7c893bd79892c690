-- ===== src/Secure/Handshake/Channel.antt =====
-- secure/handshake.go and rw.go together: the data that the sides write after the handshake.
use white_noise.Prelude.{
  ℕ, ◌+◌, ◌*◌, ◌<◌, ◌≡◌, ap, ◌∙◌, true, false, Bool, ◌⊎◌, Option, none, some, [], ◌∷◌, ◌++◌, Bytes,
  length,
}
use mathlib.Core.List.{append_assoc}
use white_noise.Secure.Framing.{write}
use white_noise.Secure.Framing.Wire.{IsCipher}
use white_noise.Secure.Framing.Delivery.{collect, write_after}
use white_noise.Secure.Handshake.{
  HandshakeEnv, HandshakeError, SecureSession, framed, run_handshake, fresh_session,
}
use white_noise.Secure.Handshake.Agreement.{IsIdentified, IsExchange, run_handshake-agrees}

module _ {S K P : Type 0} {encrypt : K → Bytes → K × Bytes}
    {decrypt : K → Bytes → Option (K × Bytes)} (cipher : IsCipher encrypt decrypt) where
  -- What is read after a handshake on a connection that gives `sent`.
  reads_back :
      (env : HandshakeEnv S K P) (id : Bytes) (initiator : Bool) (n : ℕ) (sent incoming out : Bytes)
      (after : SecureSession K P) (done : Unit {0} ⊎ HandshakeError)
      → sent ≡ incoming
      → run_handshake env (fresh_session incoming id initiator) ≡ (after, done)
      → collect decrypt (2 * length out + 1) n (length out) after.reader ≡ some out
      → collect decrypt
          (2 * length out + 1)
          n
          (length out)
          (run_handshake env (fresh_session sent id initiator)).0.reader
        ≡ some out
  reads_back env id initiator n sent incoming out after done e run back =
      ap
        (λ i.
          collect decrypt (2 * length out + 1) n (length out)
            (run_handshake env (fresh_session i id initiator)).0.reader)
        e
      ∙ ap (λ r. collect decrypt (2 * length out + 1) n (length out) r.0.reader) run
      ∙ back

  -- After the handshake of two honest sides, what each of them writes, if it is not empty, the
  -- other one reads exactly, when it runs its handshake on the very bytes that the first one
  -- sent, the messages of the handshake and then the data: whatever the size of the buffers, for
  -- a noise library that does the three messages of the pattern XX for these keys and payloads in
  -- less than 65536 bytes each, identities that the key library accepts, a cipher with a tag of
  -- 16 bytes whose two ends come in step, and connections that take their writes.
  pub collect-write-run_handshake :
      (a b : HandshakeEnv S K P) (key_a key_b : Bytes × Bytes)
      (payload_a payload_b m1 m2 m3 id_a id_b : Bytes) (c1 c2 : K) (public_a public_b : P)
      (rest_a rest_b : Bytes)
      → IsExchange a b key_a key_b payload_a payload_b m1 m2 m3 c1 c2
      → IsIdentified a b key_a.1 payload_a id_a public_a
      → IsIdentified b a key_b.1 payload_b id_b public_b
      → ((sent : Bytes) → a.conn_error sent ≡ none)
      → ((sent : Bytes) → b.conn_error sent ≡ none)
      → (n x y : ℕ) (xs ys : Bytes) → 0 < n
      → let a' = (run_handshake a (fresh_session (framed m2 ++ rest_a) id_b true)).0 in
        let b' =
          (run_handshake b (fresh_session (framed m1 ++ (framed m3 ++ rest_b)) [] false)).0 in
        let from_a = write encrypt a.conn_error (x ∷ xs) a'.writer in
        let from_b = write encrypt b.conn_error (y ∷ ys) b'.writer in
        (collect decrypt
            (2 * length (x ∷ xs) + 1)
            n
            (length (x ∷ xs))
            (run_handshake b (fresh_session from_a.0.sent [] false)).0.reader
          ≡ some (x ∷ xs))
        × (collect decrypt
              (2 * length (y ∷ ys) + 1)
              n
              (length (y ∷ ys))
              (run_handshake a (fresh_session from_b.0.sent id_b true)).0.reader
            ≡ some (y ∷ ys))
  collect-write-run_handshake a b key_a key_b payload_a payload_b m1 m2 m3 id_a id_b c1 c2 public_a
        public_b rest_a rest_b exchange who_a who_b healthy_a healthy_b n x y xs ys positive =
      let agrees =
        run_handshake-agrees a b key_a key_b payload_a payload_b m1 m2 m3 id_a id_b c1 c2 public_a
          public_b in
      let ends = agrees rest_a rest_b exchange who_a who_b healthy_a healthy_b in
      let (_, _, wire_a, sent_a, back_a) =
        write_after cipher a.conn_error healthy_a n c1 x xs (framed m1 ++ framed m3) positive in
      let (_, _, wire_b, sent_b, back_b) =
        write_after cipher b.conn_error healthy_b n c2 y ys (framed m2) positive in
      (
        reads_back b [] false n _ _ (x ∷ xs) _ _
            (ap (λ r. (write encrypt a.conn_error (x ∷ xs) r.0.writer).0.sent) ends.0
              ∙ sent_a
              ∙ append_assoc (framed m1) (framed m3) wire_a)
            ((agrees rest_a wire_a exchange who_a who_b healthy_a healthy_b).1) back_a,
        reads_back a id_b true n _ _ (y ∷ ys) _ _
            (ap (λ r. (write encrypt b.conn_error (y ∷ ys) r.0.writer).0.sent) ends.1 ∙ sent_b)
            ((agrees wire_b rest_b exchange who_a who_b healthy_a healthy_b).0) back_b,
      )
