-- ===== src/Proxy/Negotiation.antt =====
-- protocol/proxy: the negotiation message between caller and destination. What the caller encrypts for
-- a session's destination the destination decrypts.
use white_noise.Prelude.{ℕ, ◌≡◌, refl, some, Bytes}
use white_noise.Errors.{ok}
use white_noise.SyncMap.{load}
use white_noise.Wire.{decoded, IsLossless}
use white_noise.Id
use white_noise.Proxy.State.{Request, Negotiate, ProxyEnv, Manager}
use white_noise.Proxy.Gossip.{handle_encrypt, handle_decrypt}

-- The caller's answer to a proxy's NegPlainText request is a cyphertext, and the destination's
-- answer to a DecryptGossip request with it is the negotiation's bytes, which are read as the
-- negotiation, when the caller has a circuit task for the session, the task's id has a key that
-- it can encrypt the bytes to, the destination decrypts what is encrypted to that key, and the
-- messages were marshalled by codecs that lose nothing.
pub handle_decrypt-handle_encrypt :
    (caller destination : ProxyEnv) (m : Manager) (neg : Negotiate) (id cypher : Bytes)
    (key : ℕ × Bytes) (plain asked wanted : Bytes) (des : Bytes) (req req' : Request)
    → IsLossless caller.codecs.neg_plaintext
    → IsLossless destination.codecs.decrypt
    → IsLossless destination.codecs.negotiate
    → load m.circuit_task neg.session_id ≡ some id
    → Id.public_key id ≡ ok key
    → ((p c : Bytes)
        → caller.ecies_encrypt key.0 key.1 p ≡ ok c
        → destination.ecies_decrypt c ≡ ok p)
    → caller.ecies_encrypt key.0 key.1 plain ≡ ok cypher
    → destination.codecs.negotiate.marshal neg ≡ some plain
    → caller.codecs.neg_plaintext.marshal (record { session_id = neg.session_id; neg = plain })
      ≡ some asked
    → destination.codecs.decrypt.marshal (record { destination = des; cypher = cypher })
      ≡ some wanted
    → req.payload ≡ asked
    → req'.payload ≡ wanted
    → (handle_encrypt caller req m ≡ ok cypher)
      × (handle_decrypt destination req' ≡ ok plain)
      × (destination.codecs.negotiate.unmarshal plain ≡ decoded neg)
unfolding handle_encrypt handle_decrypt
handle_decrypt-handle_encrypt caller destination m neg id cypher key plain asked wanted des req req'
      l l' l'' task has_key matching encrypts e e' e'' p p' =
    (
      rw (handle_encrypt, p, l.reads_back _ asked e', task, has_key, encrypts) refl,
      rw
          (
            handle_decrypt,
            p',
            l'.reads_back _ wanted e'',
            matching plain cypher encrypts,
            l''.reads_back neg plain e,
          )
          refl,
      l''.reads_back neg plain e,
    )
