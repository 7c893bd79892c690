-- ===== src/Examples/Handshakes.antt =====
-- Two sides of a handshake, with a noise library that shows what it is given.
use white_noise.Prelude.{
  ℕ, suc, ◌≡◌, ◌≢◌, refl, ◌⊎◌, inl, true, false, Option, none, some, [], ◌∷◌, ◌++◌, arith, Bytes,
  same, ◌==◌, if◌then◌else◌,
}
use white_noise.Wire.{decoded}
use white_noise.Secure.Framing.{write}
use white_noise.Secure.Framing.Delivery.{collect}
use white_noise.Secure.Handshake.{
  HandshakeEnv, payload_sig_prefix, established, framed, run_handshake, fresh_session,
  new_secure_session,
}
use white_noise.Secure.Handshake.Authentication.{
  IsAuthenticated, Reached, new_secure_session-IsAuthenticated,
}
use white_noise.Secure.Handshake.Agreement.{
  IsIdentified, IsExchange, session_after, run_handshake-agrees,
}
use white_noise.Secure.Handshake.Channel.{collect-write-run_handshake}
use white_noise.Examples.Requests.{frame, first_part, second_part}
use white_noise.Examples.Channels.{sample_encrypt, sample_decrypt, sample-IsCipher}

-- The stage of a side, and the noise key that the other side sent.
abbrev Stage : Type 0
Stage = ℕ × Bytes

abbrev keys_at : ℕ → Option (ℕ × ℕ)
keys_at stage = if stage == 2 then some (5, 6) else none

-- The side with a noise key and an identity's key.
abbrev side : Bytes → Bytes → HandshakeEnv Stage ℕ Bytes
side static identity = record {
  generate_keypair = some ([], static);
  new_handshake_state = λ initiator key. some (0, []);
  write_message = λ s payload. some ((suc s.0, s.1), frame static payload, keys_at s.0);
  read_message = λ s msg. some ((suc s.0, first_part msg), second_part msg, keys_at s.0);
  peer_static = λ s. s.1;
  local_public_key = some identity;
  sign = λ text. some (identity ++ text);
  unmarshal_public_key = λ raw. some raw;
  id_from_public_key = λ key. some (7 ∷ key);
  verify = λ key text sig. some (same sig (key ++ text));
  handshake_payload = record {
    marshal = λ p. some (frame p.identity_key p.identity_sig);
    unmarshal = λ b.
        decoded
          (record { identity_key = first_part b; identity_sig = second_part b; payload = [] });
  };
  conn_error = λ sent. none;
}

abbrev caller : HandshakeEnv Stage ℕ Bytes
caller = side (3 ∷ []) (11 ∷ [])

abbrev answer : HandshakeEnv Stage ℕ Bytes
answer = side (4 ∷ []) (12 ∷ [])

abbrev payload_of : Bytes → Bytes → Bytes
payload_of static identity = frame identity (identity ++ (payload_sig_prefix ++ static))

abbrev caller_payload : Bytes
caller_payload = payload_of (3 ∷ []) (11 ∷ [])

abbrev answer_payload : Bytes
answer_payload = payload_of (4 ∷ []) (12 ∷ [])

abbrev first : Bytes
first = frame (3 ∷ []) []

abbrev second : Bytes
second = frame (4 ∷ []) answer_payload

abbrev third : Bytes
third = frame (3 ∷ []) caller_payload

sample-IsExchange :
    IsExchange caller answer
      ([], 3 ∷ [])
      ([], 4 ∷ [])
      caller_payload
      answer_payload
      first
      second
      third
      5
      6
sample-IsExchange = record {
  a0 = (0, []);
  a1 = (1, []);
  a2 = (2, 4 ∷ []);
  a3 = (3, 4 ∷ []);
  b0 = (0, []);
  b1 = (1, 3 ∷ []);
  b2 = (2, 3 ∷ []);
  b3 = (3, 3 ∷ []);
  a_key = refl;
  b_key = refl;
  a_starts = refl;
  b_starts = refl;
  a_writes = refl;
  b_reads = refl;
  b_writes = refl;
  a_reads = refl;
  a_writes_last = refl;
  b_reads_last = refl;
  a_static = refl;
  b_static = refl;
  m1_short = omega arith;
  m2_short = omega arith;
  m3_short = omega arith;
}

caller-IsIdentified : IsIdentified caller answer (3 ∷ []) caller_payload (7 ∷ 11 ∷ []) (11 ∷ [])
unfolding same
caller-IsIdentified = record {
  raw = 11 ∷ [];
  sig = 11 ∷ (payload_sig_prefix ++ (3 ∷ []));
  has_key = refl;
  signs = refl;
  marshals = refl;
  unmarshals = refl;
  is_key = refl;
  is_id = refl;
  verifies = refl;
}

answer-IsIdentified : IsIdentified answer caller (4 ∷ []) answer_payload (7 ∷ 12 ∷ []) (12 ∷ [])
unfolding same
answer-IsIdentified = record {
  raw = 12 ∷ [];
  sig = 12 ∷ (payload_sig_prefix ++ (4 ∷ []));
  has_key = refl;
  signs = refl;
  marshals = refl;
  unmarshals = refl;
  is_key = refl;
  is_id = refl;
  verifies = refl;
}

run_handshake-agrees_example :
    (run_handshake caller (fresh_session (framed second ++ []) (7 ∷ 12 ∷ []) true)
      ≡ (session_after true (7 ∷ 12 ∷ []) (12 ∷ []) 5 6 (framed first ++ framed third) [], inl tt))
    × (run_handshake answer (fresh_session (framed first ++ (framed third ++ (9 ∷ []))) [] false)
        ≡ (session_after false (7 ∷ 11 ∷ []) (11 ∷ []) 6 5 (framed second) (9 ∷ []), inl tt))
run_handshake-agrees_example =
    run_handshake-agrees caller answer ([], 3 ∷ []) ([], 4 ∷ []) caller_payload answer_payload first
      second third (7 ∷ 11 ∷ []) (7 ∷ 12 ∷ []) 5 6 (11 ∷ []) (12 ∷ []) [] (9 ∷ []) sample-IsExchange
      caller-IsIdentified answer-IsIdentified (λ sent. refl) (λ sent. refl)

collect-write-run_handshake_example :
    let a' = (run_handshake caller (fresh_session (framed second ++ []) (7 ∷ 12 ∷ []) true)).0 in
    let b' =
      (run_handshake answer (fresh_session (framed first ++ (framed third ++ [])) [] false)).0 in
    let from_a = write sample_encrypt caller.conn_error (1 ∷ 2 ∷ []) a'.writer in
    let from_b = write sample_encrypt answer.conn_error (8 ∷ []) b'.writer in
    (collect sample_decrypt 5 3 2
        (run_handshake answer (fresh_session from_a.0.sent [] false)).0.reader
      ≡ some (1 ∷ 2 ∷ []))
    × (collect sample_decrypt 3 3 1
          (run_handshake caller (fresh_session from_b.0.sent (7 ∷ 12 ∷ []) true)).0.reader
        ≡ some (8 ∷ []))
collect-write-run_handshake_example =
    collect-write-run_handshake sample-IsCipher caller answer ([], 3 ∷ []) ([], 4 ∷ [])
      caller_payload answer_payload first second third (7 ∷ 11 ∷ []) (7 ∷ 12 ∷ []) 5 6 (11 ∷ [])
      (12 ∷ []) [] [] sample-IsExchange caller-IsIdentified answer-IsIdentified (λ sent. refl)
      (λ sent. refl) 3 1 8 (2 ∷ []) [] (omega arith)

new_secure_session-IsAuthenticated_example :
    let r = new_secure_session caller false (fresh_session (framed second) (7 ∷ 12 ∷ []) true) in
    ((r.1 ≡ established)
      × (before : Stage) × (msg : Bytes) × Reached caller true (framed second) before msg
      × IsAuthenticated caller (7 ∷ 12 ∷ []) true r.0.remote_id r.0.remote_key before msg)
    ⊎ ((r.1 ≢ established) × (r.0.closed ≡ true))
unfolding fresh_session
new_secure_session-IsAuthenticated_example =
    new_secure_session-IsAuthenticated caller false
      (fresh_session (framed second) (7 ∷ 12 ∷ []) true)
