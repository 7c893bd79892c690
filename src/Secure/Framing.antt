-- ===== src/Secure/Framing.antt =====
-- secure/rw.go and crypto.go: SecureSession.Write cuts the data into pieces, encrypts each and sends it
-- behind a two-byte length; SecureSession.Read takes them apart again and queues what its caller's
-- buffer has no room for. The cipher states of the noise library are parameters.
pub mod Wire
mod Writing
mod Reading
pub mod Delivery
use white_noise.Prelude.{
  ℕ, zero, suc, ◌+◌, ◌-◌, Bool, true, false, Option, none, some, List, [], ◌∷◌, ◌++◌, Bytes, length,
  take, drop, ltb, leb, ◌==◌, if◌then◌else◌,
}
use white_noise.Errors.{Error, no_handshake, unexpected_end, bad_cipher, Outcome, ok, err, panic}
use white_noise.Secure.Words.{put_uint16, uint16}
use white_noise.Secure.Payload.{read_full}

-- MaxTransportMsgLength - poly1305.TagSize
abbrev pub max_plaintext_length : ℕ
max_plaintext_length = 65519

-- The sending half of a SecureSession; `sent` is what the insecure connection took.
pub record Writer (K : Type 0) : Type 0 where
  pub enc : Option K
  pub sent : Bytes

-- The receiving half; `incoming` is what the insecure connection will give.
pub record Reader (K : Type 0) : Type 0 where
  pub dec : Option K
  pub qbuf : Option Bytes
  pub qseek : ℕ
  pub incoming : Bytes

-- Two length bytes as a number.
abbrev pub length_prefix : Bytes → ℕ
length_prefix (a ∷ b ∷ _) = uint16 a b
length_prefix _ = 0

module _ {K : Type 0} (encrypt : K → Bytes → K × Bytes) (conn_error : Bytes → Option Error) where
  -- The loop of Write over the data that is left: the cipher state, what was sent, the count of bytes
  -- written and the error. `conn_error` is the insecure connection's answer to a write.
  unfoldable pub write_loop :
      ℕ
      → K
      → Bytes
      → ℕ
      → Bytes
      → record { key : K; sent : Bytes; written : ℕ; error : Option Error }
  write_loop zero k sent written rest = record {
    key = k;
    sent = sent;
    written = written;
    error = none;
  }
  write_loop (suc f) k sent written [] = record {
    key = k;
    sent = sent;
    written = written;
    error = none;
  }
  write_loop (suc f) k sent written (x ∷ xs) =
      let piece = take max_plaintext_length (x ∷ xs) in
      let (k', c) = encrypt k piece in
      elim (conn_error sent) [
        | some e ↦ record { key = k'; sent = sent; written = written; error = some e }
        | none ↦
            write_loop f k' (sent ++ (put_uint16 (length c) ++ c)) (written + length piece)
              (drop max_plaintext_length (x ∷ xs))
      ]

  -- Write: the new half, the count and the error. Each round takes a byte at least, so the length of
  -- the data is enough fuel.
  unfoldable pub write : Bytes → Writer K → Writer K × ℕ × Option Error
  write [] w = (w, 0, none)
  write (x ∷ xs) w = elim w.enc [
    | none ↦ (w, 0, some no_handshake)
    | some k ↦
        let r = write_loop (length (x ∷ xs)) k w.sent 0 (x ∷ xs) in
        (record { enc = some r.key; sent = r.sent }, r.written, r.error)
  ]

module _ {K : Type 0} (decrypt : K → Bytes → Option (K × Bytes)) where
  -- What Read does with a message `c` of length `l`, when `rest` comes after it.
  unfoldable pub read_message : ℕ → ℕ → Bytes → Bytes → Reader K → Reader K × Outcome Bytes
  read_message n l c rest r = elim r.dec [
    | none ↦ (record r { incoming = rest }, err no_handshake)
    | some d ↦ elim (decrypt d c) [
      | none ↦ (record r { incoming = rest }, err bad_cipher)
      | some (d', p) ↦
          let r' = record r { dec = some d'; incoming = rest } in
          if leb l n
          then (r', ok p)
          else (record r' { qbuf = some p; qseek = length (take n p) }, ok (take n p))
    ]
  ]

  -- Read with an empty queue, into a buffer of `n` bytes.
  unfoldable pub read_next : ℕ → Reader K → Reader K × Outcome Bytes
  unfolding read_message
  read_next n r = elim (read_full 2 r.incoming) [
    | none ↦ (record r { incoming = [] }, err unexpected_end)
    | some (head, rest) ↦ elim (read_full (length_prefix head) rest) [
      | none ↦ (record r { incoming = [] }, err unexpected_end)
      | some (c, rest') ↦ read_message n (length_prefix head) c rest' r
    ]
  ]

  -- Read with something queued: `s.qbuf[s.qseek:]` panics past the end.
  unfoldable pub read_queued : ℕ → Bytes → Reader K → Reader K × Outcome Bytes
  read_queued n q r =
      if ltb (length q) r.qseek
      then (r, panic)
      else (let copied = take n (drop r.qseek q) in
          let seek = r.qseek + length copied in
          (
            if seek == length q
                then record r { qseek = 0; qbuf = none }
                else record r { qseek = seek },
            ok copied,
          ))

  -- Read into a buffer of `n` bytes: the new half, and the bytes or the error.
  unfoldable pub read : ℕ → Reader K → Reader K × Outcome Bytes
  unfolding read_next read_queued
  read n r = elim r.qbuf [ none ↦ read_next n r | some q ↦ read_queued n q r ]
