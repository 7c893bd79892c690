-- ===== src/Examples/Channels.antt =====
-- A cipher, a text and a key, with what the channels make of them.
use white_noise.Prelude.{
  ℕ, suc, ◌≡◌, refl, Option, none, some, [], ◌∷◌, ◌++◌, arith, Bytes, drop, take, replicate,
}
use white_noise.Secure.Payload.{
  encode_payload, read_payload, read_payload-encode_payload, read_payload_truncated,
}
use white_noise.Secure.Framing.{write}
use white_noise.Secure.Framing.Wire.{IsCipher}
use white_noise.Secure.Framing.Delivery.{collect, collect-write}

-- Sixteen copies of the counter before the text.
abbrev pub sample_encrypt : ℕ → Bytes → ℕ × Bytes
sample_encrypt k p = (suc k, replicate 16 k ++ p)

abbrev pub sample_decrypt : ℕ → Bytes → Option (ℕ × Bytes)
sample_decrypt k c = some (suc k, drop 16 c)

pub sample-IsCipher : IsCipher sample_encrypt sample_decrypt
sample-IsCipher = record { tag_length = λ k p. omega arith; round_trip = λ k p. refl }

collect-write_example :
    let w = write sample_encrypt (λ sent. none) (8 ∷ 9 ∷ []) (record { enc = some 3; sent = [] }) in
    (w.1 ≡ 2)
    × (w.2 ≡ none)
    × (collect sample_decrypt 5 1 2
          (record { dec = some 3; qbuf = none; qseek = 0; incoming = w.0.sent })
        ≡ some (8 ∷ 9 ∷ []))
collect-write_example =
    collect-write sample-IsCipher (λ sent. none) (λ sent. refl) 1 3 8 (9 ∷ []) (omega arith)

read_payload-encode_payload_example :
    read_payload (encode_payload (1 ∷ 2 ∷ []) ++ (3 ∷ [])) ≡ some (1 ∷ 2 ∷ [], 3 ∷ [])
read_payload-encode_payload_example =
    read_payload-encode_payload (1 ∷ 2 ∷ []) (3 ∷ []) (omega arith)

read_payload_truncated_example : read_payload (take 5 (encode_payload (1 ∷ 2 ∷ []))) ≡ none
unfolding encode_payload
read_payload_truncated_example = read_payload_truncated (1 ∷ 2 ∷ []) 5 (omega arith) (omega arith)
