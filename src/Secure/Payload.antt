-- ===== src/Secure/Payload.antt =====
-- secure/message.go: the payload framing of the chat program, a four-byte length before the data.
use white_noise.Prelude.{
  ℕ, zero, suc, ◌%◌, ◌<◌, ◌≡◌, refl, Option, none, some, ◌∷◌, ◌++◌, arith, Bytes, length, take,
  drop, leb, if◌then◌else◌, take-append_self, drop-append_self, length-append, length-take,
}
use white_noise.Secure.Words.{put_uint32, uint32}

-- Int2Bytes
abbrev pub int2_bytes : ℕ → Bytes
int2_bytes = put_uint32

-- EncodePayload; the length is taken as a uint32.
unfoldable pub encode_payload : Bytes → Bytes
encode_payload payload = int2_bytes (length payload % 4294967296) ++ payload

-- io.ReadFull of `n` bytes from what the reader will give: the bytes and what is left, or an error
-- where the reader ends first.
unfoldable pub read_full : ℕ → Bytes → Option (Bytes × Bytes)
read_full n input = if leb n (length input) then some (take n input, drop n input) else none

-- Bytes2Int
abbrev pub bytes2_int : Bytes → ℕ
bytes2_int (a ∷ b ∷ c ∷ d ∷ _) = uint32 a b c d
bytes2_int _ = 0

-- ReadPayload: the message and what is left of the input; `none` is its error.
unfoldable pub read_payload : Bytes → Option (Bytes × Bytes)
read_payload input = elim (read_full 4 input) [
  | none ↦ none
  | some (head, rest) ↦ read_full (bytes2_int head) rest
]

pub read_full-append :
    (n : ℕ) (xs rest : Bytes) → n ≡ length xs → read_full n (xs ++ rest) ≡ some (xs, rest)
unfolding read_full
read_full-append n xs rest e =
    rw e (ground (arith, take-append_self xs rest, drop-append_self xs rest, length-append xs rest))

length_word : (n : ℕ) → n < 4294967296 → bytes2_int (int2_bytes (n % 4294967296)) ≡ n
length_word n h = omega arith

-- What EncodePayload wrote is read back by ReadPayload, and the input after it is left, for data
-- whose length fits in 32 bits.
pub read_payload-encode_payload :
    (payload rest : Bytes)
    → length payload < 4294967296
    → read_payload (encode_payload payload ++ rest) ≡ some (payload, rest)
unfolding read_payload encode_payload read_full
read_payload-encode_payload payload rest h = ground (
  arith,
  read_full-append (bytes2_int (int2_bytes (length payload % 4294967296))) payload rest
      (length_word (length payload) h),
)

-- If the input ends before the payload does, for data whose length fits in 32 bits, ReadPayload
-- returns an error, also if it ends within the length.
pub read_payload_truncated :
    (payload : Bytes) (n : ℕ)
    → length payload < 4294967296
    → n < length (encode_payload payload)
    → read_payload (take n (encode_payload payload)) ≡ none
unfolding read_payload encode_payload read_full
read_payload_truncated payload zero h short = refl
read_payload_truncated payload (suc zero) h short = refl
read_payload_truncated payload (suc (suc zero)) h short = refl
read_payload_truncated payload (suc (suc (suc zero))) h short = refl
read_payload_truncated payload (suc (suc (suc (suc n)))) h short =
    ground (arith, length_word (length payload) h, length-take n payload)
