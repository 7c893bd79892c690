-- ===== src/Secure/Words.antt =====
-- encoding/binary: big-endian words, as secure/rw.go and secure/message.go use them.
use white_noise.Prelude.{ℕ, ◌+◌, ◌*◌, ◌/◌, ◌%◌, ◌<◌, ◌≡◌, [], ◌∷◌, ◌++◌, arith, Bytes}

-- binary.BigEndian.PutUint16 of uint16(n)
abbrev pub put_uint16 : ℕ → Bytes
put_uint16 n = n / 256 % 256 ∷ n % 256 ∷ []

-- binary.BigEndian.Uint16 of two bytes
abbrev pub uint16 : ℕ → ℕ → ℕ
uint16 hi lo = hi * 256 + lo

-- binary.BigEndian.PutUint32 of uint32(n)
abbrev pub put_uint32 : ℕ → Bytes
put_uint32 n = n / 16777216 % 256 ∷ n / 65536 % 256 ∷ n / 256 % 256 ∷ n % 256 ∷ []

-- binary.BigEndian.Uint32 of four bytes
abbrev pub uint32 : ℕ → ℕ → ℕ → ℕ → ℕ
uint32 a b c d = a * 16777216 + b * 65536 + c * 256 + d

pub uint16-put_uint16 : (n : ℕ) → n < 65536 → uint16 (n / 256 % 256) (n % 256) ≡ n
uint16-put_uint16 n h = omega arith

pub uint32-put_uint32 :
    (n : ℕ)
    → uint32 (n / 16777216 % 256) (n / 65536 % 256) (n / 256 % 256) (n % 256) ≡ n % 4294967296
uint32-put_uint32 n = omega arith

-- binary.BigEndian.PutUint64 of uint64(n)
abbrev pub put_uint64 : ℕ → Bytes
put_uint64 n = put_uint32 (n / 4294967296) ++ put_uint32 n
