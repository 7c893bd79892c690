-- ===== src/Id.antt =====
-- crypto/id.go: a WhiteNoiseID, 34 bytes of which the first is the type of the key, as text and as a
-- hash. base58 and SHA-256 are parameters; the key libraries are too.
use white_noise.Prelude.{
  ℕ, ◌-◌, ◌≡◌, ◌⊎◌, inl, inr, Option, none, some, [], ◌∷◌, ◌++◌, arith, Bytes, length, take,
  replicate, ◌==◌, if◌then◌else◌, take-append_self, take_all,
}
use white_noise.Errors.{key_type, external, Outcome, ok, err, panic}
use white_noise.Wire.{Hashes}

-- Ed25519, Secpk1 and ECDSA
abbrev pub ed25519 : ℕ
ed25519 = 0

abbrev pub secpk1 : ℕ
secpk1 = 1

abbrev pub ecdsa : ℕ
ecdsa = 2

-- MarshallEd25519PublicKeyLength, MarshallSecp256k1PublicKeyLength, MarshallECDSAPublicKeyLength
abbrev pub marshall_ed25519_public_key_length : ℕ
marshall_ed25519_public_key_length = 32

abbrev pub marshall_secp256k1_public_key_length : ℕ
marshall_secp256k1_public_key_length = 33

abbrev pub marshall_ecdsa_public_key_length : ℕ
marshall_ecdsa_public_key_length = 33

-- The array of 34 bytes after `id[0] = kind` and `copy(id[1:], key)`.
abbrev pub id_of : ℕ → Bytes → Bytes
id_of kind key = kind ∷ (take 33 key ++ replicate (33 - length key) 0)

module _ (h : Hashes) where
  -- WhiteNoiseID.String
  unfoldable pub string : Bytes → Bytes
  string [] = []
  string (kind ∷ raw) =
      if kind == ed25519
      then 48 ∷ h.base58_encode (take marshall_ed25519_public_key_length raw)
      else if kind == secpk1
      then 49 ∷ h.base58_encode (take marshall_secp256k1_public_key_length raw)
      else if kind == ecdsa
      then 50 ∷ h.base58_encode (take marshall_ecdsa_public_key_length raw)
      else []

  abbrev pub decoded_id : ℕ → Option Bytes → Outcome Bytes
  decoded_id kind none = err (external [])
  decoded_id kind (some key) = ok (id_of kind key)

  -- WhiteNoiseIDfromString: `s[0:1]` panics on the empty string.
  unfoldable pub white_noise_id_from_string : Bytes → Outcome Bytes
  white_noise_id_from_string [] = panic
  white_noise_id_from_string (c ∷ s) =
      if c == 48
      then decoded_id ed25519 (h.base58_decode s)
      else if c == 49
      then decoded_id secpk1 (h.base58_decode s)
      else if c == 50
      then decoded_id ecdsa (h.base58_decode s)
      else err key_type

  -- WhiteNoiseID.Hash: the hash of an unknown type of key is 32 zeros.
  unfoldable pub hash : Bytes → Bytes
  hash [] = h.base58_encode (replicate 32 0)
  hash (kind ∷ raw) = h.base58_encode (
      if kind == ed25519
      then h.sha256 (take marshall_ed25519_public_key_length raw)
      else if kind == secpk1
      then h.sha256 (take marshall_secp256k1_public_key_length raw)
      else if kind == ecdsa
      then h.sha256 (take marshall_ecdsa_public_key_length raw)
      else replicate 32 0)

-- WhiteNoiseID.PublicKey: the type of the key and its bytes, for the key libraries.
unfoldable pub public_key : Bytes → Outcome (ℕ × Bytes)
public_key [] = err key_type
public_key (kind ∷ raw) =
    if kind == ed25519
    then ok (kind, take marshall_ed25519_public_key_length raw)
    else if kind == ecdsa
    then ok (kind, take marshall_ecdsa_public_key_length raw)
    else if kind == secpk1
    then ok (kind, take marshall_secp256k1_public_key_length raw)
    else err key_type

-- An id as the key types make it: an Ed25519 key of 32 bytes, or another key of 33.
abbrev pub IsKey : ℕ → Bytes → Type 0
IsKey kind key =
    ((kind ≡ ed25519) × (length key ≡ 32))
    ⊎ ((kind ≡ secpk1) × (length key ≡ 33))
    ⊎ ((kind ≡ ecdsa) × (length key ≡ 33))

pub take_prefix : (n : ℕ) (xs ys : Bytes) → length xs ≡ n → take n (xs ++ ys) ≡ xs
take_prefix n xs ys e = ground (arith, e, take-append_self xs ys)

-- A WhiteNoiseID that was made of a key of a known type and of that type's length, printed by
-- String and read back by WhiteNoiseIDfromString, is the same id, for a base58 that decodes what
-- it encoded.
pub white_noise_id_from_string-string :
    (h : Hashes)
    → ((b : Bytes) → h.base58_decode (h.base58_encode b) ≡ some b)
    → (kind : ℕ) (key : Bytes) → IsKey kind key
    → white_noise_id_from_string h (string h (id_of kind key)) ≡ ok (id_of kind key)
unfolding white_noise_id_from_string string
white_noise_id_from_string-string h law kind key (inl (e, l)) =
    rw
      (
        e,
        take_all 33 key (omega (arith, l)),
        take_prefix 32 key (replicate (33 - length key) 0) l,
        law key,
      )
      (rw (take_all 33 key (omega (arith, l))))
white_noise_id_from_string-string h law kind key (inr (inl (e, l))) =
    rw
      (
        e,
        take_all 33 key (omega (arith, l)),
        take_prefix 33 key (replicate (33 - length key) 0) l,
        law key,
      )
      (rw (take_all 33 key (omega (arith, l))))
white_noise_id_from_string-string h law kind key (inr (inr (e, l))) =
    rw
      (
        e,
        take_all 33 key (omega (arith, l)),
        take_prefix 33 key (replicate (33 - length key) 0) l,
        law key,
      )
      (rw (take_all 33 key (omega (arith, l))))
