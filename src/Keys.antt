-- ===== src/Keys.antt =====
-- crypto/key.go, ecdsa.go, ed25519.go and secpk1.go: the three types of keys and their bytes. The curves are
-- libraries' (x509, neofs-crypto, btcec, ed25519), which are parameters; an Ed25519 key is its bytes.
pub mod Identity
use white_noise.Prelude.{ℕ, Option, none, some, [], Bytes, length, ◌==◌, if◌then◌else◌}
use white_noise.Errors.{key_type, external, Outcome, ok, err}
use white_noise.Wire.{or_nil}
use white_noise.Id.{ed25519, secpk1, ecdsa, id_of}

-- `E` is an *ecdsa.PrivateKey and `P` an *ecdsa.PublicKey, each of any curve; a library may read and write those of
-- its own curve only.
pub record KeyLibrary (E P : Type 0) : Type 0 where
  pub public_of : E → P
  pub ed25519_public_of : Bytes → Bytes  -- ed25519.PrivateKey.Public
  pub marshal_ec_private_key : E → Option Bytes  -- x509.MarshalECPrivateKey
  pub parse_ec_private_key : Bytes → Option E  -- x509.ParseECPrivateKey
  pub marshal_public_key : P → Bytes  -- neofs-crypto MarshalPublicKey
  pub unmarshal_public_key : Bytes → Option P  -- neofs-crypto UnmarshalPublicKey
  pub serialize_compressed : P → Bytes  -- btcec PublicKey.SerializeCompressed
  pub parse_pub_key : Bytes → Option P  -- btcec.ParsePubKey
  pub serialize : E → Bytes  -- btcec PrivateKey.Serialize
  pub priv_key_from_bytes : Bytes → Option E  -- btcec.PrivKeyFromBytes
  pub generate_ecdsa : Option E  -- ecdsa.GenerateKey
  pub generate_ed25519 : Option (Bytes × Bytes)  -- ed25519.GenerateKey: the private, the public key
  pub generate_secp256k1 : Option E  -- btcec.NewPrivateKey

-- ed25519.PublicKeySize and PrivateKeySize
abbrev pub public_key_size : ℕ
public_key_size = 32

abbrev pub private_key_size : ℕ
private_key_size = 64

-- PrivateKey and PublicKey: the types that implement the interfaces.
pub data PrivateKey (E : Type 0) : Type 0 where
  ed25519_private_key : Bytes → PrivateKey E
  ecdsa_private_key secp256k1_private_key : E → PrivateKey E

pub data PublicKey (P : Type 0) : Type 0 where
  ed25519_public_key : Bytes → PublicKey P
  ecdsa_public_key secp256k1_public_key : P → PublicKey P

module _ {E P : Type 0} (lib : KeyLibrary E P) where
  -- PrivateKey.Public
  abbrev pub public : PrivateKey E → PublicKey P
  public (ed25519_private_key priv) = ed25519_public_key (lib.ed25519_public_of priv)
  public (ecdsa_private_key priv) = ecdsa_public_key (lib.public_of priv)
  public (secp256k1_private_key priv) = secp256k1_public_key (lib.public_of priv)

  -- The Bytes of each type of private key; an error of x509 is logged and leaves nil.
  abbrev pub marshall_ed25519_private_key : Bytes → Bytes
  marshall_ed25519_private_key priv = priv

  abbrev pub ecdsa_private_bytes : E → Bytes
  ecdsa_private_bytes priv = or_nil (lib.marshal_ec_private_key priv)

  abbrev pub marshall_secp256k1_private_key : E → Bytes
  marshall_secp256k1_private_key priv = lib.serialize priv

  -- PrivateKey.Bytes
  unfoldable pub private_bytes : PrivateKey E → Bytes
  private_bytes (ed25519_private_key priv) = marshall_ed25519_private_key priv
  private_bytes (ecdsa_private_key priv) = ecdsa_private_bytes priv
  private_bytes (secp256k1_private_key priv) = marshall_secp256k1_private_key priv

  -- The Bytes of each type of public key.
  abbrev pub marshall_ed25519_public_key : Bytes → Bytes
  marshall_ed25519_public_key pub_key = pub_key

  abbrev pub marshall_ecdsa_public_key : P → Bytes
  marshall_ecdsa_public_key pub_key = lib.marshal_public_key pub_key

  abbrev pub marshall_secp256k1_public_key : P → Bytes
  marshall_secp256k1_public_key pub_key = lib.serialize_compressed pub_key

  -- PublicKey.Bytes
  unfoldable pub public_bytes : PublicKey P → Bytes
  public_bytes (ed25519_public_key pub_key) = marshall_ed25519_public_key pub_key
  public_bytes (ecdsa_public_key pub_key) = marshall_ecdsa_public_key pub_key
  public_bytes (secp256k1_public_key pub_key) = marshall_secp256k1_public_key pub_key

  -- The GetWhiteNoiseID of each type.
  abbrev pub ed25519_white_noise_id : Bytes → Bytes
  ed25519_white_noise_id pub_key = id_of ed25519 pub_key

  abbrev pub ecdsa_white_noise_id : P → Bytes
  ecdsa_white_noise_id pub_key = id_of ecdsa (marshall_ecdsa_public_key pub_key)

  abbrev pub secp256k1_white_noise_id : P → Bytes
  secp256k1_white_noise_id pub_key = id_of secpk1 (marshall_secp256k1_public_key pub_key)

  -- PublicKey.GetWhiteNoiseID
  unfoldable pub get_white_noise_id : PublicKey P → Bytes
  get_white_noise_id (ed25519_public_key pub_key) = ed25519_white_noise_id pub_key
  get_white_noise_id (ecdsa_public_key pub_key) = ecdsa_white_noise_id pub_key
  get_white_noise_id (secp256k1_public_key pub_key) = secp256k1_white_noise_id pub_key

  -- What a library's nil or error becomes.
  abbrev pub or_error : {A B : Type 0} → (A → B) → Option A → Outcome B
  or_error f none = err (external [])
  or_error f (some a) = ok (f a)

  -- UnMarshallEd25519PublicKey, UnMarshallECDSAPublicKey, UnMarshallSecp256k1PublicKey
  unfoldable pub unmarshall_ed25519_public_key : Bytes → Outcome (PublicKey P)
  unmarshall_ed25519_public_key buf =
      if length buf == public_key_size then ok (ed25519_public_key buf) else err (external [])

  abbrev pub unmarshall_ecdsa_public_key : Bytes → Outcome (PublicKey P)
  unmarshall_ecdsa_public_key buf = or_error ecdsa_public_key (lib.unmarshal_public_key buf)

  abbrev pub unmarshall_secp256k1_public_key : Bytes → Outcome (PublicKey P)
  unmarshall_secp256k1_public_key buf = or_error secp256k1_public_key (lib.parse_pub_key buf)

  -- UnMarshallEd25519PrivateKey, UnMarshallECDSAPrivateKey, UnMarshallSecp256k1PrivateKey
  unfoldable pub unmarshall_ed25519_private_key : Bytes → Outcome (PrivateKey E)
  unmarshall_ed25519_private_key buf =
      if length buf == private_key_size then ok (ed25519_private_key buf) else err (external [])

  abbrev pub unmarshall_ecdsa_private_key : Bytes → Outcome (PrivateKey E)
  unmarshall_ecdsa_private_key buf = or_error ecdsa_private_key (lib.parse_ec_private_key buf)

  abbrev pub unmarshall_secp256k1_private_key : Bytes → Outcome (PrivateKey E)
  unmarshall_secp256k1_private_key buf =
      or_error secp256k1_private_key (lib.priv_key_from_bytes buf)

  -- A private key with its public key.
  abbrev pub pair_of : PrivateKey E → PrivateKey E × PublicKey P
  pair_of priv = (priv, public priv)

  abbrev pub generate_ecdsa_key_pair : Outcome (PrivateKey E × PublicKey P)
  generate_ecdsa_key_pair = or_error (λ priv. pair_of (ecdsa_private_key priv)) lib.generate_ecdsa

  abbrev pub generate_ed25519_key_pair : Outcome (PrivateKey E × PublicKey P)
  generate_ed25519_key_pair =
      or_error (λ k. (ed25519_private_key k.0, ed25519_public_key k.1)) lib.generate_ed25519

  abbrev pub generate_secp256k1_key_pair : Outcome (PrivateKey E × PublicKey P)
  generate_secp256k1_key_pair =
      or_error (λ priv. pair_of (secp256k1_private_key priv)) lib.generate_secp256k1

  -- GenerateKeyPair
  unfoldable pub generate_key_pair : ℕ → Outcome (PrivateKey E × PublicKey P)
  generate_key_pair kind =
      if kind == ecdsa
      then generate_ecdsa_key_pair
      else if kind == ed25519
      then generate_ed25519_key_pair
      else if kind == secpk1
      then generate_secp256k1_key_pair
      else err key_type
