-- ===== src/Keys/Identity.antt =====
-- crypto/id.go and the key types' conversions: from a libp2p key to an id, and from an id to a key and to a
-- peer's id. libp2p's keys are opaque; what they are read from and written to is a parameter.
use white_noise.Prelude.{
  ℕ, ◌≡◌, subst, refl, inl, inr, ◌-◌, ◌++◌, leb, true, ◌==◌, if◌then◌else◌, Option, none, some, [],
  ◌∷◌, Bytes, length, take, replicate, arith, take_all, Option-cases,
}
use white_noise.Errors.{key_type, external, Outcome, ok, err, panic, ◌>>=◌}
use white_noise.Wire.{Hashes}
use white_noise.Id.{
  ed25519, secpk1, ecdsa, marshall_ed25519_public_key_length, marshall_ecdsa_public_key_length,
  marshall_secp256k1_public_key_length, string, white_noise_id_from_string, take_prefix,
  white_noise_id_from_string-string,
}
use white_noise.Keys.{
  KeyLibrary, PublicKey, ed25519_public_key, ecdsa_public_key, secp256k1_public_key, or_error,
  get_white_noise_id, unmarshall_ed25519_public_key, unmarshall_ecdsa_public_key,
  unmarshall_secp256k1_public_key,
}

-- A public key of libp2p, by its type: the three that the program reads, and RSA.
pub data P2pKey (Q : Type 0) : Type 0 where
  ed25519_p2p ecdsa_p2p secp256k1_p2p other_p2p : Q → P2pKey Q

-- go-libp2p-core and x509
pub record P2pLibrary (Q P : Type 0) : Type 0 where
  pub raw : P2pKey Q → Option Bytes  -- PubKey.Raw
  pub parse_pkix : Bytes → Option (Option P)  -- x509.ParsePKIXPublicKey; the inner `none` is no ECDSA key
  pub marshal_pkix : P → Option Bytes  -- x509.MarshalPKIXPublicKey
  pub unmarshal_ed25519 : Bytes → Option Q  -- crypto.UnmarshalEd25519PublicKey
  pub unmarshal_ecdsa : Bytes → Option Q  -- crypto.UnmarshalECDSAPublicKey
  pub secp256k1_of : P → Q  -- the conversion of Go's types
  pub id_from_public_key : P2pKey Q → Option Bytes  -- peer.IDFromPublicKey

module _ {E P Q : Type 0} (lib : KeyLibrary E P) (p2p : P2pLibrary Q P) where
  -- WhiteNoiseID.PublicKey
  unfoldable pub key_of_id : Bytes → Outcome (PublicKey P)
  key_of_id [] = err key_type
  key_of_id (kind ∷ raw) =
      if kind == ed25519
      then unmarshall_ed25519_public_key lib (take marshall_ed25519_public_key_length raw)
      else if kind == ecdsa
      then unmarshall_ecdsa_public_key lib (take marshall_ecdsa_public_key_length raw)
      else if kind == secpk1
      then unmarshall_secp256k1_public_key lib (take marshall_secp256k1_public_key_length raw)
      else err key_type

  -- Ed25519PublicKeyFromP2P
  abbrev pub ed25519_public_key_from_p2p : P2pKey Q → Outcome (PublicKey P)
  ed25519_public_key_from_p2p key = or_error lib ed25519_public_key (p2p.raw key)

  -- The type assertion of ECDSAPublicKeyFromP2P
  abbrev pub as_ecdsa : Option (Option P) → Outcome (PublicKey P)
  as_ecdsa none = err (external [])
  as_ecdsa (some none) = err key_type
  as_ecdsa (some (some p)) = ok (ecdsa_public_key p)

  -- ECDSAPublicKeyFromP2P
  unfoldable pub ecdsa_public_key_from_p2p : P2pKey Q → Outcome (PublicKey P)
  ecdsa_public_key_from_p2p key = elim (p2p.raw key) [
    | none ↦ err (external [])
    | some raw ↦ as_ecdsa (p2p.parse_pkix raw)
  ]

  -- SecpPublicKeyFromP2P
  unfoldable pub secp_public_key_from_p2p : P2pKey Q → Outcome (PublicKey P)
  secp_public_key_from_p2p key = elim (p2p.raw key) [
    | none ↦ err (external [])
    | some raw ↦ unmarshall_secp256k1_public_key lib raw
  ]

  -- The switch of WhiteNoiseIDFromP2PPK
  unfoldable pub public_key_from_p2p : P2pKey Q → Outcome (PublicKey P)
  public_key_from_p2p (ed25519_p2p q) = ed25519_public_key_from_p2p (ed25519_p2p q)
  public_key_from_p2p (ecdsa_p2p q) = ecdsa_public_key_from_p2p (ecdsa_p2p q)
  public_key_from_p2p (secp256k1_p2p q) = secp_public_key_from_p2p (secp256k1_p2p q)
  public_key_from_p2p (other_p2p q) = err key_type

  -- The text of a key's id; an error is logged and leaves the empty string.
  abbrev pub text_of : Hashes → Outcome (PublicKey P) → Bytes
  text_of h (ok pk) = string h (get_white_noise_id lib pk)
  text_of h (err e) = []
  text_of h panic = []

  -- WhiteNoiseIDFromP2PPK, which LocalWhiteNoiseID and RemoteWhiteNoiseID return.
  unfoldable pub white_noise_id_from_p2p_pk : Hashes → P2pKey Q → Bytes
  white_noise_id_from_p2p_pk h key = text_of h (public_key_from_p2p key)

  -- peer.IDFromPublicKey, where there is a key.
  abbrev pub id_from : Option (P2pKey Q) → Outcome Bytes
  id_from none = err (external [])
  id_from (some key) = or_error lib (λ b. b) (p2p.id_from_public_key key)

  abbrev pub p2p_of : (Q → P2pKey Q) → Option Q → Option (P2pKey Q)
  p2p_of kind none = none
  p2p_of kind (some q) = some (kind q)

  -- The PeerID of each type.
  abbrev pub ed25519_peer_id : Bytes → Outcome Bytes
  ed25519_peer_id pub_key = id_from (p2p_of ed25519_p2p (p2p.unmarshal_ed25519 pub_key))

  unfoldable pub ecdsa_peer_id : P → Outcome Bytes
  ecdsa_peer_id pub_key = elim (p2p.marshal_pkix pub_key) [
    | none ↦ err (external [])
    | some b ↦ id_from (p2p_of ecdsa_p2p (p2p.unmarshal_ecdsa b))
  ]

  abbrev pub secp256k1_peer_id : P → Outcome Bytes
  secp256k1_peer_id pub_key = id_from (some (secp256k1_p2p (p2p.secp256k1_of pub_key)))

  -- PublicKey.PeerID
  unfoldable pub peer_id : PublicKey P → Outcome Bytes
  peer_id (ed25519_public_key pub_key) = ed25519_peer_id pub_key
  peer_id (ecdsa_public_key pub_key) = ecdsa_peer_id pub_key
  peer_id (secp256k1_public_key pub_key) = secp256k1_peer_id pub_key

  -- WhiteNoiseID.GetPeerID
  unfoldable pub get_peer_id : Bytes → Outcome Bytes
  get_peer_id id = key_of_id id >>= λ pk. peer_id pk

-- The libraries of the two curves: each reads back the points of its own curve, which it wrote in 33 bytes,
-- and btcec reads points of its curve only; an Ed25519 key of libp2p has 32 bytes. A `P` is a point of any
-- curve, as an *ecdsa.PublicKey is.
pub record IsCompressed {E P Q : Type 0} (OnP256 OnSecp256k1 : P → Type 0) (lib : KeyLibrary E P)
    (p2p : P2pLibrary Q P) : Type 0 where
  pub ecdsa_public :
      (p : P) → OnP256 p → lib.unmarshal_public_key (lib.marshal_public_key p) ≡ some p
  pub ecdsa_length : (p : P) → OnP256 p → length (lib.marshal_public_key p) ≡ 33
  pub secp_public :
      (p : P) → OnSecp256k1 p → lib.parse_pub_key (lib.serialize_compressed p) ≡ some p
  pub secp_length : (p : P) → OnSecp256k1 p → length (lib.serialize_compressed p) ≡ 33
  pub secp_parsed : (b : Bytes) (p : P) → lib.parse_pub_key b ≡ some p → OnSecp256k1 p
  pub ed25519_length : (q : Q) (b : Bytes) → p2p.raw (ed25519_p2p q) ≡ some b → length b ≡ 32

-- An ECDSA key is on the curve P-256, which is the program's.
abbrev pub IsSupported : {P : Type 0} → (P → Type 0) → PublicKey P → Type 0
IsSupported OnP256 (ed25519_public_key b) = Unit
IsSupported OnP256 (ecdsa_public_key p) = OnP256 p
IsSupported OnP256 (secp256k1_public_key p) = Unit

-- A key that an id can hold: of its size, or on its curve.
abbrev IsSized : {P : Type 0} → (P → Type 0) → (P → Type 0) → PublicKey P → Type 0
IsSized OnP256 OnSecp256k1 (ed25519_public_key b) = length b ≡ 32
IsSized OnP256 OnSecp256k1 (ecdsa_public_key p) = OnP256 p
IsSized OnP256 OnSecp256k1 (secp256k1_public_key p) = OnSecp256k1 p

module _ {E P Q : Type 0} (OnP256 OnSecp256k1 : P → Type 0) (lib : KeyLibrary E P)
    (p2p : P2pLibrary Q P) (laws : IsCompressed OnP256 OnSecp256k1 lib p2p) where
  -- The bytes of a key in an id of its size.
  key_kept :
      (n : ℕ) (b : Bytes)
      → length b ≡ n
      → leb n 33 ≡ true
      → take n (take 33 b ++ replicate (33 - length b) 0) ≡ b
  key_kept n b l le =
      rw (take_all 33 b (ground (arith, l, le))) (take_prefix n b (replicate (33 - length b) 0) l)

  key_of_id-get_white_noise_id :
      (pk : PublicKey P)
      → IsSized OnP256 OnSecp256k1 pk
      → key_of_id lib p2p (get_white_noise_id lib pk) ≡ ok pk
  unfolding key_of_id get_white_noise_id unmarshall_ed25519_public_key
  key_of_id-get_white_noise_id (ed25519_public_key b) l = rw (key_kept 32 b l refl, l) refl
  key_of_id-get_white_noise_id (ecdsa_public_key p) on =
      rw
        (
          key_kept 33 (lib.marshal_public_key p) (laws.ecdsa_length p on) refl,
          laws.ecdsa_public p on,
        )
        refl
  key_of_id-get_white_noise_id (secp256k1_public_key p) on =
      rw
        (
          key_kept 33 (lib.serialize_compressed p) (laws.secp_length p on) refl,
          laws.secp_public p on,
        )
        refl

  -- The text of a key's id is read back.
  id_read_back :
      (h : Hashes)
      → ((b : Bytes) → h.base58_decode (h.base58_encode b) ≡ some b)
      → (pk : PublicKey P) → IsSized OnP256 OnSecp256k1 pk
      → white_noise_id_from_string h (string h (get_white_noise_id lib pk))
        ≡ ok (get_white_noise_id lib pk)
  unfolding get_white_noise_id
  id_read_back h law (ed25519_public_key b) l =
      white_noise_id_from_string-string h law ed25519 b (inl (refl, l))
  id_read_back h law (ecdsa_public_key p) on =
      white_noise_id_from_string-string h law ecdsa (lib.marshal_public_key p)
        (inr (inr (refl, laws.ecdsa_length p on)))
  id_read_back h law (secp256k1_public_key p) on =
      white_noise_id_from_string-string h law secpk1 (lib.serialize_compressed p)
        (inr (inl (refl, laws.secp_length p on)))

  -- A key that was read from libp2p's can be held by an id, if it is supported.
  abbrev SizedResult : Outcome (PublicKey P) → Type 0
  SizedResult (ok pk) = IsSupported OnP256 pk → IsSized OnP256 OnSecp256k1 pk
  SizedResult (err e) = Unit
  SizedResult panic = Unit

  parsed-Sized :
      (b : Bytes) (o : Option P)
      → lib.parse_pub_key b ≡ o
      → SizedResult (or_error lib secp256k1_public_key o)
  parsed-Sized b none e = tt
  parsed-Sized b (some p) e = λ _. laws.secp_parsed b p e

  as_ecdsa-Sized : (o : Option (Option P)) → SizedResult (as_ecdsa lib p2p o)
  as_ecdsa-Sized none = tt
  as_ecdsa-Sized (some none) = tt
  as_ecdsa-Sized (some (some p)) = λ on. on

  public_key_from_p2p-Sized : (key : P2pKey Q) → SizedResult (public_key_from_p2p lib p2p key)
  unfolding public_key_from_p2p ecdsa_public_key_from_p2p secp_public_key_from_p2p
  public_key_from_p2p-Sized (ed25519_p2p q) = elim (Option-cases (p2p.raw (ed25519_p2p q))) [
    | inl e ↦ rw e tt
    | inr (b, e) ↦ rw e (λ _. laws.ed25519_length q b e)
  ]
  public_key_from_p2p-Sized (ecdsa_p2p q) = elim (Option-cases (p2p.raw (ecdsa_p2p q))) [
    | inl e ↦ rw (ecdsa_public_key_from_p2p, e) tt
    | inr (b, e) ↦ rw (ecdsa_public_key_from_p2p, e) (as_ecdsa-Sized (p2p.parse_pkix b))
  ]
  public_key_from_p2p-Sized (secp256k1_p2p q) = elim (Option-cases (p2p.raw (secp256k1_p2p q))) [
    | inl e ↦ rw (secp_public_key_from_p2p, e) tt
    | inr (b, e) ↦ rw (secp_public_key_from_p2p, e) (parsed-Sized b (lib.parse_pub_key b) refl)
  ]
  public_key_from_p2p-Sized (other_p2p q) = tt

  -- When a libp2p key of a peer is read as a public key, the text that WhiteNoiseIDFromP2PPK
  -- makes of it, read back by WhiteNoiseIDfromString, is an id whose PublicKey is that key and
  -- whose GetPeerID is the PeerID of that key, whichever of the three types the key has, where an
  -- ECDSA key is on P-256, for a base58 that decodes what it encoded, libraries of P-256 and of
  -- secp256k1 that each read back the 33 bytes that they wrote for a point of their curve, a
  -- btcec that reads points of its curve only, and Ed25519 keys of 32 bytes.
  pub get_peer_id-white_noise_id_from_p2p_pk :
      (h : Hashes)
      → ((b : Bytes) → h.base58_decode (h.base58_encode b) ≡ some b)
      → (key : P2pKey Q) (pk : PublicKey P) → public_key_from_p2p lib p2p key ≡ ok pk
      → IsSupported OnP256 pk
      → let id = white_noise_id_from_string h (white_noise_id_from_p2p_pk lib p2p h key) in
        ((id >>= λ i. key_of_id lib p2p i) ≡ ok pk)
        × ((id >>= λ i. get_peer_id lib p2p i) ≡ peer_id lib p2p pk)
  unfolding white_noise_id_from_p2p_pk get_peer_id
  get_peer_id-white_noise_id_from_p2p_pk h law key pk e on =
      let sized : IsSized OnP256 OnSecp256k1 pk =
        subst SizedResult e (public_key_from_p2p-Sized key) on in
      rw (e, id_read_back h law pk sized, key_of_id-get_white_noise_id pk sized) (refl, refl)
