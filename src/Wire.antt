-- ===== src/Wire.antt =====
-- The messages of internal/pb (request.proto, relay.proto, command.proto, gossip.proto) as records,
-- and the libraries that turn them into bytes: protobuf, SHA-256 and base58 are parameters.
use white_noise.Prelude.{ℕ, ◌≡◌, refl, ◌⊎◌, inl, inr, Bool, Option, none, some, [], Bytes}

-- A protobuf enum is open: `other_type` is any number that relay.proto does not name.
pub data RelayType : Type 0 where
  set_session_type ack_type data_type disconnect_type wake_type probe_type success_type : RelayType
  other_type : ℕ → RelayType

pub record Relay : Type 0 where
  pub id : Bytes
  pub type : RelayType
  pub payload : Bytes

pub record SetSessionIdMsg : Type 0 where
  pub session_id : Bytes
  pub role : ℕ  -- int32, as its bit pattern

pub record RelayMsg : Type 0 where
  pub session_id : Bytes
  pub payload : Bytes

pub record ProbeSignal : Type 0 where
  pub session_id : Bytes
  pub payload : Bytes

pub record Disconnect : Type 0 where
  pub session_id : Bytes
  pub err_code : ℕ

pub record CircuitSuccess : Type 0 where
  pub session_id : Bytes

pub record Ack : Type 0 where
  pub command_id : Bytes
  pub result : Bool
  pub payload : Bytes

-- What Unmarshal leaves: a message, or an error text and the fields that were read before it.
pub data Decoded {ℓ} (A : Type ℓ) : Type ℓ where
  decoded : A → Decoded A
  malformed : Bytes → A → Decoded A

pub record Codec {ℓ} (A : Type ℓ) : Type ℓ where
  pub marshal : A → Option Bytes
  pub unmarshal : Bytes → Decoded A

-- What a codec promises: a message that was marshalled is read back as it was.
pub record IsLossless {ℓ} {A : Type ℓ} (c : Codec A) : Type ℓ where
  pub reads_back : (a : A) (b : Bytes) → c.marshal a ≡ some b → c.unmarshal b ≡ decoded a

-- `data, _ := proto.Marshal(&m)`: a failure leaves a nil slice.
abbrev pub or_nil : Option Bytes → Bytes
or_nil none = []
or_nil (some b) = b

-- crypto/sha256 and base58.
pub record Hashes : Type 0 where
  pub sha256 : Bytes → Bytes
  pub base58_encode : Bytes → Bytes
  pub base58_decode : Bytes → Option Bytes

-- secure.EncodeMSGIDHash
abbrev pub encode_msg_id_hash : Hashes → Bytes → Bytes
encode_msg_id_hash h = h.base58_encode

pub record RelayCodecs : Type 0 where
  pub relay : Codec Relay
  pub set_session_id_msg : Codec SetSessionIdMsg
  pub relay_msg : Codec RelayMsg
  pub probe_signal : Codec ProbeSignal
  pub disconnect : Codec Disconnect
  pub circuit_success : Codec CircuitSuccess

pub Decoded-cases {ℓ} :
    {A : Type ℓ} (d : Decoded A)
    → ((a : A) × (d ≡ decoded a)) ⊎ ((t : Bytes) × (a : A) × (d ≡ malformed t a))
Decoded-cases (decoded a) = inl (a, refl)
Decoded-cases (malformed t a) = inr (t, a, refl)
