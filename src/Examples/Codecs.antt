-- ===== src/Examples/Codecs.antt =====
-- Codecs that meet the laws asked of protobuf: length-prefixed fields.
use white_noise.Prelude.{
  ℕ, zero, suc, ◌≡◌, refl, some, [], ◌∷◌, ◌++◌, arith, Bytes, length, take, drop, take-append_self,
  drop-append_self,
}
use white_noise.Wire.{
  RelayType, set_session_type, ack_type, data_type, disconnect_type, wake_type, probe_type,
  success_type, other_type, Relay, SetSessionIdMsg, RelayMsg, ProbeSignal, Disconnect,
  CircuitSuccess, decoded, malformed, Codec, IsLossless, Hashes, RelayCodecs,
}

abbrev frame : Bytes → Bytes → Bytes
frame a b = length a ∷ (a ++ b)

abbrev type_code : RelayType → ℕ
type_code set_session_type = 0
type_code ack_type = 1
type_code data_type = 2
type_code disconnect_type = 3
type_code wake_type = 4
type_code probe_type = 5
type_code success_type = 6
type_code (other_type n) = suc (suc (suc (suc (suc (suc (suc n))))))

abbrev type_of_code : ℕ → RelayType
type_of_code zero = set_session_type
type_of_code (suc zero) = ack_type
type_of_code (suc (suc zero)) = data_type
type_of_code (suc (suc (suc zero))) = disconnect_type
type_of_code (suc (suc (suc (suc zero)))) = wake_type
type_of_code (suc (suc (suc (suc (suc zero))))) = probe_type
type_of_code (suc (suc (suc (suc (suc (suc zero)))))) = success_type
type_of_code (suc (suc (suc (suc (suc (suc (suc n))))))) = other_type n

type_code-round : (t : RelayType) → type_of_code (type_code t) ≡ t
type_code-round set_session_type = refl
type_code-round ack_type = refl
type_code-round data_type = refl
type_code-round disconnect_type = refl
type_code-round wake_type = refl
type_code-round probe_type = refl
type_code-round success_type = refl
type_code-round (other_type n) = refl

abbrev pub relay_codec : Codec Relay
relay_codec = record {
  marshal = λ r. some (type_code r.type ∷ frame r.id r.payload);
  unmarshal = elim [
    | [] ↦ malformed [] (record { id = []; type = ack_type; payload = [] })
    | t ∷ r ↦ elim r [
      | [] ↦ malformed [] (record { id = []; type = ack_type; payload = [] })
      | n ∷ body ↦
          decoded (record { id = take n body; type = type_of_code t; payload = drop n body })
    ]
  ];
}

pub relay_codec-IsLossless : IsLossless relay_codec
relay_codec-IsLossless = record {
  reads_back = λ a b e. ground (
    arith,
    take-append_self a.id a.payload,
    drop-append_self a.id a.payload,
    type_code-round a.type,
  );
}

abbrev pub relay_msg_codec : Codec RelayMsg
relay_msg_codec = record {
  marshal = λ r. some (frame r.session_id r.payload);
  unmarshal = elim [
    | [] ↦ malformed [] (record { session_id = []; payload = [] })
    | n ∷ body ↦ decoded (record { session_id = take n body; payload = drop n body })
  ];
}

pub relay_msg_codec-IsLossless : IsLossless relay_msg_codec
relay_msg_codec-IsLossless = record {
  reads_back = λ a b e.
      ground
        (arith, take-append_self a.session_id a.payload, drop-append_self a.session_id a.payload);
}

abbrev pub probe_codec : Codec ProbeSignal
probe_codec = record {
  marshal = λ r. some (frame r.session_id r.payload);
  unmarshal = elim [
    | [] ↦ malformed [] (record { session_id = []; payload = [] })
    | n ∷ body ↦ decoded (record { session_id = take n body; payload = drop n body })
  ];
}

pub probe_codec-IsLossless : IsLossless probe_codec
probe_codec-IsLossless = record {
  reads_back = λ a b e.
      ground
        (arith, take-append_self a.session_id a.payload, drop-append_self a.session_id a.payload);
}

abbrev pub set_session_codec : Codec SetSessionIdMsg
set_session_codec = record {
  marshal = λ r. some (r.role ∷ r.session_id);
  unmarshal = elim [
    | [] ↦ malformed [] (record { session_id = []; role = 0 })
    | n ∷ body ↦ decoded (record { session_id = body; role = n })
  ];
}

abbrev pub disconnect_codec : Codec Disconnect
disconnect_codec = record {
  marshal = λ r. some (r.err_code ∷ r.session_id);
  unmarshal = elim [
    | [] ↦ malformed [] (record { session_id = []; err_code = 0 })
    | n ∷ body ↦ decoded (record { session_id = body; err_code = n })
  ];
}

abbrev pub success_codec : Codec CircuitSuccess
success_codec = record {
  marshal = λ r. some r.session_id;
  unmarshal = λ b. decoded (record { session_id = b });
}

abbrev pub sample_codecs : RelayCodecs
sample_codecs = record {
  relay = relay_codec;
  set_session_id_msg = set_session_codec;
  relay_msg = relay_msg_codec;
  probe_signal = probe_codec;
  disconnect = disconnect_codec;
  circuit_success = success_codec;
}

-- A stand-in for the hash functions: the identity.
abbrev pub sample_hashes : Hashes
sample_hashes = record { sha256 = λ b. b; base58_encode = λ b. b; base58_decode = λ b. some b }
