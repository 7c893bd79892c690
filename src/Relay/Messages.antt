-- ===== src/Relay/Messages.antt =====
-- protocol/relay/relay.go, NewSetSessionIDCommand to NewCircuitSuccess: the relay messages as bytes.
-- Each message is marshalled without an id, and its id is the hash of those bytes.
use white_noise.Prelude.{Option, none, some, [], Bytes}
use white_noise.Wire.{
  RelayType, set_session_type, data_type, disconnect_type, wake_type, probe_type, success_type,
  Relay, encode_msg_id_hash, or_nil,
}
use white_noise.Session.{Role}
use white_noise.Relay.State.{Env}

module _ (env : Env) where
  open env use {hashes, codecs}

  -- The relay message with its id set.
  abbrev pub identified : RelayType → Bytes → Relay
  identified type payload =
      let bare : Relay = record { id = []; type = type; payload = payload } in
      record {
        id = encode_msg_id_hash hashes (hashes.sha256 (or_nil (codecs.relay.marshal bare)));
        type = type;
        payload = payload;
      }

  -- NewSetSessionIDCommand
  unfoldable pub new_set_session_id_command : Bytes → Role → Bytes × Bytes
  new_set_session_id_command sid other_role =
      let data_bytes =
        or_nil
          (codecs.set_session_id_msg.marshal (record { session_id = sid; role = other_role })) in
      let relay = identified set_session_type data_bytes in
      (or_nil (codecs.relay.marshal relay), relay.id)

  -- NewRelayWake
  unfoldable pub new_relay_wake : Bytes
  new_relay_wake = or_nil (codecs.relay.marshal (identified wake_type []))

  -- NewRelayMsg
  unfoldable pub new_relay_msg : Bytes → Bytes → Bytes
  new_relay_msg msg sid =
      let data_bytes =
        or_nil (codecs.relay_msg.marshal (record { session_id = sid; payload = msg })) in
      or_nil (codecs.relay.marshal (identified data_type data_bytes))

  -- NewProbeSignal; `none` is its error.
  unfoldable pub new_probe_signal : Bytes → Option Bytes
  new_probe_signal sid =
      elim (codecs.probe_signal.marshal
        (record { session_id = sid; payload = hashes.sha256 sid })) [
          | none ↦ none
          | some data_bytes ↦ codecs.relay.marshal (identified probe_type data_bytes)
        ]

  -- NewDisconnect; `none` is its error.
  unfoldable pub new_disconnect : Bytes → Option Bytes
  new_disconnect sid =
      elim (codecs.disconnect.marshal (record { session_id = sid; err_code = 0 })) [
        | none ↦ none
        | some data_bytes ↦ codecs.relay.marshal (identified disconnect_type data_bytes)
      ]

  -- NewCircuitSuccess
  unfoldable pub new_circuit_success : Bytes → Bytes
  new_circuit_success sid =
      let data_bytes = or_nil (codecs.circuit_success.marshal (record { session_id = sid })) in
      or_nil (codecs.relay.marshal (identified success_type data_bytes))
