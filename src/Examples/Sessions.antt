-- ===== src/Examples/Sessions.antt =====
-- The ends of sessions at the sample nodes.
use white_noise.Prelude.{[], ◌∷◌}
use white_noise.Session.{get_pattern}
use white_noise.Session.Pairing.{Pattern, get_pattern-Pattern}
use white_noise.Relay.Sending.{remove_session, send_relay, close_circuit}
use white_noise.Relay.Sending.Removal.{Removed, remove_session-Removed}
use white_noise.Relay.Sending.Writes.{close_circuit-Removed}
use white_noise.Relay.Sending.Sends.{Sent, send_relay-Sent}
use white_noise.Examples.RelayNodes.{sid, left, right, session_of, node_of, healthy_env}

get_pattern-Pattern_example :
    Pattern (left ∷ right ∷ []) (1 ∷ []) (get_pattern (session_of 4) (1 ∷ []))
get_pattern-Pattern_example = get_pattern-Pattern (session_of 4) (1 ∷ [])

remove_session-Removed_example : Removed sid (node_of 4) (remove_session sid (node_of 4))
remove_session-Removed_example = remove_session-Removed sid (node_of 4)

close_circuit-Removed_example :
    Removed sid (node_of 6) (close_circuit healthy_env sid (node_of 6)).0
close_circuit-Removed_example = close_circuit-Removed healthy_env sid (node_of 6)

send_relay-Sent_example :
    Sent sid (5 ∷ []) (λ p. p) (node_of 2) (send_relay healthy_env sid (5 ∷ []) (node_of 2))
send_relay-Sent_example = send_relay-Sent healthy_env sid (5 ∷ []) (node_of 2)
