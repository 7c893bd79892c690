-- ===== src/Command/Answers.antt =====
-- protocol/command: how a node answers a command to extend a session.
use white_noise.Prelude.{◌≡◌, true, false, Option, List, [], ◌∷◌, Bytes}
use white_noise.Errors.{Error}
use white_noise.Wire.{Ack}
use white_noise.Session.{Session, Role}
use white_noise.Services.{Effect, acked, asked_close_circuit, reply}
use white_noise.Command.{Command, CommandEnv}

-- The acks in a log, and the sessions whose circuit was to be closed, newest first.
abbrev pub acks : List Effect → List Ack
acks [] = []
acks (e ∷ log) = elim e [ acked a _ ↦ a ∷ acks log | _ ↦ acks log ]

abbrev pub closes : List Effect → List Bytes
closes [] = []
closes (e ∷ log) = elim e [ asked_close_circuit sid ↦ sid ∷ closes log | _ ↦ closes log ]

-- A command was answered once: with success, or with a refusal and the end of the session's circuit.
pub data Answered (id : Bytes) (sid : Bytes) (before after : List Effect) : Type 0 where
  accepted :
      acks after ≡ record { command_id = id; result = true; payload = [] } ∷ acks before
      → closes after ≡ closes before
      → Answered id sid before after
  refused :
      (reason : Bytes)
      → acks after ≡ record { command_id = id; result = false; payload = reason } ∷ acks before
      → closes after ≡ sid ∷ closes before
      → Answered id sid before after

module _ (env : CommandEnv) where
  open env use {around}

  -- The relay manager's actor answers requests for new sessions in time.
  abbrev pub Answers : Type 0
  Answers =
      (log : List Effect) (peer sid : Bytes) (mine other : Role)
      → (e : Option Error) × (around.new_session_to_peer log peer sid mine other ≡ reply e)
