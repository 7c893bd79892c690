-- ===== src/Ack.antt =====
-- protocol/ack: the acks of a node, and the tasks that wait for them. A task's channel is named by the
-- task's id; that a late ack finds its channel closed is not modelled.
use white_noise.Prelude.{
  subst, sym, Option-cases, inl, inr, Option, none, some, List, [], ◌∷◌, ◌≡◌, refl, arith, Bytes,
}
use white_noise.Errors.{Error, external}
use white_noise.SyncMap.{SyncMap, empty, load, store, delete}
use white_noise.Wire.{Ack, decoded, malformed, Codec, IsLossless}
use white_noise.Services.{
  Effect, opened, wrote, stream_closed, delivered, Surroundings, Act, give, crash, ◌>>=◌, emit,
}

-- AckManager, its map: the tasks by their id. A Task is its id and its channel.
pub record Manager : Type 0 where
  pub task_map : SyncMap Bytes

-- NewAckManager
abbrev pub new_ack_manager : Manager
new_ack_manager = record { task_map = empty }

-- AddTask
unfoldable pub add_task : Bytes → Manager → Manager
add_task id m = record { task_map = store m.task_map id id }

-- DeletTask; closing the task's channel ends nobody's wait.
unfoldable pub delet_task : Bytes → Manager → Manager
delet_task id m = record { task_map = delete m.task_map id }

-- AckStreamHandler, after the unmarshalling: the type assertion comes before the test of `ok`.
unfoldable pub deliver : Ack → Manager → Act (Unit {0})
deliver ack m = elim (load m.task_map ack.command_id) [
  | none ↦ crash
  | some id ↦ emit (delivered id ack.result ack.payload)
]

-- AckStreamHandler: what ReadMsg gave, or `none` for its error; the stream is closed in the end.
unfoldable pub ack_stream_handler : Codec Ack → Option Bytes → Manager → Act (Unit {0})
unfolding deliver
ack_stream_handler codec none m log = (stream_closed ∷ log, some tt)
ack_stream_handler codec (some payload) m log = elim (codec.unmarshal payload) [
  | malformed _ _ ↦ (stream_closed ∷ log, some tt)
  | decoded ack ↦ let r = deliver ack m log in (stream_closed ∷ r.0, r.1)
]

-- SendAck: `defer stream.Close()` stands before the test of the error, and panics on a nil stream.
unfoldable pub send_ack : Surroundings → Codec Ack → Ack → Bytes → Act (Option Error)
send_ack around codec ack peer log = elim (around.new_stream_error log peer) [
  | some e ↦ (log, none)
  | none ↦ elim (codec.marshal ack) [
    | none ↦ (stream_closed ∷ opened peer ∷ log, some (some (external [])))
    | some bytes ↦ elim (around.write_error (opened peer ∷ log) peer) [
      | some e ↦ (stream_closed ∷ opened peer ∷ log, some (some e))
      | none ↦ (stream_closed ∷ wrote peer bytes ∷ opened peer ∷ log, some none)
    ]
  ]
]

-- ReqAck, ReqAddTask and ReqDeleteTask
pub data Request : Type 0 where
  req_ack : Ack → Bytes → Request
  req_add_task : Bytes → Request
  req_delete_task : Bytes → Request

-- Receive
unfoldable pub receive : Surroundings → Codec Ack → Request → Manager → Act Manager
receive around codec (req_ack ack peer) m = send_ack around codec ack peer >>= λ _. give m
receive around codec (req_add_task id) m = give (add_task id m)
receive around codec (req_delete_task id) m = give (delet_task id m)

-- What a node's handler does with an ack's bytes: it delivers the ack on the task that is known under the
-- command, and it panics where none is.
abbrev pub Handled : Codec Ack → Ack → Bytes → Manager → List Effect → Option Bytes → Type 0
Handled codec ack bytes m log none =
    ack_stream_handler codec (some bytes) m log ≡ (stream_closed ∷ log, none)
Handled codec ack bytes m log (some task) =
    ack_stream_handler codec (some bytes) m log
    ≡ (stream_closed ∷ delivered task ack.result ack.payload ∷ log, some tt)

abbrev pub Receives : Codec Ack → Ack → Bytes → Manager → List Effect → Type 0
Receives codec ack bytes m log = Handled codec ack bytes m log (load m.task_map ack.command_id)

receives :
    (codec : Codec Ack)
    → IsLossless codec
    → (ack : Ack) (bytes : Bytes) (m : Manager) (log : List Effect) → codec.marshal ack ≡ some bytes
    → Receives codec ack bytes m log
unfolding ack_stream_handler deliver
receives codec lossless ack bytes m log e = elim (Option-cases (load m.task_map ack.command_id)) [
  | inl f ↦
      subst (Handled codec ack bytes m log) (sym f)
        (rw (ack_stream_handler, lossless.reads_back ack bytes e, deliver, f) refl)
  | inr (task, f) ↦
      subst (Handled codec ack bytes m log) (sym f)
        (rw (ack_stream_handler, lossless.reads_back ack bytes e, deliver, f) refl)
]

-- When SendAck returns no error, it opened a stream to the peer, wrote one message and closed the
-- stream, and nothing more; and when this message reaches a node, whatever tasks it has, the node
-- puts the ack's result and data on the channel of the task that it has under the ack's command,
-- or panics where it has none, and closes its stream, for a codec that loses nothing.
pub ack_stream_handler-send_ack :
    (around : Surroundings) (codec : Codec Ack)
    → IsLossless codec
    → (ack : Ack) (peer : Bytes) (m : Manager) (log log' : List Effect)
    → (send_ack around codec ack peer log).1 ≡ some none
    → (bytes : Bytes) × ((send_ack around codec ack peer log).0
        ≡ stream_closed ∷ wrote peer bytes ∷ opened peer ∷ log)
      × Receives codec ack bytes m log'
unfolding send_ack
ack_stream_handler-send_ack around codec lossless ack peer m log log' sent =
    elim (Option-cases (around.new_stream_error log peer)) [
      | inr (x, o) ↦ absurd (ground (arith, rw (send_ack, o) at sent))
      | inl o ↦ elim (Option-cases (codec.marshal ack)) [
        | inl e ↦ absurd (ground (arith, rw (send_ack, o, e) at sent))
        | inr (bytes, e) ↦ elim (Option-cases (around.write_error (opened peer ∷ log) peer)) [
          | inr (x, w) ↦ absurd (ground (arith, rw (send_ack, o, e, w) at sent))
          | inl w ↦ (bytes, rw (send_ack, o, e, w) refl, receives codec lossless ack bytes m log' e)
        ]
      ]
    ]
