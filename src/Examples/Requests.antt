-- ===== src/Examples/Requests.antt =====
-- A relay node and a node that waits for acks, with answers from the other actors.
use white_noise.Prelude.{
  List, ℕ, ◌≡◌, refl, true, false, Bool, none, some, [], ◌∷◌, ◌++◌, ◌==◌, arith, Bytes, length,
  take, drop, take-append_self, drop-append_self,
}
use white_noise.Wire.{Ack, decoded, malformed, Codec, IsLossless}
use white_noise.Services.{
  Effect, task_added, task_deleted, opened, wrote, stream_closed, reply, Surroundings,
}
use white_noise.Ack
use white_noise.Command
use white_noise.Command.{session_ex_pend, CommandEnv, SessionExpend}
use white_noise.Command.Expansion.{Expended, expend_session-Expended}
use white_noise.Examples.Codecs.{sample_hashes}
use white_noise.Examples.RelayNodes.{healthy_env}

abbrev pub frame : Bytes → Bytes → Bytes
frame a b = length a ∷ (a ++ b)

-- The two parts of a frame.
abbrev pub first_part : Bytes → Bytes
first_part [] = []
first_part (n ∷ body) = take n body

abbrev pub second_part : Bytes → Bytes
second_part [] = []
second_part (n ∷ body) = drop n body

pub frame_parts : (a b : Bytes) → (take (length a) (a ++ b) ≡ a) × (drop (length a) (a ++ b) ≡ b)
frame_parts a b = (take-append_self a b, drop-append_self a b)

abbrev if_true : Bool → ℕ
if_true true = 1
if_true false = 0

abbrev is_one : ℕ → Bool
is_one n = n == 1

is_one-if_true : (b : Bool) → is_one (if_true b) ≡ b
is_one-if_true true = refl
is_one-if_true false = refl

abbrev ack_codec : Codec Ack
ack_codec = record {
  marshal = λ a. some ((if_true a.result) ∷ frame a.command_id a.payload);
  unmarshal = elim [
    | [] ↦ malformed [] (record { command_id = []; result = false; payload = [] })
    | b ∷ r ↦
        decoded (record { command_id = first_part r; result = is_one b; payload = second_part r })
  ];
}

ack_codec-IsLossless : IsLossless ack_codec
ack_codec-IsLossless = record {
  reads_back = λ a b e. ground (
    arith,
    (frame_parts a.command_id a.payload).0,
    (frame_parts a.command_id a.payload).1,
    is_one-if_true a.result,
  );
}

abbrev pub calm : Surroundings
calm = record {
  get_session = λ log sid. reply (some (record { id = sid; pair = []; role = 2 }));
  new_session_to_peer = λ log peer sid mine other. reply none;
  send_relay = λ log sid msg. reply none;
  dht_peers = λ log max. reply (record { id = 50 ∷ []; addrs = [] } ∷ []);
  gossip_joint = λ log des cypher. reply none;
  new_stream_error = λ log peer. none;
  write_error = λ log peer. none;
  ack_result = λ log id. some (true, []);
}

abbrev sample_ack : Ack
sample_ack = record { command_id = 5 ∷ []; result = true; payload = 6 ∷ [] }

-- Two tasks, of which the ack's is the older one.
abbrev two_tasks : Ack.Manager
two_tasks = Ack.add_task (6 ∷ []) (Ack.add_task (5 ∷ []) Ack.new_ack_manager)

ack_stream_handler-send_ack_example :
    (bytes : Bytes) × ((Ack.send_ack calm ack_codec sample_ack (9 ∷ []) []).0
      ≡ stream_closed ∷ wrote (9 ∷ []) bytes ∷ opened (9 ∷ []) ∷ [])
    × Ack.Receives ack_codec sample_ack bytes two_tasks []
unfolding Ack.send_ack
ack_stream_handler-send_ack_example =
    Ack.ack_stream_handler-send_ack calm ack_codec ack_codec-IsLossless sample_ack (9 ∷ [])
      two_tasks [] [] refl

abbrev sample_command : Command.Command
sample_command = record {
  command_id = 4 ∷ [];
  type = session_ex_pend;
  from = [];
  payload = 1 ∷ 7 ∷ 8 ∷ [];
}

abbrev command_env : CommandEnv
command_env = record {
  around = calm;
  relay = healthy_env;
  hashes = sample_hashes;
  command = record {
    marshal = λ c. some c.payload;
    unmarshal = λ b. decoded (record sample_command { payload = b });
  };
  session_expend = record {
    marshal = λ s. some (frame s.session_id s.peer_id);
    unmarshal = λ b. decoded (record { session_id = first_part b; peer_id = second_part b });
  };
  host_id = 1 ∷ [];
  id_string = λ id. id;
  peer_decode = λ id. some id;
}

abbrev expended_log : List Effect
expended_log =
    task_deleted (1 ∷ 7 ∷ 8 ∷ [])
    ∷ task_added (1 ∷ 7 ∷ 8 ∷ [])
    ∷ wrote (9 ∷ []) (1 ∷ 7 ∷ 8 ∷ [])
    ∷ opened (9 ∷ [])
    ∷ []

expend_session-Expended_example : Expended command_env (9 ∷ []) (8 ∷ []) (7 ∷ []) [] expended_log
unfolding Command.expend_session Command.send_command
expend_session-Expended_example =
    expend_session-Expended command_env (9 ∷ []) (8 ∷ []) (7 ∷ []) [] expended_log refl
