-- ===== src/Session.antt =====
-- network/session/session.go: a session of a circuit and its pair of streams.
-- A stream is named by its id and its remote peer. Its reader, writer, raw stream and cancel
-- function are reached through the id: they appear as effects in the managers' logs.
pub mod Pairing
use Prim.Native.Nat.{bit_xor}
use white_noise.Prelude.{
  ℕ, zero, suc, ◌+◌, Bool, true, false, Option, none, some, List, [], ◌∷◌, ◌++◌, Bytes, codes, same,
  ltb, ◌==◌, if◌then◌else◌, length, get_elem?,
}
use white_noise.Errors.{Error, session_not_ready, no_such_stream, Outcome, ok, err, panic}

-- common.SessionRole, an int that arrives as an int32: its 32-bit pattern. Only compared.
abbrev pub Role : Type 0
Role = ℕ

abbrev pub caller_role : Role
caller_role = 1

abbrev pub entry_role : Role
entry_role = 2

abbrev pub joint_role : Role
joint_role = 3

abbrev pub relay_role : Role
relay_role = 4

abbrev pub exit_role : Role
exit_role = 5

abbrev pub answer_role : Role
answer_role = 6

pub record Stream : Type 0 where
  pub stream_id : Bytes
  pub remote_peer : Bytes

pub record Session : Type 0 where
  pub id : Bytes
  pub pair : List Stream
  pub role : Role

pub record Probe : Type 0 where
  pub session_id : Bytes
  pub rand : Bytes

abbrev pub session_id_non : Bytes
session_id_non = codes "SessionIDNon"

-- NewSession
abbrev pub new_session : Session
new_session = record { id = session_id_non; pair = []; role = 0 }

-- SetSessionID
abbrev pub set_session_id : Session → Bytes → Session
set_session_id s sid = record s { id = sid }

-- IsReady
abbrev pub is_ready : Session → Bool
is_ready s = length s.pair == 2

-- The loop of AddStream: `for len(s.Pair) > 2 { s.Pair = s.Pair[1:] }`.
unfoldable pub trim : List Stream → List Stream
trim [] = []
trim (x ∷ xs) = let rest = trim xs in if ltb 2 (length (x ∷ xs)) then rest else x ∷ xs

-- AddStream
unfoldable pub add_stream : Session → Stream → Session
unfolding trim
add_stream s stream = if is_ready s then s else record s { pair = trim (s.pair ++ stream ∷ []) }

has_stream : Bytes → List Stream → Bool
has_stream sid [] = false
has_stream sid (x ∷ xs) = if same x.stream_id sid then true else has_stream sid xs

-- Has
pub has : Session → Bytes → Bool
unfolding has_stream
has s sid = has_stream sid s.pair

-- An index into a slice: out of range it panics.
index : List Stream → ℕ → Outcome Stream
index xs i = elim (get_elem? xs i) [ none ↦ panic | some x ↦ ok x ]

-- The loop of GetPattern over `rest`, whose first element has index `i` in `pair`.
partner : List Stream → Bytes → ℕ → List Stream → Outcome Stream
partner pair sid i [] = err no_such_stream
partner pair sid i (x ∷ xs) =
    if same x.stream_id sid then index pair (bit_xor i 1) else partner pair sid (i + 1) xs

-- GetPattern
unfoldable pub get_pattern : Session → Bytes → Outcome Stream
unfolding partner index
get_pattern s sid =
    if length s.pair == 2 then partner s.pair sid 0 s.pair else err session_not_ready
