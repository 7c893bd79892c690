-- ===== src/Relay/Buffer.antt =====
-- protocol/relay/connection.go: SafeBuffer, the bytes that came for a connection and the callbacks that wait for
-- more of them.
use white_noise.Prelude.{
  ℕ, zero, suc, Bool, true, false, Option, none, some, List, [], ◌∷◌, Bytes, codes, take, drop,
  if◌then◌else◌,
}
use white_noise.Errors.{Error, external}

-- A callback that a Read subscribed once: how many bytes it reads, and whether its Read still waits for it.
pub record Callback : Type 0 where
  pub size : ℕ
  pub is_awaited : Bool

-- io.EOF
abbrev pub eof : Error
eof = external (codes "EOF")

-- What a read left in the buffer, what it gave, and its error.
pub record Taken : Type 0 where
  pub buffer : Bytes
  pub out : Bytes
  pub error : Option Error

-- bytes.Buffer.Read into `n` bytes: an empty buffer is at its end, unless nothing is asked for.
unfoldable pub buffer_read : ℕ → Bytes → Taken
buffer_read zero [] = record { buffer = []; out = []; error = none }
buffer_read (suc n) [] = record { buffer = []; out = []; error = some eof }
buffer_read n (x ∷ xs) = record { buffer = drop n (x ∷ xs); out = take n (x ∷ xs); error = none }

-- What Publish leaves: the bytes, the callbacks that did not run, what the Reads that waited got, and whether
-- the publisher is stuck.
pub record Published : Type 0 where
  pub buffer : Bytes
  pub callbacks : List Callback
  pub ended : List Taken
  pub is_stuck : Bool

-- eventBus.Publish(NonEmptyTopic): the bus runs the callbacks one after the other, each once. Each reads, and then
-- hands over to its Read; where that timed out before, nobody takes over, and the publisher is stuck there.
unfoldable pub publish : List Callback → Bytes → Published
publish [] buffer = record { buffer = buffer; callbacks = []; ended = []; is_stuck = false }
publish (c ∷ callbacks) buffer =
    let r = buffer_read c.size buffer in
    let further = publish callbacks r.buffer in
    if c.is_awaited
    then record further { ended = r ∷ further.ended }
    else record { buffer = r.buffer; callbacks = callbacks; ended = []; is_stuck = true }
