-- ===== src/Session/Pairing.antt =====
-- network/session/session.go: what AddStream and GetPattern do to a pair of streams.
use white_noise.Prelude.{
  ◌≤◌, ◌≡◌, refl, ◌≢◌, ◌⊎◌, inl, inr, List, [], ◌∷◌, ◌++◌, arith, Bytes, same, same_iff, length,
  length-append, if◌then◌else◌,
}
use white_noise.Errors.{session_not_ready, no_such_stream, Outcome, ok, err, panic}
use white_noise.Session.{Stream, Session, is_ready, add_stream, trim, get_pattern}

-- A pair holds two streams at most.
abbrev pub IsPaired : Session → Type 0
IsPaired s = length s.pair ≤ 2

length-trim-le : (xs : List Stream) → length (trim xs) ≤ 2
unfolding trim
length-trim-le [] = omega arith
length-trim-le (x ∷ xs) = ground (arith, length-trim-le xs)

trim_short : (xs : List Stream) → length xs ≤ 2 → trim xs ≡ xs
unfolding trim
trim_short [] h = refl
trim_short (x ∷ xs) h = ground arith

-- AddStream leaves two streams at most, whatever the session held before.
pub add_stream-IsPaired : (s : Session) (x : Stream) → IsPaired (add_stream s x)
unfolding add_stream
add_stream-IsPaired s x = ground (arith, length-trim-le (s.pair ++ x ∷ []))

-- AddStream on a session of at most two streams appends the stream while there is room for it,
-- and leaves a ready session alone; the id and the role stay.
add_stream_appends :
    (s : Session) (x : Stream)
    → IsPaired s
    → ((add_stream s x).pair ≡ (if is_ready s then s.pair else s.pair ++ x ∷ []))
      × ((add_stream s x).id ≡ s.id)
      × ((add_stream s x).role ≡ s.role)
unfolding add_stream
add_stream_appends s x h =
    ground (arith, trim_short (s.pair ++ x ∷ []), length-append s.pair (x ∷ []))

-- What GetPattern may answer for a session with these streams.
abbrev pub Pattern : List Stream → Bytes → Outcome Stream → Type 0
Pattern pair sid r =
    ((length pair ≢ 2) × (r ≡ err session_not_ready))
    ⊎ ((a : Stream) × (b : Stream) × (pair ≡ a ∷ b ∷ [])
        × (((a.stream_id ≡ sid) × (r ≡ ok b))
            ⊎ ((a.stream_id ≢ sid) × (b.stream_id ≡ sid) × (r ≡ ok a))
            ⊎ ((a.stream_id ≢ sid) × (b.stream_id ≢ sid) × (r ≡ err no_such_stream))))

-- The answer for a ready session.
pub get_pattern_ready :
    (s : Session) (sid : Bytes) (a b : Stream)
    → s.pair ≡ a ∷ b ∷ []
    → get_pattern s sid ≡ (
        if same a.stream_id sid
        then ok b
        else if same b.stream_id sid
        then ok a
        else err no_such_stream)
unfolding get_pattern
get_pattern_ready s sid a b e = ground arith

ready-Pattern :
    (s : Session) (sid : Bytes) (a b : Stream)
    → s.pair ≡ a ∷ b ∷ []
    → Pattern s.pair sid (get_pattern s sid)
ready-Pattern s sid a b e = inr (
  a,
  b,
  e,
  ground (arith, get_pattern_ready s sid a b, same_iff a.stream_id sid, same_iff b.stream_id sid),
)

cases-Pattern :
    (s : Session) (sid : Bytes) (pair : List Stream)
    → s.pair ≡ pair
    → Pattern s.pair sid (get_pattern s sid)
unfolding get_pattern
cases-Pattern s sid [] e = inl (ground arith, ground arith)
cases-Pattern s sid (a ∷ []) e = inl (ground arith, ground arith)
cases-Pattern s sid (a ∷ b ∷ []) e = ready-Pattern s sid a b e
cases-Pattern s sid (a ∷ b ∷ c ∷ r) e = inl (ground arith, ground arith)

-- GetPattern answers for the streams of a session of exactly two streams with the other stream,
-- the first match counting; it is an error for any other session and any other stream, and it
-- never panics.
pub get_pattern-Pattern : (s : Session) (sid : Bytes) → Pattern s.pair sid (get_pattern s sid)
get_pattern-Pattern s sid = cases-Pattern s sid s.pair refl

-- The two ends of a ready session are each other's pattern.
pub get_pattern_swaps :
    (s : Session) (a b : Stream)
    → s.pair ≡ a ∷ b ∷ []
    → a.stream_id ≢ b.stream_id
    → (get_pattern s a.stream_id ≡ ok b) × (get_pattern s b.stream_id ≡ ok a)
unfolding get_pattern
get_pattern_swaps s a b e d = (
  ground (arith, same_iff a.stream_id a.stream_id),
  ground (arith, same_iff b.stream_id b.stream_id, same_iff a.stream_id b.stream_id),
)

pub get_pattern-ne-panic : (s : Session) (sid : Bytes) → get_pattern s sid ≢ panic
get_pattern-ne-panic s sid e = ground (arith, get_pattern-Pattern s sid)
