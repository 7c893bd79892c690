-- ===== src/Search.antt =====
-- protocol/proxy/proxy.go and network/gossip/pubsub.go: the search for another node of the network, in a
-- list of peers from a random place on.
pub mod Choice
pub mod Rotation
use white_noise.Prelude.{
  ℕ, zero, suc, ◌-◌, ◌%◌, ltb, ◌==◌, Bool, Option, none, some, List, Bytes, length, get_elem?,
  if◌then◌else◌, true, false, [], ◌∷◌, ◌||◌, same,
}
use white_noise.Services.{AddrInfo}

-- Whether the node of an id failed before.
abbrev pub is_invalid : List Bytes → Bytes → Bool
is_invalid [] id = false
is_invalid (i ∷ invalid) id = same i id || is_invalid invalid id

-- `peers[startIndex % len(peers)]`, for an int that is its 64 bits: where it is negative, so is its remainder,
-- and an index that is out of range is `none`, the panic.
unfoldable pub peer_at : List AddrInfo → ℕ → Option AddrInfo
peer_at peers start_index =
    if ltb start_index 9223372036854775808
    then get_elem? peers (start_index % length peers)
    else if (18446744073709551616 - start_index) % length peers == 0
    then get_elem? peers 0
    else none

-- The search, over `j` more peers from after `start`, for a node that is accepted; `join` is the choice where
-- none is, and `none` the panic.
unfoldable pub search : (Bytes → Bool) → List AddrInfo → ℕ → ℕ → Bytes → Option Bytes
unfolding peer_at
search accepts peers zero start join = some join
search accepts peers (suc j) start join =
    let start_index = suc start % 18446744073709551616 in
    let further = search accepts peers j start_index join in
    elim (peer_at peers start_index) [
      | none ↦ none
      | some info ↦ if accepts info.id then some info.id else further
    ]
