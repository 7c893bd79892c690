-- ===== src/Search/Choice.antt =====
-- protocol/proxy/proxy.go and network/gossip/pubsub.go: what the search for a node may end with.
use white_noise.Prelude.{
  ℕ, zero, suc, ◌%◌, ◌≡◌, refl, ◌⊎◌, inl, inr, Bool, true, Option, none, some, List, Bytes,
  Bool-cases, Option-cases,
}
use white_noise.Errors.{Error}
use white_noise.Services.{Reply, late, reply, AddrInfo}
use white_noise.Search.{peer_at, search}

-- The answer to a request for a session: none in time, a refusal, or consent.
pub Reply-cases :
    (r : Reply (Option Error))
    → ((e : Error) × (r ≡ late e)) ⊎ ((e : Error) × (r ≡ reply (some e))) ⊎ (r ≡ reply none)
Reply-cases (late e) = inl (e, refl)
Reply-cases (reply (some e)) = inr (inl (e, refl))
Reply-cases (reply none) = inr (inr refl)

-- A predicate of the choice, where there is one.
abbrev pub Found : (Bytes → Type 0) → Option Bytes → Type 0
Found P none = Unit
Found P (some id) = P id

-- What holds of every accepted node and of the earlier choice holds of the choice.
pub search-preserves :
    (P : Bytes → Type 0) (accepts : Bytes → Bool) (peers : List AddrInfo)
    → ((id : Bytes) → accepts id ≡ true → P id)
    → (j start : ℕ) (join : Bytes) → P join
    → Found P (search accepts peers j start join)
unfolding search
search-preserves P accepts peers holds zero start join h = h
search-preserves P accepts peers holds (suc j) start join h =
    let start_index = suc start % 18446744073709551616 in
    let further = search-preserves P accepts peers holds j start_index join h in
    elim (Option-cases (peer_at peers start_index)) [
      | inl e ↦ rw (search, e) tt
      | inr (info, e) ↦ elim (Bool-cases (accepts info.id)) [
        | inl f ↦ rw (search, e, f) (holds info.id f)
        | inr f ↦ rw (search, e, f) further
      ]
    ]
