-- ===== src/Search/Rotation.antt =====
-- The search of the source as the first accepted peer of the list, turned round to the start.
use white_noise.Prelude.{
  ℕ, zero, suc, ◌+◌, ◌%◌, ◌≤◌, ◌<◌, ◌≡◌, refl, sym, ap, ◌∙◌, ◌⊎◌, inl, inr, Bool, true, false,
  Option, none, some, List, [], ◌∷◌, ◌++◌, Bytes, arith, length, get_elem?, take, drop,
  if◌then◌else◌, length-drop, drop_all,
}
use native.Mathlib.Nat.{zero-add, suc-add, suc-mod, mod-eq_of_lt, mod_self, eq-or-lt_of_le}
use white_noise.Services.{AddrInfo}
use white_noise.Search.{peer_at, search}

-- The first peer that is accepted.
abbrev pub first_accepted : (Bytes → Bool) → List AddrInfo → Bytes → Bytes
first_accepted accepts [] join = join
first_accepted accepts (p ∷ peers) join =
    if accepts p.id then p.id else first_accepted accepts peers join

-- The list from the `i`-th peer on, and then the peers before it.
abbrev pub rotate : ℕ → List AddrInfo → List AddrInfo
rotate i peers = drop i peers ++ take i peers

get_elem?-drop :
    (i : ℕ) (xs : List AddrInfo)
    → i < length xs
    → (x : AddrInfo) × (get_elem? xs i ≡ some x) × (drop i xs ≡ x ∷ drop (suc i) xs)
get_elem?-drop i [] h = absurd (omega arith)
get_elem?-drop zero (x ∷ xs) h = (x, refl, refl)
get_elem?-drop (suc i) (x ∷ xs) h = get_elem?-drop i xs (omega arith)

drop-append_short :
    (i : ℕ) (xs ys : List AddrInfo) → i ≤ length xs → drop i (xs ++ ys) ≡ drop i xs ++ ys
drop-append_short zero xs ys h = refl
drop-append_short (suc i) [] ys h = absurd (omega arith)
drop-append_short (suc i) (x ∷ xs) ys h = drop-append_short i xs ys (omega arith)

take-append_short : (i : ℕ) (xs ys : List AddrInfo) → i ≤ length xs → take i (xs ++ ys) ≡ take i xs
take-append_short zero xs ys h = refl
take-append_short (suc i) [] ys h = absurd (omega arith)
take-append_short (suc i) (x ∷ xs) ys h = rw (take-append_short i xs ys (omega arith))

take-append_more :
    (xs ys : List AddrInfo) (k : ℕ) → take (length xs + k) (xs ++ ys) ≡ xs ++ take k ys
take-append_more [] ys k = rw zero-add
take-append_more (x ∷ xs) ys k = rw suc-add (ap (λ zs. x ∷ zs) (take-append_more xs ys k))

take-drop_twice :
    (i : ℕ) (xs : List AddrInfo) → i ≤ length xs → take (length xs) (drop i xs ++ xs) ≡ rotate i xs
take-drop_twice i xs h =
    ap (λ n. take n (drop i xs ++ xs)) (omega (arith, length-drop i xs))
    ∙ take-append_more (drop i xs) xs i

-- The remainder of the next number.
next-mod :
    (start n i : ℕ)
    → suc start % n ≡ i
    → i < n
    → ((suc i < n) × (suc (suc start) % n ≡ suc i)) ⊎ ((suc i ≡ n) × (suc (suc start) % n ≡ zero))
next-mod start n i e h =
    let next = suc-mod (suc start) n ∙ ap (λ k. suc k % n) e in
    elim (eq-or-lt_of_le h) [
      | inr lt ↦ inl (lt, next ∙ mod-eq_of_lt lt)
      | inl eq ↦ inr (eq, next ∙ ap (λ k. k % n) eq ∙ mod_self n)
    ]

next_index :
    (start : ℕ) → suc start < 18446744073709551616 → suc start % 18446744073709551616 ≡ suc start
next_index start h = mod-eq_of_lt h

at_index :
    (peers : List AddrInfo) (start : ℕ)
    → start < 9223372036854775808
    → peer_at peers start ≡ get_elem? peers (start % length peers)
unfolding peer_at
at_index peers start h = ground (arith, h)

if_some :
    (b : Bool) (id : Bytes) {r : Option Bytes} {join : Bytes}
    → r ≡ some join
    → (if b then some id else r) ≡ some (if b then id else join)
if_some true id e = refl
if_some false id e = e

search_step :
    (accepts : Bytes → Bool) (peers : List AddrInfo) (j start : ℕ) (info : AddrInfo) (join : Bytes)
    → suc start < 9223372036854775808
    → get_elem? peers (suc start % length peers) ≡ some info
    → search accepts peers (suc j) start join
      ≡ (if accepts info.id then some info.id else search accepts peers j (suc start) join)
unfolding search
search_step accepts peers j start info join h e =
    ap
      (λ (k : ℕ). elim (peer_at peers k) [
        | none ↦ none
        | some info ↦ if accepts info.id then some info.id else search accepts peers j k join
      ])
      (next_index start (omega arith))
    ∙ rw (at_index peers (suc start) h, e) refl

-- Before the end of the list, the peers from the `i`-th on, and then the list again.
search-drop :
    (accepts : Bytes → Bool) (peers : List AddrInfo) (j start i : ℕ) (join : Bytes)
    → i < length peers
    → suc start % length peers ≡ i
    → j ≤ length peers
    → start + j < 9223372036854775808
    → search accepts peers j start join
      ≡ some (first_accepted accepts (take j (drop i peers ++ peers)) join)
unfolding search
search-drop accepts peers zero start i join h e le small = refl
search-drop accepts peers (suc j) start i join h e le small =
    let there = get_elem?-drop i peers h in
    let further : search accepts peers j (suc start) join
        ≡ some (first_accepted accepts (take j (drop (suc i) peers ++ peers)) join) =
      elim (next-mod start (length peers) i e h) [
        | inl next ↦
            search-drop accepts peers j (suc start) (suc i) join next.0 next.1 (omega arith)
              (omega arith)
        | inr next ↦
            search-drop accepts peers j (suc start) 0 join (omega arith) next.1 (omega arith)
              (omega arith)
            ∙ ap (λ ps. some (first_accepted accepts ps join))
                (take-append_short j peers peers (omega arith)
                  ∙ ap (λ ps. take j (ps ++ peers)) (sym (drop_all (suc i) peers (omega arith))))
      ] in
    search_step accepts peers j start there.0 join (omega arith) (rw e there.1)
    ∙ rw there.2 (if_some (accepts there.0.id) there.0.id further)

nothing : (i : ℕ) → rotate i [] ≡ []
nothing zero = refl
nothing (suc i) = refl

-- The search of HandleNewCircuit and handleGossipMsg over all peers from a random start on, with
-- its indices modulo the number of peers, does not panic where the start and the number of peers
-- together stay below 2 ^ 63, and gives the first accepted peer of the list that is turned round
-- to begin with the peer after the start, or the earlier choice where no peer is accepted.
pub search-first_accepted :
    (accepts : Bytes → Bool) (peers : List AddrInfo) (start : ℕ) (join : Bytes)
    → start + length peers < 9223372036854775808
    → search accepts peers (length peers) start join
      ≡ some (first_accepted accepts (rotate (suc start % length peers) peers) join)
unfolding search
search-first_accepted accepts [] start join small =
    ap (λ ps. some (first_accepted accepts ps join)) (sym (nothing (suc start % 0)))
search-first_accepted accepts (p ∷ peers) start join small =
    search-drop accepts (p ∷ peers) (suc (length peers)) start (suc start % suc (length peers)) join
      (omega arith) refl (omega arith) small
    ∙ ap (λ ps. some (first_accepted accepts ps join))
        (take-drop_twice (suc start % suc (length peers)) (p ∷ peers) (omega arith))
