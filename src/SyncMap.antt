-- ===== src/SyncMap.antt =====
-- Go's `sync.Map` with string keys, as the managers use it: Load, Store, Delete and Range.
-- The entries are private: clients have the operations and `map_laws`. `Range` promises no order.
use white_noise.Prelude.{
  ◌≡◌, refl, ◌∙◌, inl, inr, Option, none, some, List, [], ◌∷◌, arith, Bytes, same, same_iff,
  if◌then◌else◌, Bool-cases,
}

pub record SyncMap {ℓ} (V : Type ℓ) : Type ℓ where
  entries : List (Bytes × V)

module _ {ℓ} {V : Type ℓ} where
  find : Bytes → List (Bytes × V) → Option V
  find k [] = none
  find k ((j, v) ∷ m) = if same j k then some v else find k m

  without : Bytes → List (Bytes × V) → List (Bytes × V)
  without k [] = []
  without k ((j, v) ∷ m) = if same j k then without k m else (j, v) ∷ without k m

  keys_of : List (Bytes × V) → List Bytes
  keys_of [] = []
  keys_of ((j, v) ∷ m) = j ∷ keys_of m

  pub empty : SyncMap V
  empty = record { entries = [] }

  -- Map.Load
  unfoldable pub load : SyncMap V → Bytes → Option V
  unfolding find
  load m k = find k m.entries

  -- Map.Delete
  unfoldable pub delete : SyncMap V → Bytes → SyncMap V
  unfolding without
  delete m k = record { entries = without k m.entries }

  -- Map.Store
  unfoldable pub store : SyncMap V → Bytes → V → SyncMap V
  unfolding without
  store m k v = record { entries = (k, v) ∷ without k m.entries }

  -- The keys that Map.Range visits.
  unfoldable pub keys : SyncMap V → List Bytes
  unfolding keys_of
  keys m = keys_of m.entries

  find-without :
      (k j : Bytes) (m : List (Bytes × V))
      → find j (without k m) ≡ (if same k j then none else find j m)
  unfolding find without
  find-without k j [] = ground arith
  find-without k j ((i, w) ∷ m) =
      ground (arith, same_iff k j, same_iff i k, same_iff i j, find-without k j m)

  pub load-empty : (k : Bytes) → load empty k ≡ none
  unfolding load empty
  load-empty k = refl

  pub load-delete :
      (m : SyncMap V) (k j : Bytes) → load (delete m k) j ≡ (if same k j then none else load m j)
  unfolding load delete
  load-delete m k j = find-without k j m.entries

  pub load-store :
      (m : SyncMap V) (k j : Bytes) (v : V)
      → load (store m k v) j ≡ (if same k j then some v else load m j)
  unfolding load store
  load-store m k j v = elim (Bool-cases (same k j)) [
    | inl e ↦ rw e
    | inr e ↦ rw e (find-without k j m.entries ∙ rw e)
  ]

pub ruleset map_laws = (load-empty, load-delete, load-store)
