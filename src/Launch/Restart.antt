-- ===== src/Launch/Restart.antt =====
-- main.go and common/account/account.go: a node that is started again with the same flags.
use white_noise.Prelude.{ℕ, ◌≡◌, Option, none, some, Bytes}
use white_noise.SyncMap.{SyncMap}
use white_noise.Account.{Account, AccountEnv}

module _ {E P : Type 0} (env : AccountEnv E P) where
  open env use {lib}

  -- An account that was returned is of the type that was asked for.
  abbrev IsOfKind : ℕ → Option (Account E P) → Type 0
  IsOfKind kind none = Unit
  IsOfKind kind (some acc) = acc.kind ≡ kind

  abbrev ReturnsKind : ℕ → SyncMap Bytes × Option (Option (Account E P)) → Type 0
  ReturnsKind kind (db, none) = Unit
  ReturnsKind kind (db, some acc) = IsOfKind kind acc
