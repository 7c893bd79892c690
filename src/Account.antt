-- ===== src/Account.antt =====
-- common/account/account.go: the node's keys, which it stores in a database and loads again at its next
-- start. common/store/leveldb.go only calls the database, which is a map with errors here.
pub mod Persistence
use white_noise.Prelude.{
  ℕ, ◌%◌, Bool, true, false, Option, none, some, [], ◌∷◌, Bytes, codes, ◌==◌, if◌then◌else◌,
}
use white_noise.Errors.{Error, key_type, external, Outcome, ok, err, panic, ◌>>=◌}
use white_noise.SyncMap.{SyncMap, load, store}
use white_noise.Wire.{Codec, decoded, malformed}
use white_noise.Id.{ed25519, secpk1, ecdsa}
use white_noise.Keys.{
  KeyLibrary, PrivateKey, PublicKey, ecdsa_private_key, public, private_bytes, public_bytes,
  generate_key_pair, unmarshall_ed25519_public_key, unmarshall_ecdsa_public_key,
  unmarshall_secp256k1_public_key, unmarshall_ed25519_private_key, unmarshall_ecdsa_private_key,
  unmarshall_secp256k1_private_key,
}

-- Account
pub record Account (E P : Type 0) : Type 0 where
  pub kind : ℕ  -- KeyType
  pub pub_key : PublicKey P
  pub priv_key : PrivateKey E

-- pb.Account; the type is an int32.
pub record StoredAccount : Type 0 where
  pub type : ℕ
  pub private_key : Bytes
  pub public_key : Bytes

-- What the node has from the libraries: the keys, protobuf, and the database's errors. A read of a missing
-- key is no error.
pub record AccountEnv (E P : Type 0) : Type 0 where
  pub lib : KeyLibrary E P
  pub account : Codec StoredAccount
  pub is_open : Bool  -- whether the database was opened
  pub get_error : Bytes → Option Error
  pub put_error : Bytes → Option Error

module _ {E P : Type 0} (env : AccountEnv E P) where
  open env use {lib}

  -- The account's message for the database.
  abbrev pub stored : Account E P → StoredAccount
  stored acc = record {
    type = acc.kind % 4294967296;
    private_key = private_bytes lib acc.priv_key;
    public_key = public_bytes lib acc.pub_key;
  }

  -- LevelDB.InsertOrUpdateAccount: the database after it, and the error.
  unfoldable pub insert_or_update_account :
      Account E P → SyncMap Bytes → SyncMap Bytes × Option Error
  insert_or_update_account acc db = elim (env.account.marshal (stored acc)) [
    | none ↦ (db, some (external []))
    | some bytes ↦ elim (env.put_error (codes "default")) [
      | some e ↦ (db, some e)
      | none ↦ (store db (codes "default") bytes, none)
    ]
  ]

  -- An account of a type, from its two keys.
  abbrev pub account_of : ℕ → Outcome (PublicKey P) → Outcome (PrivateKey E) → Outcome (Account E P)
  account_of kind public_key private_key = public_key >>= λ pub_key. private_key >>= λ priv_key.
      ok (record { kind = kind; pub_key = pub_key; priv_key = priv_key })

  -- The switch of QueryAccount
  unfoldable pub restored : StoredAccount → Outcome (Account E P)
  restored a =
      if a.type == ed25519
      then account_of a.type (unmarshall_ed25519_public_key lib a.public_key)
          (unmarshall_ed25519_private_key lib a.private_key)
      else if a.type == ecdsa
      then account_of a.type (unmarshall_ecdsa_public_key lib a.public_key)
          (unmarshall_ecdsa_private_key lib a.private_key)
      else if a.type == secpk1
      then account_of a.type (unmarshall_secp256k1_public_key lib a.public_key)
          (unmarshall_secp256k1_private_key lib a.private_key)
      else err key_type

  abbrev pub found : Outcome (Account E P) → Outcome (Option (Account E P))
  found o = o >>= λ acc. ok (some acc)

  -- The value under a label, where there is one: an empty value is none.
  unfoldable pub decoded_account : Option Bytes → Outcome (Option (Account E P))
  unfolding restored
  decoded_account none = ok none
  decoded_account (some []) = ok none
  decoded_account (some (c ∷ cs)) = elim (env.account.unmarshal (c ∷ cs)) [
    | malformed t _ ↦ err (external t)
    | decoded a ↦ found (restored a)
  ]

  -- LevelDB.QueryAccount
  unfoldable pub query_account : Bytes → SyncMap Bytes → Outcome (Option (Account E P))
  unfolding decoded_account
  query_account label db = elim (env.get_error label) [
    | some e ↦ err e
    | none ↦ decoded_account (load db label)
  ]

  -- LevelDB.QueryDefaultAccount
  abbrev pub query_default_account : SyncMap Bytes → Outcome (Option (Account E P))
  query_default_account db = query_account (codes "default") db

  -- The account of GetAccount where the database has none: a new one, which is stored.
  unfoldable pub create_account : ℕ → SyncMap Bytes → SyncMap Bytes × Option (Account E P)
  unfolding insert_or_update_account
  create_account kind db = elim (generate_key_pair lib kind) [
    | err _ ↦ (db, none)
    | panic ↦ (db, none)
    | ok k ↦
        let acc : Account E P = record { kind = kind; pub_key = k.1; priv_key = k.0 } in
        let (db', e) = insert_or_update_account acc db in
        elim e [ some _ ↦ (db', none) | none ↦ (db', some acc) ]
  ]

  -- The stored account, if it is of the type that is asked for.
  abbrev pub of_kind : ℕ → Outcome (Option (Account E P)) → Option (Account E P)
  of_kind kind (ok (some acc)) = if acc.kind == kind then some acc else none
  of_kind kind (ok none) = none
  of_kind kind (err e) = none
  of_kind kind panic = none

  -- GetAccount: the database after it and the account, or `none` for nil; the outer `none` is the panic on
  -- a database that was not opened.
  unfoldable pub get_account : ℕ → SyncMap Bytes → SyncMap Bytes × Option (Option (Account E P))
  unfolding create_account query_account
  get_account kind db =
      if env.is_open
      then elim (of_kind kind (query_default_account db)) [
        | some acc ↦ (db, some (some acc))
        | none ↦ let (db', acc) = create_account kind db in (db', some acc)
      ]
      else (db, none)

  -- NewOneTimeAccount
  unfoldable pub new_one_time_account : ℕ → Outcome (Account E P)
  new_one_time_account kind =
      generate_key_pair lib kind >>= λ k. ok (record { kind = kind; pub_key = k.1; priv_key = k.0 })

  -- GetAccountFromFile, from what was read of the file and decoded from PEM on
  unfoldable pub account_from_pem : Bytes → Option (Account E P)
  account_from_pem x509_encoded = elim (lib.parse_ec_private_key x509_encoded) [
    | none ↦ none
    | some priv ↦
        let priv_key = ecdsa_private_key priv in
        some (record { kind = ecdsa; pub_key = public lib priv_key; priv_key = priv_key })
  ]
