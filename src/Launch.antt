-- ===== src/Launch.antt =====
-- main.go: what the command `start` makes of its flags, the account that it starts with, and the white list.
-- The command line, the key file and the YAML of the white list are read by libraries.
pub mod WhiteList
pub mod Restart
use white_noise.Prelude.{
  ℕ, Bool, true, Option, none, some, List, [], ◌∷◌, Bytes, codes, same, ◌==◌, if◌then◌else◌,
}
use white_noise.Errors.{Outcome, ok, err, panic, ◌>>=◌}
use white_noise.SyncMap.{SyncMap, empty, load, store}
use white_noise.Wire.{Hashes}
use white_noise.Id.{ed25519, secpk1, ecdsa, white_noise_id_from_string}
use white_noise.Keys.{KeyLibrary}
use white_noise.Keys.Identity.{P2pLibrary, get_peer_id}
use white_noise.Account.{Account, AccountEnv, of_kind, get_account}
use white_noise.Relay.State.{ServiceMode, server_mode, client_mode, boot_mode}

-- The switch on the flag `keytype`
unfoldable pub key_type_of : Bytes → ℕ
key_type_of key_type_str =
    if same key_type_str (codes "ed25519")
    then ed25519
    else if same key_type_str (codes "secp256k1")
    then secpk1
    else if same key_type_str (codes "ecdsa")
    then ecdsa
    else ed25519

-- cfg.Mode, from the flags `client` and `boot`
unfoldable pub mode_of : Bool → Bool → ServiceMode
mode_of client boot = if boot then boot_mode else if client then client_mode else server_mode

-- The account of Start and StartChat, from that of the key file, with the database after it; the outer
-- `none` is the panic.
unfoldable pub select_account :
    {E P : Type 0}
    → AccountEnv E P
    → ℕ
    → Option (Account E P)
    → SyncMap Bytes
    → SyncMap Bytes × Option (Option (Account E P))
select_account env kind from_file db = elim (of_kind env kind (ok from_file)) [
  | some acc ↦ (db, some (some acc))
  | none ↦
      if kind == ecdsa
      then get_account env ecdsa db
      else if kind == ed25519
      then get_account env ed25519 db
      else if kind == secpk1
      then get_account env secpk1 db
      else (db, none)
]

-- `if err != nil { panic(err) }`
abbrev pub or_panic : {A : Type 0} → Outcome A → Outcome A
or_panic (ok a) = ok a
or_panic (err e) = panic
or_panic panic = panic

module _ {E P Q : Type 0} (hashes : Hashes) (lib : KeyLibrary E P) (p2p : P2pLibrary Q P) where
  -- The peer of an entry of the white list
  unfoldable pub peer_of : Bytes → Outcome Bytes
  peer_of text = white_noise_id_from_string hashes text >>= λ white_noise_id.
      get_peer_id lib p2p white_noise_id

  -- The loop of InitWhiteList
  unfoldable pub add_entries : List Bytes → SyncMap Bool → Outcome (SyncMap Bool)
  add_entries [] white_list = ok white_list
  add_entries (c ∷ cs) white_list =
      or_panic (peer_of c) >>= λ peer. add_entries cs (store white_list peer true)

  -- InitWhiteList, from what reading the file gives and what its YAML is read as
  unfoldable pub init_white_list :
      Option Bytes → (Bytes → Option (List Bytes)) → Outcome (SyncMap Bool)
  init_white_list white_list_config unmarshal = elim white_list_config [
    | none ↦ panic
    | some bytes ↦ elim (unmarshal bytes) [ none ↦ panic | some cs ↦ add_entries cs empty ]
  ]
