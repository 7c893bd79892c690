-- ===== src/Account/Persistence.antt =====
-- common/account/account.go: a node keeps its keys over a restart.
use white_noise.Prelude.{
  ℕ, zero, suc, ◌≡◌, ◌≢◌, subst, refl, sym, ap, ◌∙◌, inl, inr, Option, none, some, [], ◌∷◌, Bytes,
  codes, length, same_refl, Bool-cases, Option-cases, arith,
}
use white_noise.Errors.{key_type, Outcome, ok, err, panic, Outcome-cases}
use white_noise.SyncMap.{SyncMap, load, store, load-store}
use white_noise.Wire.{IsLossless}
use white_noise.Keys.{
  KeyLibrary, PrivateKey, PublicKey, ed25519_private_key, ecdsa_private_key, secp256k1_private_key,
  private_bytes, public_bytes, generate_key_pair, pair_of, or_error, ed25519_public_key,
  ecdsa_public_key, secp256k1_public_key, unmarshall_ed25519_public_key,
  unmarshall_ed25519_private_key,
}
use white_noise.Account.{
  Account, AccountEnv, StoredAccount, stored, insert_or_update_account, restored, decoded_account,
  query_account, query_default_account, create_account, of_kind, get_account,
}

-- The libraries read back what they wrote of the keys that they made, each of its own curve, and an Ed25519
-- key that was made has its size.
pub record IsFaithful {E P : Type 0} (lib : KeyLibrary E P) : Type 0 where
  pub ecdsa_private :
      (k : E)
      → lib.generate_ecdsa ≡ some k
      → (b : Bytes) × (lib.marshal_ec_private_key k ≡ some b)
        × (lib.parse_ec_private_key b ≡ some k)
  pub ecdsa_public :
      (k : E)
      → lib.generate_ecdsa ≡ some k
      → lib.unmarshal_public_key (lib.marshal_public_key (lib.public_of k)) ≡ some (lib.public_of k)
  pub secp_private :
      (k : E) → lib.generate_secp256k1 ≡ some k → lib.priv_key_from_bytes (lib.serialize k) ≡ some k
  pub secp_public :
      (k : E)
      → lib.generate_secp256k1 ≡ some k
      → lib.parse_pub_key (lib.serialize_compressed (lib.public_of k)) ≡ some (lib.public_of k)
  pub ed25519_sizes :
      (k : Bytes × Bytes) → lib.generate_ed25519 ≡ some k → (length k.0 ≡ 64) × (length k.1 ≡ 32)

-- proto3 leaves fields out that are zero or empty: only the message in which all are is marshalled to nothing.
abbrev pub OnlyEmptyIsEmpty : {E P : Type 0} → AccountEnv E P → Type 0
OnlyEmptyIsEmpty env =
    (a : StoredAccount)
    → env.account.marshal a ≡ some []
    → (a.type ≡ 0) × (a.private_key ≡ []) × (a.public_key ≡ [])

module _ {E P : Type 0} (env : AccountEnv E P) (faithful : IsFaithful env.lib)
    (lossless : IsLossless env.account) where
  open env use {lib}

  -- An account of these keys.
  abbrev account_with : ℕ → PrivateKey E × PublicKey P → Account E P
  account_with kind k = record { kind = kind; pub_key = k.1; priv_key = k.0 }

  -- The account of keys that were made is read back from its message.
  abbrev Restores : ℕ → Outcome (PrivateKey E × PublicKey P) → Type 0
  Restores kind (ok k) =
      (restored env (stored env (account_with kind k)) ≡ ok (account_with kind k))
      × ((stored env (account_with kind k)).type ≡ 0 → private_bytes lib k.0 ≢ [])
  Restores kind (err e) = Unit
  Restores kind panic = Unit

  ed25519-Restores :
      (k : Bytes × Bytes)
      → (length k.0 ≡ 64) × (length k.1 ≡ 32)
      → Restores 0 (ok (ed25519_private_key k.0, ed25519_public_key k.1))
  unfolding restored private_bytes public_bytes unmarshall_ed25519_public_key
      unmarshall_ed25519_private_key
  ed25519-Restores k (e, f) = (rw (e, f) refl, λ _ empty_key. ground (arith, e, empty_key))

  secp256k1-Restores :
      (k : E)
      → lib.generate_secp256k1 ≡ some k
      → Restores 1 (ok (secp256k1_private_key k, secp256k1_public_key (lib.public_of k)))
  unfolding restored private_bytes public_bytes
  secp256k1-Restores k made = (
    rw (faithful.secp_public k made, faithful.secp_private k made) refl,
    λ z. absurd (omega (arith, z)),
  )

  ecdsa-Restores :
      (k : E)
      → lib.generate_ecdsa ≡ some k
      → Restores 2 (ok (ecdsa_private_key k, ecdsa_public_key (lib.public_of k)))
  unfolding restored private_bytes public_bytes
  ecdsa-Restores k made =
      let (b, e, f) = faithful.ecdsa_private k made in
      (rw (faithful.ecdsa_public k made, e, f) refl, λ z. absurd (omega (arith, z)))

  made :
      {A : Type 0} (kind : ℕ) (f : A → PrivateKey E × PublicKey P) (o : Option A)
      → ((a : A) → o ≡ some a → Restores kind (ok (f a)))
      → Restores kind (or_error lib f o)
  made kind f none h = tt
  made kind f (some a) h = h a refl

  unsupported : (n : ℕ) → generate_key_pair lib (suc (suc (suc n))) ≡ err key_type
  unfolding generate_key_pair
  unsupported n = ground arith

  generate_key_pair-Restores : (kind : ℕ) → Restores kind (generate_key_pair lib kind)
  unfolding generate_key_pair
  generate_key_pair-Restores zero =
      made 0 (λ k. (ed25519_private_key k.0, ed25519_public_key k.1)) lib.generate_ed25519
        λ k e. ed25519-Restores k (faithful.ed25519_sizes k e)
  generate_key_pair-Restores (suc zero) =
      made 1 (λ k. pair_of lib (secp256k1_private_key k)) lib.generate_secp256k1 secp256k1-Restores
  generate_key_pair-Restores (suc (suc zero)) =
      made 2 (λ k. pair_of lib (ecdsa_private_key k)) lib.generate_ecdsa ecdsa-Restores
  generate_key_pair-Restores (suc (suc (suc n))) =
      subst (Restores (suc (suc (suc n)))) (sym (unsupported n)) tt

  module _ (readable : env.get_error (codes "default") ≡ none) (filled : OnlyEmptyIsEmpty env) where
    -- The database that a new account is in gives it back.
    abbrev GivesBack : ℕ → SyncMap Bytes × Option (Account E P) → Type 0
    GivesBack kind (db, none) = Unit
    GivesBack kind (db, some acc) = of_kind env kind (query_default_account env db) ≡ some acc

    abbrev Answered : ℕ → SyncMap Bytes × Option (Option (Account E P)) → Type 0
    Answered kind (db, none) = Unit
    Answered kind (db, some acc) = GivesBack kind (db, acc)

    decoded_account-stored :
        (kind : ℕ) (k : PrivateKey E × PublicKey P) (bytes : Bytes)
        → generate_key_pair lib kind ≡ ok k
        → env.account.marshal (stored env (account_with kind k)) ≡ some bytes
        → of_kind env kind (decoded_account env (some bytes)) ≡ some (account_with kind k)
    unfolding decoded_account
    decoded_account-stored kind k [] g m =
        let (z, empty_key, _) = filled _ m in
        absurd ((subst (Restores kind) g (generate_key_pair-Restores kind)).1 z empty_key)
    decoded_account-stored kind k (c ∷ cs) g m =
        rw
          (
            decoded_account,
            lossless.reads_back _ (c ∷ cs) m,
            (subst (Restores kind) g (generate_key_pair-Restores kind)).0,
          )
          (ground arith)

    created :
        (kind : ℕ) (db : SyncMap Bytes) (k : PrivateKey E × PublicKey P) (bytes : Bytes)
        → generate_key_pair lib kind ≡ ok k
        → env.account.marshal (stored env (account_with kind k)) ≡ some bytes
        → env.put_error (codes "default") ≡ none
        → create_account env kind db
          ≡ (store db (codes "default") bytes, some (account_with kind k))
    unfolding create_account insert_or_update_account
    created kind db k bytes g m p =
        let inserted : insert_or_update_account env (account_with kind k) db
            ≡ (store db (codes "default") bytes, none) =
          rw (insert_or_update_account, m, p) refl in
        rw (create_account, g, inserted) (ap (λ r. (r.0, some (account_with kind k))) inserted)

    create_account-GivesBack :
        (kind : ℕ) (db : SyncMap Bytes) → GivesBack kind (create_account env kind db)
    unfolding create_account insert_or_update_account query_account
    create_account-GivesBack kind db = elim (Outcome-cases (generate_key_pair lib kind)) [
      | inr (inl (x, g)) ↦ rw (create_account, g) tt
      | inr (inr g) ↦ rw (create_account, g) tt
      | inl (k, g) ↦ elim (Option-cases (env.account.marshal (stored env (account_with kind k)))) [
        | inl m ↦ rw (create_account, g, insert_or_update_account, m) tt
        | inr (bytes, m) ↦ elim (Option-cases (env.put_error (codes "default"))) [
          | inr (x, p) ↦ rw (create_account, g, insert_or_update_account, m, p) tt
          | inl p ↦
              let there : load (store db (codes "default") bytes) (codes "default") ≡ some bytes =
                load-store db (codes "default") (codes "default") bytes
                ∙ rw (same_refl (codes "default")) refl in
              subst (GivesBack kind) (sym (created kind db k bytes g m p)) (
                rw (query_account, readable)
                  (ap (λ v. of_kind env kind (decoded_account env v)) there
                    ∙ decoded_account-stored kind k bytes g m))
        ]
      ]
    ]

    -- When GetAccount returned an account, whether it was loaded or made and stored, GetAccount
    -- for the same type of key returns the same account again on the database that it left, and
    -- leaves that as it is: a node keeps its keys over a restart, for key libraries that read
    -- back the keys that they wrote, Ed25519 keys of the right sizes, a codec that loses nothing
    -- and marshals no account to nothing, and a database that can be read.
    pub get_account-get_account :
        (kind : ℕ) (db db' : SyncMap Bytes) (acc : Account E P)
        → get_account env kind db ≡ (db', some (some acc))
        → get_account env kind db' ≡ (db', some (some acc))
    unfolding get_account
    get_account-get_account kind db db' acc e = elim (Bool-cases env.is_open) [
      | inr f ↦ absurd (ground (arith, rw (get_account, f) at e))
      | inl f ↦ elim (Option-cases (of_kind env kind (query_default_account env db))) [
        | inr (own, g) ↦
            let h = rw (get_account, f, g) at e in
            subst (λ d. get_account env kind d ≡ (db', some (some acc))) (ap (λ r. r.0) h) e
        | inl g ↦
            let h = rw (get_account, f, g) at e in
            let back = subst (Answered kind) h (create_account-GivesBack kind db) in
            rw (get_account, f, back) refl
      ]
    ]
