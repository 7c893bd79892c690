-- ===== src/Examples/Accounts.antt =====
-- A node that starts twice, with a key library whose keys are their bytes, and a peer whose libp2p key is
-- read, with points that are numbers; a white list with one peer.
use white_noise.Prelude.{
  ◌≡◌, refl, Bool, if◌then◌else◌, true, none, some, [], ◌∷◌, arith, Bytes, codes, replicate, ℕ,
  Option,
}
use white_noise.SyncMap.{SyncMap, empty, store}
use white_noise.Wire.{decoded, malformed}
use white_noise.Errors.{ok, ◌>>=◌}
use white_noise.Id.{white_noise_id_from_string}
use white_noise.Launch.{peer_of, init_white_list}
use white_noise.Launch.WhiteList.{guarded, names, connected-init_white_list}
use white_noise.Noise.{conn_closed, addr_added, connected}
use white_noise.Examples.Clients.{noise_env}
use white_noise.Keys.Identity.{
  ecdsa_peer_id, P2pKey, P2pLibrary, ed25519_p2p, ecdsa_p2p, secp256k1_p2p, other_p2p, IsCompressed,
  key_of_id, public_key_from_p2p, ecdsa_public_key_from_p2p, white_noise_id_from_p2p_pk,
  get_peer_id, peer_id, get_peer_id-white_noise_id_from_p2p_pk,
}
use white_noise.Examples.Codecs.{sample_hashes}
use white_noise.Keys.{KeyLibrary, ed25519_private_key, ed25519_public_key, ecdsa_public_key}
use white_noise.Account.{Account, AccountEnv}
use white_noise.Examples.Requests.{frame, first_part, second_part}

abbrev key_library : KeyLibrary Bytes Bytes
key_library = record {
  public_of = λ k. k;
  ed25519_public_of = λ k. k;
  marshal_ec_private_key = λ k. some k;
  parse_ec_private_key = λ b. some b;
  marshal_public_key = λ p. p;
  unmarshal_public_key = λ b. some b;
  serialize_compressed = λ p. p;
  parse_pub_key = λ b. some b;
  serialize = λ k. k;
  priv_key_from_bytes = λ b. some b;
  generate_ecdsa = some (3 ∷ []);
  generate_ed25519 = some (replicate 64 1, replicate 32 2);
  generate_secp256k1 = none;
}

abbrev account_env : AccountEnv Bytes Bytes
account_env = record {
  lib = key_library;
  account = record {
    marshal = λ a. some (a.type ∷ frame a.private_key a.public_key);
    unmarshal = elim [
      | [] ↦ malformed [] (record { type = 0; private_key = []; public_key = [] })
      | k ∷ b ↦
          decoded (record { type = k; private_key = first_part b; public_key = second_part b })
    ];
  };
  is_open = true;
  get_error = λ label. none;
  put_error = λ label. none;
}

abbrev new_account : Account Bytes Bytes
new_account = record {
  kind = 0;
  pub_key = ed25519_public_key (replicate 32 2);
  priv_key = ed25519_private_key (replicate 64 1);
}

abbrev first_database : SyncMap Bytes
first_database = store empty (codes "default") (0 ∷ frame (replicate 64 1) (replicate 32 2))

-- A point is a number, which 33 bytes begin with.
abbrev point_bytes : ℕ → Bytes
point_bytes p = p ∷ replicate 32 0

abbrev point_of : Bytes → Option ℕ
point_of [] = none
point_of (p ∷ _) = some p

abbrev point_library : KeyLibrary ℕ ℕ
point_library = record {
  public_of = λ k. k;
  ed25519_public_of = λ k. k;
  marshal_ec_private_key = λ k. some (k ∷ []);
  parse_ec_private_key = point_of;
  marshal_public_key = point_bytes;
  unmarshal_public_key = point_of;
  serialize_compressed = point_bytes;
  parse_pub_key = point_of;
  serialize = point_bytes;
  priv_key_from_bytes = point_of;
  generate_ecdsa = none;
  generate_ed25519 = none;
  generate_secp256k1 = none;
}

abbrev raw_bytes : P2pKey ℕ → Option Bytes
raw_bytes (ed25519_p2p q) = some (replicate 32 q)
raw_bytes (ecdsa_p2p q) = some (5 ∷ q ∷ [])
raw_bytes (secp256k1_p2p q) = some (point_bytes q)
raw_bytes (other_p2p q) = none

abbrev pkix_of : Bytes → Option (Option ℕ)
pkix_of [] = none
pkix_of (c ∷ b) = some (point_of b)

abbrev point_p2p : P2pLibrary ℕ ℕ
point_p2p = record {
  raw = raw_bytes;
  parse_pkix = pkix_of;
  marshal_pkix = λ p. some (5 ∷ p ∷ []);
  unmarshal_ed25519 = point_of;
  unmarshal_ecdsa = elim [ [] ↦ none | c ∷ b ↦ point_of b ];
  secp256k1_of = λ p. p;
  id_from_public_key = raw_bytes;
}

-- Every number is a point of both curves.
abbrev IsPoint : ℕ → Type 0
IsPoint p = Unit

point_library-IsCompressed : IsCompressed IsPoint IsPoint point_library point_p2p
point_library-IsCompressed = record {
  ecdsa_public = λ p _. refl;
  ecdsa_length = λ p _. refl;
  secp_public = λ p _. refl;
  secp_length = λ p _. refl;
  secp_parsed = λ b p e. tt;
  ed25519_length = λ q b e. ground (arith, e);
}

point_key : public_key_from_p2p point_library point_p2p (ecdsa_p2p 6) ≡ ok (ecdsa_public_key 6)
unfolding public_key_from_p2p ecdsa_public_key_from_p2p
point_key = refl

get_peer_id-white_noise_id_from_p2p_pk_example :
    let id =
      white_noise_id_from_string sample_hashes
        (white_noise_id_from_p2p_pk point_library point_p2p sample_hashes (ecdsa_p2p 6)) in
    ((id >>= λ i. key_of_id point_library point_p2p i) ≡ ok (ecdsa_public_key 6))
    × ((id >>= λ i. get_peer_id point_library point_p2p i)
        ≡ peer_id point_library point_p2p (ecdsa_public_key 6))
get_peer_id-white_noise_id_from_p2p_pk_example =
    get_peer_id-white_noise_id_from_p2p_pk IsPoint IsPoint point_library point_p2p
      point_library-IsCompressed sample_hashes (λ b. refl) (ecdsa_p2p 6) (ecdsa_public_key 6)
      point_key tt

-- The text of the key 6
abbrev listed_text : Bytes
listed_text = 50 ∷ point_bytes 6

listed_peer : peer_of sample_hashes point_library point_p2p listed_text ≡ ok (5 ∷ 6 ∷ [])
unfolding peer_of white_noise_id_from_string get_peer_id key_of_id peer_id ecdsa_peer_id
listed_peer = refl

connected-init_white_list_example :
    (m : SyncMap Bool) × (init_white_list sample_hashes point_library point_p2p
        (some [])
        (λ b. some (listed_text ∷ []))
      ≡ ok m)
    × ((peer : Bytes)
        → connected (guarded noise_env m) peer ≡ (
            if names sample_hashes point_library point_p2p (listed_text ∷ []) peer
            then addr_added peer ∷ []
            else conn_closed ∷ addr_added peer ∷ []))
connected-init_white_list_example =
    connected-init_white_list sample_hashes point_library point_p2p noise_env []
      (λ b. some (listed_text ∷ [])) (listed_text ∷ []) refl ((5 ∷ 6 ∷ [], listed_peer), tt)
