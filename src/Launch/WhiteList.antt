-- ===== src/Launch/WhiteList.antt =====
-- main.go and network/noise/notify.go: the white list that a node read at its start, and the peers that it
-- keeps connected.
use white_noise.Prelude.{
  ◌≡◌, refl, Bool, true, false, ◌||◌, Option, none, some, List, [], ◌∷◌, Bytes, All, arith, same,
  if◌then◌else◌,
}
use white_noise.Errors.{Outcome, ok, err, panic}
use white_noise.SyncMap.{SyncMap, empty, load, store, load-store, load-empty}
use white_noise.Wire.{Hashes}
use white_noise.Keys.{KeyLibrary}
use white_noise.Keys.Identity.{P2pLibrary}
use white_noise.Noise.{NoiseEnv, conn_closed, addr_added, connected}
use white_noise.Launch.{peer_of, add_entries, init_white_list}

-- `_, ok := config.WhiteListPeers[peer]`
abbrev has_entry : {V : Type 0} → Option V → Bool
has_entry none = false
has_entry (some v) = true

abbrev pub admits : SyncMap Bool → Bytes → Bool
admits white_list peer = has_entry (load white_list peer)

-- A service in the white list's mode, with this list.
abbrev pub guarded : NoiseEnv → SyncMap Bool → NoiseEnv
guarded env m = record env { white_list_mode = true; white_list = admits m }

module _ {E P Q : Type 0} (hashes : Hashes) (lib : KeyLibrary E P) (p2p : P2pLibrary Q P) where
  -- Whether a text is a peer's
  abbrev is_peer : Outcome Bytes → Bytes → Bool
  is_peer (ok p) peer = same p peer
  is_peer (err e) peer = false
  is_peer panic peer = false

  -- Whether some text of the list is the peer's
  abbrev pub names : List Bytes → Bytes → Bool
  names [] peer = false
  names (c ∷ cs) peer = is_peer (peer_of hashes lib p2p c) peer || names cs peer

  -- A text that leads to a peer
  abbrev pub Leads : Bytes → Type 0
  Leads c = (peer : Bytes) × (peer_of hashes lib p2p c ≡ ok peer)

  admits-store :
      (m : SyncMap Bool) (k peer : Bytes)
      → admits (store m k true) peer ≡ (same k peer || admits m peer)
  admits-store m k peer = rw (load-store m k peer true) (ground arith)

  add_entries-names :
      (cs : List Bytes) (m : SyncMap Bool)
      → All Leads cs
      → (m' : SyncMap Bool) × (add_entries hashes lib p2p cs m ≡ ok m')
        × ((peer : Bytes) → admits m' peer ≡ (names cs peer || admits m peer))
  unfolding add_entries
  add_entries-names [] m _ = (m, refl, λ peer. refl)
  add_entries-names (c ∷ cs) m ((p, e), h) =
      let (m', f, g) = add_entries-names cs (store m p true) h in
      (m', rw e f, λ peer. rw (e, g peer, admits-store m p peer) (ground arith))

  -- When InitWhiteList can read its file and every text in it leads to a peer, it returns, and a
  -- node that then runs with the white list keeps the connection of exactly the peers that some
  -- text of the file leads to by WhiteNoiseIDfromString and GetPeerID: Connected closes the
  -- connection of every other peer, and adds the address of each.
  pub connected-init_white_list :
      (env : NoiseEnv) (bytes : Bytes) (unmarshal : Bytes → Option (List Bytes)) (cs : List Bytes)
      → unmarshal bytes ≡ some cs
      → All Leads cs
      → (m : SyncMap Bool) × (init_white_list hashes lib p2p (some bytes) unmarshal ≡ ok m)
        × ((peer : Bytes)
            → connected (guarded env m) peer ≡ (
                if names cs peer then addr_added peer ∷ [] else conn_closed ∷ addr_added peer ∷ []))
  unfolding init_white_list connected
  connected-init_white_list env bytes unmarshal cs e h =
      let (m, f, g) = add_entries-names cs empty h in
      (m, rw (init_white_list, e) f, λ peer. rw (g peer, load-empty {V = Bool} peer) (ground arith))
