-- ===== src/Proxy/State.antt =====
-- protocol/proxy/proxy.go: the maps of ProxyManager, the operations on them, and what a node knows
-- besides. The messages are those of internal/pb/request.proto and gossip.proto.
use white_noise.Prelude.{ℕ, Option, none, some, List, Bytes}
use white_noise.Errors.{Outcome}
use white_noise.SyncMap.{SyncMap, empty, load, store, delete}
use white_noise.Wire.{Codec, Hashes}
use white_noise.Services.{Effect, Surroundings}
use white_noise.Relay.State.{Env}
use white_noise.Id

-- pb.Reqtype; the enum is open.
pub data Reqtype : Type 0 where
  get_online_nodes new_proxy new_circuit decrypt_gossip neg_plain_text un_register_type : Reqtype
  main_net_peers : Reqtype
  other_reqtype : ℕ → Reqtype

pub record Request : Type 0 where
  pub req_id : Bytes
  pub from : Bytes
  pub reqtype : Reqtype
  pub payload : Bytes

pub record NewCircuit : Type 0 where
  pub from : Bytes
  pub to : Bytes
  pub session_id : Bytes

pub record NewProxy : Type 0 where
  pub time : Bytes
  pub white_noise_id : Bytes

pub record Decrypt : Type 0 where
  pub destination : Bytes
  pub cypher : Bytes

pub record NegPlaintext : Type 0 where
  pub session_id : Bytes
  pub neg : Bytes

pub record NodeInfo : Type 0 where
  pub id : Bytes
  pub addr : List Bytes

pub record Negotiate : Type 0 where
  pub join : Bytes
  pub session_id : Bytes
  pub destination : Bytes
  pub sig : Bytes

pub record ProxyCodecs : Type 0 where
  pub request : Codec Request
  pub new_circuit : Codec NewCircuit
  pub new_proxy : Codec NewProxy
  pub decrypt : Codec Decrypt
  pub neg_plaintext : Codec NegPlaintext
  pub main_net_peers : Codec ℕ  -- MainNetPeers: its `max`, an int32 as its bits
  pub peers_list : Codec (List NodeInfo)
  pub negotiate : Codec Negotiate

-- What the node has from the libraries and the other actors. A peer id is its bytes.
pub record ProxyEnv : Type 0 where
  pub around : Surroundings
  pub relay : Env  -- for the relay messages that the node makes
  pub hashes : Hashes
  pub codecs : ProxyCodecs
  pub host_id : Bytes
  pub id_string : Bytes → Bytes  -- peer.ID.String
  pub parse_duration : Bytes → Option ℕ  -- time.ParseDuration, as a 64-bit pattern
  pub ecies_encrypt : ℕ → Bytes → Bytes → Outcome Bytes  -- to a key: its type, its bytes
  pub ecies_decrypt : Bytes → Outcome Bytes  -- with the account's key
  pub random : List Effect → ℕ  -- rand.Int

-- ClientInfo
pub record ClientInfo : Type 0 where
  pub white_noise_id : Bytes
  pub peer_id : Bytes
  pub state : ℕ
  pub time : ℕ

-- ProxyManager, its maps
pub record Manager : Type 0 where
  pub client_wn_map : SyncMap ClientInfo
  pub client_peer_map : SyncMap Bytes
  pub circuit_task : SyncMap Bytes

-- NewProxyService
abbrev pub new_proxy_service : Manager
new_proxy_service = record { client_wn_map = empty; client_peer_map = empty; circuit_task = empty }

-- common.RetryTimes and ProxySerivceTime, in nanoseconds
abbrev pub retry_times : ℕ
retry_times = 3

abbrev pub proxy_service_time : ℕ
proxy_service_time = 3600000000000

module _ (env : ProxyEnv) where
  -- AddClient
  unfoldable pub add_client : Bytes → ClientInfo → Manager → Manager
  add_client wn_id_hash info m = record m {
    client_wn_map = store m.client_wn_map wn_id_hash info;
    client_peer_map = store m.client_peer_map (env.id_string info.peer_id) info.white_noise_id;
  }

  -- RemoveClient
  unfoldable pub remove_client : Bytes → Manager → Manager
  remove_client peer_id_string m = elim (load m.client_peer_map peer_id_string) [
    | none ↦ record m { client_peer_map = delete m.client_peer_map peer_id_string }
    | some white_noise_id ↦ record m {
      client_wn_map = delete m.client_wn_map (Id.hash env.hashes white_noise_id);
      client_peer_map = delete m.client_peer_map peer_id_string;
    }
  ]

  -- UnRegisterClient
  abbrev pub un_register_client : Bytes → Manager → Manager
  un_register_client id m = remove_client (env.id_string id) m

-- GetClient
abbrev pub get_client : Manager → Bytes → Option ClientInfo
get_client m wn_id_hash = load m.client_wn_map wn_id_hash

-- AddNewCircuitTask
unfoldable pub add_new_circuit_task : Bytes → Bytes → Manager → Manager
add_new_circuit_task session_id white_noise_id m = record m {
  circuit_task = store m.circuit_task session_id white_noise_id;
}

-- GetCircuitTask
abbrev pub get_circuit_task : Manager → Bytes → Option Bytes
get_circuit_task m session_id = load m.circuit_task session_id
