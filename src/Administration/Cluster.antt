-- ===== src/Administration/Cluster.antt =====
-- netbox_openbao/administration/cluster.py: the typed copies of what the server says of its seal,
-- its leader, its nodes and its Raft peers.
pub mod Peers
use netbox_openbao.Prelude.{
  ℕ, zero, suc, String, Bool, true, false, Option, none, some, List, [], ◌∷◌, not, ◌&&◌, ◌||◌, ltb,
  leb, ◌==◌, str_eq, length, contains_text, first, map, print_number, if◌then◌else◌,
}
use Prim.Native.Char.{code}
use netbox_openbao.Errors.{Exn, capability_schema}
use netbox_openbao.Exec.{Outcome, ok, raise}
use netbox_openbao.Exec.Outcomes.{◌>>=◌, ◌>>◌, guard, each}
use netbox_openbao.Json.{
  ℤ, pos, negsuc, Value, null, bool, int, text, array, object, Items, nil, cons, Fields, entries,
}
use netbox_openbao.Administration.Values.{
  returned_invalid, get_or, mapping, boolean, integer, string_of, optional_string,
}

pub record SealStatus : Type 0 where
  pub initialized : Bool
  pub sealed : Bool
  pub threshold : ℕ
  pub shares : ℕ
  pub progress : ℕ
  pub version : String
  pub seal_type : String
  pub migration : Bool
  pub recovery_seal : Bool
  pub storage_type : String
  pub cluster_name : String
  pub cluster_id : String

pub record LeaderStatus : Type 0 where
  pub ha_enabled : Bool
  pub is_self : Bool
  pub leader_address : String
  pub leader_cluster_address : String
  pub active_time : String
  pub raft_committed_index : ℕ
  pub raft_applied_index : ℕ

pub record HaNode : Type 0 where
  pub hostname : String
  pub api_address : String
  pub cluster_address : String
  pub active_node : Bool
  pub last_echo : String
  pub version : String

pub record RaftPeer : Type 0 where
  pub node_id : String
  pub address : String
  pub leader : Bool
  pub voter : Bool
  pub protocol_version : String

pub record RaftConfiguration : Type 0 where
  pub index : ℕ
  pub peers : List RaftPeer

pub record InitializationResult : Type 0 where
  pub keys : List String
  pub keys_base64 : List String
  pub recovery_keys : List String
  pub recovery_keys_base64 : List String
  pub root_token : String

abbrev pub max_ha_nodes : ℕ
max_ha_nodes = 256

abbrev pub max_raft_peers : ℕ
max_raft_peers = 256

unfoldable pub items : Items → List Value
items nil = []
items (cons v rest) = v ∷ items rest

unfoldable pub normalize_seal_status : Value → Outcome SealStatus
unfolding mapping boolean integer optional_string get_or
normalize_seal_status payload = do
  value ← mapping payload "seal status"
  initialized ← boolean (get_or "initialized" null value) "initialized state"
  sealed ← boolean (get_or "sealed" null value) "sealed state"
  threshold ← integer (get_or "t" (int (pos 0)) value) "seal threshold"
  shares ← integer (get_or "n" (int (pos 0)) value) "seal share count"
  progress ← integer (get_or "progress" (int (pos 0)) value) "unseal progress"
  version ← optional_string (get_or "version" null value) "version" 64
  seal_type ← optional_string (get_or "type" null value) "seal type" 64
  migration ← boolean (get_or "migration" (bool false) value) "migration state"
  recovery_seal ← boolean (get_or "recovery_seal" (bool false) value) "recovery seal state"
  storage_type ← optional_string (get_or "storage_type" null value) "storage type" 64
  cluster_name ← optional_string (get_or "cluster_name" null value) "cluster name" 200
  cluster_id ← optional_string (get_or "cluster_id" null value) "cluster ID" 200
  ok (record {
    initialized = initialized;
    sealed = sealed;
    threshold = threshold;
    shares = shares;
    progress = progress;
    version = version;
    seal_type = seal_type;
    migration = migration;
    recovery_seal = recovery_seal;
    storage_type = storage_type;
    cluster_name = cluster_name;
    cluster_id = cluster_id;
  })

unfoldable pub normalize_leader_status : Value → Outcome LeaderStatus
unfolding mapping boolean integer optional_string get_or
normalize_leader_status payload = do
  value ← mapping payload "leader status"
  ha_enabled ← boolean (get_or "ha_enabled" null value) "HA enabled state"
  is_self ← boolean (get_or "is_self" (bool false) value) "leader self state"
  leader_address ← optional_string (get_or "leader_address" null value) "leader address" 500
  leader_cluster_address ←
      optional_string (get_or "leader_cluster_address" null value) "leader cluster address" 500
  active_time ← optional_string (get_or "active_time" null value) "leader active time" 100
  raft_committed_index ←
      integer (get_or "raft_committed_index" (int (pos 0)) value) "Raft committed index"
  raft_applied_index ←
      integer (get_or "raft_applied_index" (int (pos 0)) value) "Raft applied index"
  ok (record {
    ha_enabled = ha_enabled;
    is_self = is_self;
    leader_address = leader_address;
    leader_cluster_address = leader_cluster_address;
    active_time = active_time;
    raft_committed_index = raft_committed_index;
    raft_applied_index = raft_applied_index;
  })

-- `_normalize_ha_node`
unfoldable pub normalize_ha_node : Value → Outcome HaNode
unfolding mapping boolean string_of optional_string get_or
normalize_ha_node v = do
  node ← mapping v "HA node"
  hostname ← string_of (get_or "hostname" (text "") node) "HA hostname" 255 false
  api_address ← optional_string (get_or "api_address" null node) "HA API address" 500
  cluster_address ← optional_string (get_or "cluster_address" null node) "HA cluster address" 500
  active_node ← boolean (get_or "active_node" null node) "HA active state"
  last_echo ← optional_string (get_or "last_echo" null node) "HA last echo" 100
  version ← optional_string (get_or "version" null node) "HA node version" 64
  ok (record {
    hostname = hostname;
    api_address = api_address;
    cluster_address = cluster_address;
    active_node = active_node;
    last_echo = last_echo;
    version = version;
  })

-- `if not isinstance(value, list) or len(value) > limit: raise`
unfoldable pub bounded_items : Value → ℕ → Exn → Outcome (List Value)
unfolding items
bounded_items (array vs) limit e = guard (leb (length (items vs)) limit) e >> ok (items vs)
bounded_items _ limit e = raise e

-- `normalize_ha_status`; the nodes are what the class `HAStatus` holds.
unfoldable pub normalize_ha_status : Value → Outcome (List HaNode)
unfolding mapping get_or bounded_items normalize_ha_node each
normalize_ha_status payload = do
  value ← mapping payload "HA status"
  nodes ←
      bounded_items (get_or "nodes" (get_or "Nodes" null value) value) max_ha_nodes
        (returned_invalid "HA nodes")
  each normalize_ha_node nodes

-- `str(ord(character))`, of a text of one control character.
control_number : String → Option String
unfolding print_number
control_number (String.◌∷◌ c String.[]) =
    if ltb (code c) 32 then some (print_number (code c)) else none
control_number _ = none

-- `str(n)`
print_integer : ℤ → String
unfolding print_number
print_integer (pos n) = print_number n
print_integer (negsuc n) = netbox_openbao.Prelude.◌<>◌ "-" (print_number (suc n))

-- The first lines of `_normalize_raft_peer`.
protocol_of : Value → Outcome String
unfolding control_number print_integer optional_string
protocol_of (int n) = ok (print_integer n)
protocol_of (text s) = elim (control_number s) [
  | some number ↦ ok number
  | none ↦ optional_string (text s) "Raft protocol version" 32
]
protocol_of v = optional_string v "Raft protocol version" 32

unfoldable pub normalize_raft_peer : Value → Outcome RaftPeer
unfolding mapping boolean string_of get_or protocol_of
normalize_raft_peer v = do
  peer ← mapping v "Raft peer"
  protocol_version ← protocol_of (get_or "protocol_version" null peer)
  node_id ← string_of (get_or "node_id" (text "") peer) "Raft node ID" 200 false
  address ← string_of (get_or "address" (text "") peer) "Raft address" 500 false
  leader ← boolean (get_or "leader" null peer) "Raft leader state"
  voter ← boolean (get_or "voter" null peer) "Raft voter state"
  ok (record {
    node_id = node_id;
    address = address;
    leader = leader;
    voter = voter;
    protocol_version = protocol_version;
  })

-- `len(set(texts)) == len(texts)`
unfoldable pub all_different : List String → Bool
all_different [] = true
all_different (s ∷ rest) = not (contains_text rest s) && all_different rest

unfoldable pub normalize_raft_configuration : Value → Outcome RaftConfiguration
unfolding mapping integer get_or bounded_items each all_different
normalize_raft_configuration payload = do
  value ← mapping payload "Raft configuration"
  data_of ← mapping (get_or "data" (object value) value) "Raft configuration data"
  config ← mapping (get_or "config" (object data_of) data_of) "Raft configuration object"
  servers ←
      bounded_items (get_or "servers" null config) max_raft_peers (returned_invalid "Raft peers")
  peers ← each normalize_raft_peer servers
  guard (all_different (map (λ peer. peer.node_id) peers))
      (capability_schema "OpenBao returned duplicate Raft node IDs.")
  index ← integer (get_or "index" null config) "Raft configuration index"
  ok (record { index = index; peers = peers })

-- `RaftConfiguration.peer`
unfoldable pub peer : RaftConfiguration → String → Option RaftPeer
peer config node_id = first (λ p. str_eq p.node_id node_id) config.peers

-- `_material_list`
unfoldable pub material_list : Value → String → Outcome (List String)
unfolding bounded_items each string_of
material_list null name = ok []
material_list v name =
    bounded_items v 64 (returned_invalid name) >>= each (λ item. string_of item name 20000 false)

unfoldable pub normalize_initialization_result : Value → Outcome InitializationResult
unfolding mapping material_list get_or string_of
normalize_initialization_result payload = do
  value ← mapping payload "initialization result"
  keys ← material_list (get_or "keys" null value) "unseal keys"
  keys_base64 ← material_list (get_or "keys_base64" null value) "base64 unseal keys"
  recovery_keys ← material_list (get_or "recovery_keys" null value) "recovery keys"
  recovery_keys_base64 ←
      material_list (get_or "recovery_keys_base64" null value) "base64 recovery keys"
  root_token ← string_of (get_or "root_token" (text "") value) "initial root token" 20000 false
  ok (record {
    keys = keys;
    keys_base64 = keys_base64;
    recovery_keys = recovery_keys;
    recovery_keys_base64 = recovery_keys_base64;
    root_token = root_token;
  })
