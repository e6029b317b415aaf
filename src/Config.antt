-- ===== src/Config.antt =====
-- internal/config/config.go: the settings of a node, from the command line, the environment and the
-- defaults. What the strconv and fmt packages make of numbers and texts is an argument.
pub mod Sources
use high_performance_kv_stor.Prelude.{
  ℕ, suc, ◌-◌, ◌*◌, ◌%◌, ◌^◌, Bool, true, false, Option, none, some, String, string_eq, ◌==◌,
  if◌then◌else◌,
}
use high_performance_kv_stor.Prelude.Int.{ℤ, pos, negsuc}
use high_performance_kv_stor.Prelude.Table.{Table, lookup}
use high_performance_kv_stor.Cluster.Replication.{to_int64}

pub record Config : Type 0 where
  pub node_id : String
  pub port : ℤ
  pub data_dir : String
  pub seed_address : String
  pub gossip_interval : ℤ
  pub ping_timeout : ℤ
  pub suspicion_window : ℤ
  pub replication_timeout : ℤ
  pub reap_interval : ℤ
  pub advertise_addr : String

-- The flags of the command line, each with its value if it is given.
pub record Flags : Type 0 where
  pub node_id : Option String
  pub port : Option ℤ
  pub data_dir : Option String
  pub seed_addr : Option String
  pub advertise_addr : Option String
  pub gossip_interval_sec : Option ℤ
  pub ping_timeout_ms : Option ℤ
  pub suspicion_window_sec : Option ℤ
  pub replication_timeout_ms : Option ℤ
  pub reap_interval_sec : Option ℤ

-- strconv.Atoi, and fmt.Sprintf of "node-%d" and of "%s:%d".
pub record Formats : Type 0 where
  pub atoi : String → Option ℤ
  pub node_name : ℤ → String
  pub host_port : String → ℤ → String

abbrev pub Env : Type 0
Env = Table String String

unfoldable pub get_env : Env → String → String → String
get_env env key fallback = elim (lookup key env) [ none ↦ fallback | some val ↦ val ]

unfoldable pub get_env_int : Formats → Env → String → ℤ → ℤ
get_env_int formats env key fallback = elim (lookup key env) [
  | none ↦ fallback
  | some val ↦ elim (formats.atoi val) [ none ↦ fallback | some i ↦ i ]
]

-- A flag's value, or its default.
abbrev pub flag {ℓ} : {A : Type ℓ} → Option A → A → A
flag none default = default
flag (some value) default = value

-- `time.Duration(n) * unit`, an int64
unfoldable pub duration : ℕ → ℤ → ℤ
duration unit (pos n) = to_int64 (n * unit % 2 ^ 64)
duration unit (negsuc n) = to_int64 ((2 ^ 64 - suc n * unit % 2 ^ 64) % 2 ^ 64)

abbrev pub second : ℕ
second = 1000000000

abbrev pub millisecond : ℕ
millisecond = 1000000

-- A text, or another where it is empty.
abbrev pub unless_empty : String → String → String
unless_empty text fallback = if text == "" then fallback else text

-- What os.Hostname gives, or another name where it fails.
abbrev pub host_or : Option String → String → String
host_or none name = name
host_or (some host) name = host

-- The machine: its name, unless os.Hostname fails, and whether os.MkdirAll works.
unfoldable pub load : Formats → Env → Flags → Option String → Bool → Option Config
unfolding get_env get_env_int duration
load formats env flags hostname makes_dir =
    let port = flag flags.port (get_env_int formats env "KV_PORT" (pos 8080)) in
    let fallback_id : String = host_or hostname (formats.node_name port) in
    let host : String = host_or hostname "localhost" in
    let cfg : Config = record {
      node_id = unless_empty (flag flags.node_id (get_env env "KV_NODE_ID" "")) fallback_id;
      port = port;
      data_dir = flag flags.data_dir (get_env env "KV_DATA_DIR" "./data");
      seed_address = flag flags.seed_addr (get_env env "KV_SEED_ADDR" "");
      gossip_interval = duration second (
          flag flags.gossip_interval_sec
            (get_env_int formats env "KV_GOSSIP_INTERVAL_SEC" (pos 1)));
      ping_timeout =
          duration millisecond
            (flag flags.ping_timeout_ms (get_env_int formats env "KV_PING_TIMEOUT_MS" (pos 200)));
      suspicion_window = duration second (
          flag flags.suspicion_window_sec
            (get_env_int formats env "KV_SUSPICION_WINDOW_SEC" (pos 5)));
      replication_timeout = duration millisecond (
          flag flags.replication_timeout_ms
            (get_env_int formats env "KV_REPLICATION_TIMEOUT_MS" (pos 500)));
      reap_interval =
          duration second
            (flag flags.reap_interval_sec (get_env_int formats env "KV_REAP_INTERVAL_SEC" (pos 5)));
      advertise_addr =
          unless_empty (flag flags.advertise_addr (get_env env "KV_ADVERTISE_ADDR" ""))
            (formats.host_port host port);
    } in
    if makes_dir then some cfg else none
