-- ===== src/Config/Sources.antt =====
-- Where the settings of internal/config/config.go come from, and what becomes of an interval.
use high_performance_kv_stor.Prelude.{
  ℕ, ◌*◌, ◌^◌, ◌<◌, ◌≡◌, ◌≢◌, ◌⊎◌, inl, inr, refl, ap, Bool, true, false, Option, none, some, arith,
  String, string_eq, ◌==◌, Bool-cases,
}
use high_performance_kv_stor.Prelude.Int.{ℤ, pos}
use high_performance_kv_stor.Cluster.Replication.{to_int64}
use high_performance_kv_stor.Config.{
  Config, Flags, Formats, Env, get_env, get_env_int, flag, duration, second, millisecond,
  unless_empty, host_or, load,
}

-- An int64 of nanoseconds holds this many units of a positive number, and they are exact.
duration-exact : (unit n : ℕ) → n * unit < 2 ^ 63 → duration unit (pos n) ≡ pos (n * unit)
unfolding duration to_int64
duration-exact unit n h = ground arith

unless_empty-named : (text fallback : String) → fallback ≢ "" → unless_empty text fallback ≢ ""
unless_empty-named text fallback named = elim (Bool-cases (text == "")) [
  | inl empty ↦ rw empty named
  | inr full ↦ rw full (λ e. ground (arith, string_eq.same_iff text "", e, full))
]

host_or-named :
    (hostname : Option String) (name : String)
    → name ≢ ""
    → hostname ≢ some ""
    → host_or hostname name ≢ ""
host_or-named none name h named = h
host_or-named (some host) name h named = λ e. named (ap some e)

-- The flags with a number for each interval.
abbrev pub with_intervals : ℕ → ℕ → ℕ → ℕ → ℕ → Flags → Flags
with_intervals gossip ping suspicion replication reap flags = record flags {
  gossip_interval_sec = some (pos gossip);
  ping_timeout_ms = some (pos ping);
  suspicion_window_sec = some (pos suspicion);
  replication_timeout_ms = some (pos replication);
  reap_interval_sec = some (pos reap);
}

-- The intervals of a configuration, in nanoseconds.
pub record HasIntervals (gossip ping suspicion replication reap : ℕ) (cfg : Config) : Type 0 where
  pub gossip_interval : cfg.gossip_interval ≡ pos (gossip * second)
  pub ping_timeout : cfg.ping_timeout ≡ pos (ping * millisecond)
  pub suspicion_window : cfg.suspicion_window ≡ pos (suspicion * second)
  pub replication_timeout : cfg.replication_timeout ≡ pos (replication * millisecond)
  pub reap_interval : cfg.reap_interval ≡ pos (reap * second)

module _ (formats : Formats) (env : Env) (flags : Flags) (hostname : Option String) where
  -- If the command line gives the five intervals, and their nanoseconds fit an int64, Load succeeds
  -- once the data directory is made, and has exactly these intervals, an interval of 0 included,
  -- whatever the environment says.
  pub load-intervals :
      (gossip ping suspicion replication reap : ℕ)
      → gossip * second < 2 ^ 63
      → ping * millisecond < 2 ^ 63
      → suspicion * second < 2 ^ 63
      → replication * millisecond < 2 ^ 63
      → reap * second < 2 ^ 63
      → let given = with_intervals gossip ping suspicion replication reap flags in
        (cfg : Config) × (load formats env given hostname true ≡ some cfg)
        × HasIntervals gossip ping suspicion replication reap cfg
  unfolding load
  load-intervals gossip ping suspicion replication reap g p s r e = (
    _,
    refl,
    record {
      gossip_interval = duration-exact second gossip g;
      ping_timeout = duration-exact millisecond ping p;
      suspicion_window = duration-exact second suspicion s;
      replication_timeout = duration-exact millisecond replication r;
      reap_interval = duration-exact second reap e;
    },
  )

  -- Load fails only if the data directory cannot be made. Otherwise the node has an id and an
  -- address, provided that the host's name is not empty and the names made of the port are not.
  pub load_named :
      (makes_dir : Bool)
      → ((port : ℤ) → formats.node_name port ≢ "")
      → ((host : String) (port : ℤ) → formats.host_port host port ≢ "")
      → hostname ≢ some ""
      → ((makes_dir ≡ false) × (load formats env flags hostname makes_dir ≡ none))
        ⊎ ((cfg : Config) × (load formats env flags hostname makes_dir ≡ some cfg)
            × (cfg.node_id ≢ "")
            × (cfg.advertise_addr ≢ ""))
  unfolding load
  load_named false numbered addressed named = inl (refl, refl)
  load_named true numbered addressed named =
      let port = flag flags.port (get_env_int formats env "KV_PORT" (pos 8080)) in
      inr (
        _,
        refl,
        unless_empty-named (flag flags.node_id (get_env env "KV_NODE_ID" "")) _
            (host_or-named hostname (formats.node_name port) (numbered port) named),
        unless_empty-named (flag flags.advertise_addr (get_env env "KV_ADVERTISE_ADDR" "")) _
            (addressed (host_or hostname "localhost") port),
      )
