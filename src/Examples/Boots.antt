-- ===== src/Examples/Boots.antt =====
-- Runs of the theorems on the start of a node.
use high_performance_kv_stor.Prelude.{◌≡◌, refl, [], ◌∷◌, some, string_eq, true}
use high_performance_kv_stor.Prelude.Int.{pos}
use high_performance_kv_stor.Prelude.Table.{lookup}
use high_performance_kv_stor.Store.Wal.Read.{good_reads, replay, read_round, read_full}
use high_performance_kv_stor.Store.Snapshot.{missing, opened}
use high_performance_kv_stor.Store.Start.{contents, start_up}
use high_performance_kv_stor.Store.Start.Total.{IsStarted, start_up-IsStarted}
use high_performance_kv_stor.Cluster.Gossip.{GossipManager, unreachable}
use high_performance_kv_stor.Cluster.Gossip.Threads.{Moment, greeting, begins, goes}
use high_performance_kv_stor.Store.Snapshot.{load_snapshot}
use high_performance_kv_stor.Metrics.{request_eq, histogram_eq}
use high_performance_kv_stor.Config.{load}
use high_performance_kv_stor.Cluster.Replication.{to_int64}
use high_performance_kv_stor.Api.Router.{Server}
use high_performance_kv_stor.Api.Router.Sound.{IsSound}
use high_performance_kv_stor.Boot.{
  Host, Booted, serving, boot, requested, table_moved, reaped, proceed_all,
}
use high_performance_kv_stor.Boot.Sound.{boot-IsSound}
use high_performance_kv_stor.Examples.Servers.{formats, no_flags, server, machine, put_a}
use high_performance_kv_stor.Examples.Data.{gossip}
use high_performance_kv_stor.Examples.Restarts.{evening}
use high_performance_kv_stor.Examples.Snapshots.{torn_snapshot, no_files}

start_up-IsStarted_example :
    IsStarted
      (start_up evening good_reads "wal.log" (opened true torn_snapshot) (contents (0 ∷ [])))
start_up-IsStarted_example =
    start_up-IsStarted evening good_reads "wal.log" (opened true torn_snapshot) (contents (0 ∷ []))

-- A host with an empty data directory and the default settings.
abbrev host : Host
host = record {
  formats = formats;
  env = [];
  flags = no_flags;
  hostname = some "n1";
  makes_dir = true;
  join = λ dir name. name;
  snapshot_at = λ path. missing;
  log_at = λ path. contents [];
  reads = good_reads;
  clock = evening;
}

abbrev server_of : Booted → Server
server_of (serving up gm) = up
server_of _ = server

abbrev gossip_of : Booted → GossipManager
gossip_of (serving up gm) = gm
gossip_of _ = gossip

host-serves : boot host ≡ serving (server_of (boot host)) (gossip_of (boot host))
unfolding boot load start_up load_snapshot replay read_round read_full lookup to_int64
host-serves = refl

abbrev greeted : Moment
greeted = record { bits = 64; nanos = pos 320; now = 320; rtt = pos 0; outcome = unreachable }

boot-IsSound_example :
    IsSound
      (proceed_all
        (requested machine put_a
          ∷ table_moved (begins (greeting "n4" "10.0.0.4:8080"))
          ∷ table_moved (goes 0 greeted)
          ∷ reaped 9000
          ∷ [])
        (record {
          server = server_of (boot host);
          gossip = gossip_of (boot host);
          stages = [];
          files = no_files;
        })).server.node
boot-IsSound_example =
    boot-IsSound host (server_of (boot host)) (gossip_of (boot host)) no_files []
      (requested machine put_a
        ∷ table_moved (begins (greeting "n4" "10.0.0.4:8080"))
        ∷ table_moved (goes 0 greeted)
        ∷ reaped 9000
        ∷ [])
      host-serves
