-- ===== src/Boot.antt =====
-- cmd/server/main.go as a whole: the parts of a node are put together, and then requests, pings, reaps
-- and snapshots come in any order.
pub mod Sound
use high_performance_kv_stor.Prelude.{
  ℕ, Bool, ◌&&◌, if◌then◌else◌, List, [], ◌∷◌, Option, none, some, String,
}
use high_performance_kv_stor.Prelude.Int.{pos, ltb_ℤ}
use high_performance_kv_stor.Store.State.{Store}
use high_performance_kv_stor.Store.Reap.{reap}
use high_performance_kv_stor.Store.Wal.Read.{Reads}
use high_performance_kv_stor.Store.Recovery.{Reading}
use high_performance_kv_stor.Store.Snapshot.{Files, Volume, SnapshotFile, create_snapshot}
use high_performance_kv_stor.Store.Start.{LogFile, StartError, Started, fatal, running, start_up}
use high_performance_kv_stor.Cluster.Peer.{new_peer_manager}
use high_performance_kv_stor.Cluster.Gossip.{GossipManager, new_gossip_manager}
use high_performance_kv_stor.Cluster.Gossip.Threads.{Stage, Members, Move, move}
use high_performance_kv_stor.Cluster.Replication.{new_replicator}
use high_performance_kv_stor.Metrics.{new_metrics_collector}
use high_performance_kv_stor.Config.{Config, Flags, Formats, Env, load}
use high_performance_kv_stor.Api.{Node}
use high_performance_kv_stor.Api.Router.{Server, Machine, Request, serve}

-- What the start finds: the settings, the files, the clock, and filepath.Join.
pub record Host : Type 0 where
  pub formats : Formats
  pub env : Env
  pub flags : Flags
  pub hostname : Option String
  pub makes_dir : Bool
  pub join : String → String → String
  pub snapshot_at : String → SnapshotFile
  pub log_at : String → LogFile
  pub reads : Reads
  pub clock : ℕ → Reading

-- The server and the gossip of a node that is up, with the goroutines that are at the table of peers.
pub record Running : Type 0 where
  pub server : Server
  pub gossip : GossipManager
  pub stages : List Stage
  pub files : Files

pub data Booted : Type 0 where
  unconfigured : Booted
  unstarted : StartError → Booted
  ticker_panics : Booted
  serving : Server → GossipManager → Booted

-- Steps 7, 8 and 10.
abbrev assembled : Config → Store → Booted
assembled cfg s =
    serving
      (record {
        node = record {
          store = s;
          peers = new_peer_manager;
          replicator = new_replicator cfg.node_id;
        };
        collector = new_metrics_collector;
        cfg = cfg;
      })
      (new_gossip_manager cfg.node_id cfg.advertise_addr cfg.seed_address cfg.suspicion_window)

-- Steps 6 to 10: the tickers of the reaper and of the gossip loop panic for an interval that is not
-- positive.
unfoldable pub assemble : Config → Store → Booted
assemble cfg s =
    if ltb_ℤ (pos 0) cfg.reap_interval && ltb_ℤ (pos 0) cfg.gossip_interval
    then assembled cfg s
    else ticker_panics

unfoldable pub after_start : Config → Started → Booted
unfolding assemble
after_start cfg (fatal e) = unstarted e
after_start cfg (running s) = assemble cfg s

unfoldable pub after_config : Host → Option Config → Booted
unfolding after_start
after_config host none = unconfigured
after_config host (some cfg) =
    let log = host.join cfg.data_dir "wal.log" in
    let snapshot = host.join cfg.data_dir "snapshot.bin" in
    after_start cfg
      (start_up host.clock host.reads log (host.snapshot_at snapshot) (host.log_at log))

unfoldable pub boot : Host → Booted
unfolding after_config
boot host = after_config host (load host.formats host.env host.flags host.hostname host.makes_dir)

-- What the goroutines of a node that is up do, each at its time.
pub data Happening : Type 0 where
  requested : Machine → Request → Happening
  table_moved : Move → Happening
  reaped : ℕ → Happening
  compacted : Volume → ℕ → Happening

unfoldable pub proceed : Happening → Running → Running
proceed (requested m req) r = record r { server = (serve m req r.server).0 }
proceed (table_moved mv) r =
    let t = move r.gossip mv (record { table = r.server.node.peers; stages = r.stages }) in
    record r {
      server = record r.server { node = record r.server.node { peers = t.table } };
      stages = t.stages;
    }
proceed (reaped now) r = record r {
  server = record r.server { node = record r.server.node { store = reap now r.server.node.store } };
}
proceed (compacted vol now) r =
    let (files, s, error) = create_snapshot vol now r.files r.server.node.store in
    record r {
      server = record r.server { node = record r.server.node { store = s } };
      files = files;
    }

abbrev pub proceed_all : List Happening → Running → Running
proceed_all [] r = r
proceed_all (h ∷ hs) r = proceed_all hs (proceed h r)
