-- ===== src/Boot/Sound.antt =====
-- A node that cmd/server/main.go has brought up is well formed, and stays so.
use high_performance_kv_stor.Prelude.{
  ◌≡◌, ◌&&◌, Bool-cases, inl, inr, List, [], ◌∷◌, Option, none, some,
}
use mathlib.Core.Path.{subst}
use high_performance_kv_stor.Prelude.Int.{pos, ltb_ℤ}
use high_performance_kv_stor.Cluster.Gossip.Threads.{Stage}
use high_performance_kv_stor.Store.Reap.Laws.{reap-IsValid}
use high_performance_kv_stor.Store.Snapshot.{Files}
use high_performance_kv_stor.Store.Start.{Started}
use high_performance_kv_stor.Store.Start.Total.{IsStarted, up, down, start_up-IsStarted}
use high_performance_kv_stor.Store.Threads.Sound.{create_snapshot-IsValid}
use high_performance_kv_stor.Cluster.Gossip.{GossipManager}
use high_performance_kv_stor.Cluster.Gossip.Threads.Sound.{move-IsPeerTable}
use high_performance_kv_stor.Config.{Config}
use high_performance_kv_stor.Api.Router.{Server}
use high_performance_kv_stor.Api.Router.Sound.{IsSound, serve-IsSound}
use high_performance_kv_stor.Boot.{
  Host, Running, Booted, serving, assemble, after_start, after_config, boot, Happening, requested,
  table_moved, reaped, compacted, proceed, proceed_all,
}

-- A boot that ends in a server, with a well-formed node.
abbrev IsUp : Booted → Type 0
IsUp (serving server gm) = IsSound server.node
IsUp _ = Unit {0}

after_start-IsUp : (cfg : Config) (out : Started) → IsStarted out → IsUp (after_start cfg out)
unfolding after_start assemble
after_start-IsUp cfg out (up s w e v linked) =
    rw e (elim (Bool-cases (ltb_ℤ (pos 0) cfg.reap_interval && ltb_ℤ (pos 0) cfg.gossip_interval)) [
      | inl tick ↦
          rw tick (record { store_valid = v; peers_valid = record { distinct = tt; named = tt } })
      | inr panic ↦ rw panic tt
    ])
after_start-IsUp cfg out (down f e real full) = rw e tt

after_config-IsUp : (host : Host) (cfg : Option Config) → IsUp (after_config host cfg)
unfolding after_config
after_config-IsUp host none = tt
after_config-IsUp host (some cfg) =
    after_start-IsUp cfg _ (start_up-IsStarted host.clock host.reads _ _ _)

boot-IsUp : (host : Host) → IsUp (boot host)
unfolding boot
boot-IsUp host = after_config-IsUp host _

proceed-IsSound :
    (h : Happening) (r : Running) → IsSound r.server.node → IsSound (proceed h r).server.node
unfolding proceed
proceed-IsSound (requested m req) r s = serve-IsSound m req r.server s
proceed-IsSound (table_moved mv) r s = record {
  store_valid = s.store_valid;
  peers_valid =
      move-IsPeerTable r.gossip mv (record { table = r.server.node.peers; stages = r.stages })
        s.peers_valid;
}
proceed-IsSound (reaped now) r s = record {
  store_valid = reap-IsValid now r.server.node.store s.store_valid;
  peers_valid = s.peers_valid;
}
proceed-IsSound (compacted vol now) r s = record {
  store_valid = create_snapshot-IsValid vol now r.files s.store_valid;
  peers_valid = s.peers_valid;
}

proceed_all-IsSound :
    (hs : List Happening) (r : Running)
    → IsSound r.server.node
    → IsSound (proceed_all hs r).server.node
proceed_all-IsSound [] r s = s
proceed_all-IsSound (h ∷ hs) r s = proceed_all-IsSound hs (proceed h r) (proceed-IsSound h r s)

-- Whatever the settings are and whatever the files hold: a node that comes up is well formed, its
-- store with the count of its keys and its table of peers, and after any sequence of requests,
-- single accesses of goroutines to the table of peers, reaps and snapshots it still is.
pub boot-IsSound :
    (host : Host) (server : Server) (gm : GossipManager) (files : Files) (stages : List Stage)
    (hs : List Happening)
    → boot host ≡ serving server gm
    → IsSound
        (proceed_all hs
          (record { server = server; gossip = gm; stages = stages; files = files })).server.node
boot-IsSound host server gm files stages hs e =
    proceed_all-IsSound hs (record { server = server; gossip = gm; stages = stages; files = files })
      (subst IsUp e (boot-IsUp host))
