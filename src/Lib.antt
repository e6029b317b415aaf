-- ===== src/Lib.antt =====
-- A model of the high-performance key-value store, a Go program in which every node keeps the whole
-- key space in memory, logs its writes, and replicates them to the peers that gossip has found.
--
-- The parts and their files:
--   Prelude        numbers, lists over native numbers, equality of texts and byte strings, their
--                  order, 64-bit integers as ℤ, and tables (association lists) for Go's maps
--   Store.Entry    internal/store/entry.go: Entry, IsExpired (is_expired)
--   Store.Hash     the checksums of hash/fnv and hash/crc32 that the store and the log call
--   Store.Wal      internal/store/wal.go: WAL, Append (append)
--   Store.Wal.Read internal/store/wal.go: Replay (replay), one round of its loop is read_round
--   Store.State    internal/store/store.go: Store, NewStore, NextVersion (next_version), getShard,
--                  Get, Set, Delete (delete_key), SetWAL
--   Store.Sort     internal/store/store.go: sortStrings, quickSort, partition
--   Store.Scan     internal/store/store.go: Scan (scan), a page of keys
--   Store.Reap     internal/store/store.go: reap
--   Store.Snapshot internal/store/snapshot.go: CreateSnapshot (create_snapshot), LoadSnapshot
--   Store.Start    cmd/server/main.go: the start, from the snapshot and the log (start_up), and the
--                  histories of a node; internal/store/wal.go: NewWAL (new_wal)
--   Store.Start.Shutdown  cmd/server/main.go: the final snapshot and Close (shut_down);
--                  internal/store/store.go: the reaper's goroutine (reaper_loop) and Close; the lives
--                  of a node are in Store.Start.Lives
--   Store.Threads  internal/store/store.go and internal/store/snapshot.go: the calls of several
--                  goroutines, one critical section at a time (advance), in every interleaving (Run)
--   Store.Recovery cmd/server/main.go: the callback that replays the log (replay_record)
--   Cluster.Peer   internal/cluster/peer.go: PeerManager as a table, AddOrUpdate and the rest
--   Cluster.Gossip internal/cluster/gossip.go: tick, pingPeer, MergePeers, checkSuspicious
--   Cluster.Gossip.Threads  all goroutines at the table of peers: each access is a step (resume),
--                  and a move begins a goroutine or lets one take its next step (move)
--   Cluster.Replication  internal/cluster/replication.go: Replicate (replicate) and the lag
--   Metrics        internal/metrics/metrics.go: the counters and histograms, and WritePrometheus as
--                  lines; cmd/server/main.go: the counts of peers
--   Config         internal/config/config.go: Load (load)
--   Api            internal/api/handlers.go: the handlers, on the state of a node (Api.Node,
--                  internal/api/router.go: API); those of the cluster are in Api.Members
--   Api.Agreement  the requests of a cluster as they arrive at its nodes
--   Api.Router     internal/api/router.go and internal/api/middleware.go: a request from its pattern
--                  to its answer and its metrics (serve)
--   Client         pkg/client/client.go: the requests, and what becomes of the answers
--   Boot           cmd/server/main.go: the whole start (boot), and what the goroutines of a node that
--                  is up do (proceed)
--   Examples       concrete runs of the theorems
--
-- How they interact: a handler calls the store and, after a write that worked, the replicator, which
-- reads the peer table and sends a request to each live peer; the peer's handler of that request
-- calls its own store. The store draws a version, appends a record to the log and then changes the
-- map of one shard. At start the snapshot is loaded and the log is replayed into a store that has no
-- log, and the log is then linked. A ticker makes a snapshot of the store and empties the log. The
-- middleware counts each answer of the router, and the metrics route prints the counts.
--
-- State and effects. A store is a record: its 32 shards (tables from byte strings to entries), its
-- log if it has one, the last version drawn and the count of keys. Each operation takes a state to
-- a new one and a result; code under a lock is one function. The clock is an argument, one number
-- for each reading of time.Now() in nanoseconds after the Unix epoch; two readings in a row inside
-- AddOrUpdate are one. The disk is an argument of append: it works, or cuts the write after some
-- bytes, or fails to sync. The file is its bytes; a read of it may end in an error (Reads). The
-- network is the outcome of each request. A Go map's order of iteration is the order of its table.
-- In a snapshot each step of the disk works or fails (Volume), and a write that fails leaves some
-- first bytes. A history of a node (Store.Start.History) is a sequence of writes without an expiry
-- on a healthy disk, snapshots on any disk, and restarts. A life (Store.Start.Lives) is a sequence of
-- sessions: runs of calls that may have expiries and errors of the log, each ended by a shutdown that
-- works and a start.
--
-- Goroutines. A call of the store is a point, which says where it stands and what its local variables
-- hold; a step takes it through one section under a lock or one atomic draw. A run starts calls and
-- takes steps of any of them. CreateSnapshot is one step, since it holds the locks of all shards.
-- The theorems on one call at a time speak of functions that are one goroutine with the store to
-- itself; Store.Threads.Alone relates them to these steps. The goroutines at the table of
-- peers are such steps too: a tick, a merge and a check copy peers and write later, so a copy may be
-- out of date by then. The functions ping_peer, merge_peers and check_suspicious are one goroutine
-- with the table to itself; theorems on them speak of that case.
--
-- Numbers. uint64 versions wrap around where the source adds to them; durations are int64 where the
-- source multiplies (ttl_of) and subtracts (lag_difference); the bits of an int are an argument where
-- the source converts to int (to_int). Times do not reach the end of int64.
--
-- Fuel. replay_loop takes a fuel of one more than the length of the log, and load_loop one of one
-- more than the bytes after a snapshot's header; each round reads eight bytes or more, so both are
-- enough for every content of the file. quick_sort takes the length of its range, and each of its
-- calls is on a shorter range.
--
-- Not modelled: the times of the tickers and the scheduler's choice (an event or a step may come at
-- any time), signals and the drain of the HTTP server, JSON, HTTP and the match of paths themselves,
-- the closing of files except for the log, the log's Path, the dashboard and the deployment.
pub mod Prelude
pub mod Store
pub mod Cluster
pub mod Api
pub mod Metrics
pub mod Config
pub mod Client
pub mod Boot
pub mod Examples
