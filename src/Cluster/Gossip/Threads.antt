-- ===== src/Cluster/Gossip/Threads.antt =====
-- The goroutines of internal/cluster/gossip.go on the table of peers, with the pings that
-- internal/api/handlers.go answers and the lag that internal/cluster/replication.go measures. Each
-- access to the table is one step under its lock, and between two of them any other goroutine may go,
-- so what a goroutine has copied may be out of date when it writes.
pub mod Sound
pub mod Dead
pub mod Dying
pub mod Checked
pub mod Stale
use high_performance_kv_stor.Prelude.{
  ℕ, Bool, true, false, ◌&&◌, List, [], ◌∷◌, ◌++◌, Option, none, some, String, string_eq, ◌==◌,
  if◌then◌else◌, get_or, set as set_at,
}
use high_performance_kv_stor.Prelude.Int.{ℤ}
use high_performance_kv_stor.Prelude.Table.{delete}
use high_performance_kv_stor.Cluster.Peer.{
  Peer, PeerManager, new_peer, add_or_update, get, get_all, update_rtt, update_lag, state_alive,
  state_suspect, state_dead,
}
use high_performance_kv_stor.Cluster.Gossip.{
  GossipManager, Picked, nobody, index_panics, target, tick, PingOutcome, unreachable, bad_status,
  unread, answered, id_at, suspect_if_alive, window_over,
}
use high_performance_kv_stor.Cluster.Gossip.Merge.{verdict}

-- Where a goroutine stands, with what its local variables hold: copies of peers, the id under which
-- an answer counts, and the rest of the list that it goes through. The times in an answer's list are
-- those of merge_peers; here each write reads the clock. A panic would end the whole process.
pub data Stage : Type 0 where
  starting ticking checking : Stage
  greeting : String → String → Stage
  measuring : String → ℤ → Stage
  pinging : Peer → Stage
  unseeding noting : Peer → String → List (ℕ × Peer) → Stage
  timing : String → List (ℕ × Peer) → Stage
  merging : List (ℕ × Peer) → Stage
  writing : Peer → String → List (ℕ × Peer) → Stage
  expiring : ℕ → List Peer → Stage
  panicked ended : Stage

-- What a step finds: the bits of an int, the clock, how long a ping took, and how it ended.
pub record Moment : Type 0 where
  pub bits : ℕ
  pub nanos : ℤ
  pub now : ℕ
  pub rtt : ℤ
  pub outcome : PingOutcome

abbrev pub after_tick : Picked → Stage
after_tick nobody = ended
after_tick index_panics = panicked
after_tick (target p) = pinging p

-- An answer with a peer list: whose id it counts for.
abbrev pub after_answer : Peer → List (ℕ × Peer) → Stage
after_answer p remote =
    if p.node_id == "seed"
    then elim (id_at p.address remote) [
      | none ↦ noting p p.node_id remote
      | some actual ↦ unseeding p actual remote
    ]
    else noting p p.node_id remote

abbrev pub after_ping : ℕ → Peer → PingOutcome → PeerManager → PeerManager × Stage
after_ping now p unreachable pm = (suspect_if_alive now p pm, ended)
after_ping now p bad_status pm = (suspect_if_alive now p pm, ended)
after_ping now p unread pm = (pm, ended)
after_ping now p (answered remote) pm = (pm, after_answer p remote)

-- The read of a round of `MergePeers`, and what it decides.
abbrev pub after_read : Peer → List (ℕ × Peer) → Option String → Stage
after_read rp remote none = merging remote
after_read rp remote (some state) = writing rp state remote

unfoldable pub resume : GossipManager → Moment → Stage → PeerManager → PeerManager × Stage
resume gm m starting pm = if gm.seed_addr == "" then (pm, ended) else (
  add_or_update m.now "seed" gm.seed_addr state_alive pm,
  pinging (new_peer "seed" gm.seed_addr),
)
resume gm m ticking pm = (pm, after_tick (tick gm m.bits m.nanos pm))
resume gm m (pinging p) pm = after_ping m.now p m.outcome pm
resume gm m (unseeding p actual remote) pm = (delete "seed" pm, noting p actual remote)
resume gm m (noting p actual remote) pm =
    (add_or_update m.now actual p.address state_alive pm, timing actual remote)
resume gm m (timing actual remote) pm = (update_rtt m.now actual m.rtt pm, merging remote)
resume gm m (merging []) pm = (pm, ended)
resume gm m (merging ((time, rp) ∷ remote)) pm =
    if rp.node_id == gm.node_id
    then (pm, merging remote)
    else (pm, after_read rp remote (verdict gm (get rp.node_id pm) rp))
resume gm m (writing rp state remote) pm =
    (add_or_update m.now rp.node_id rp.address state pm, merging remote)
resume gm m checking pm = (pm, expiring m.now (get_all pm))
resume gm m (expiring now []) pm = (pm, ended)
resume gm m (expiring now (p ∷ peers)) pm =
    if p.state == state_suspect && window_over now p.suspicious_at gm.suspicion_window
    then (add_or_update m.now p.node_id p.address state_dead pm, expiring now peers)
    else (pm, expiring now peers)
resume gm m (greeting id address) pm = (add_or_update m.now id address state_alive pm, ended)
resume gm m (measuring id lag) pm = (update_lag id lag pm, ended)
resume gm m panicked pm = (pm, panicked)
resume gm m ended pm = (pm, ended)

-- The stages at which a goroutine begins.
abbrev pub is_start : Stage → Bool
is_start starting = true
is_start ticking = true
is_start checking = true
is_start (greeting id address) = true
is_start (measuring id lag) = true
is_start _ = false

-- The table and the goroutines that are under way.
pub record Members : Type 0 where
  pub table : PeerManager
  pub stages : List Stage

pub data Move : Type 0 where
  begins : Stage → Move
  goes : ℕ → Moment → Move

-- A goroutine begins, or the one at an index takes its next step.
unfoldable pub move : GossipManager → Move → Members → Members
unfolding resume
move gm (begins s) t = if is_start s then record t { stages = t.stages ++ s ∷ [] } else t
move gm (goes i m) t =
    let (table, s) = resume gm m (get_or t.stages i ended) t.table in
    record { table = table; stages = set_at t.stages i s }

abbrev pub run : GossipManager → List Move → Members → Members
run gm [] t = t
run gm (mv ∷ moves) t = run gm moves (move gm mv t)
