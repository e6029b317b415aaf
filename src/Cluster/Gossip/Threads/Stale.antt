-- ===== src/Cluster/Gossip/Threads/Stale.antt =====
-- What a goroutine of internal/cluster/gossip.go does with a copy of a peer that is out of date.
use mathlib.Core.Path.{subst}
use text.Mathlib.TextEquality.{eq_iff}
use high_performance_kv_stor.Prelude.{
  ℕ, ◌≡◌, ◌≢◌, refl, sym, ◌∙◌, true, false, List, ◌∷◌, some, String, string_eq, ◌==◌, arith,
  Bool-cases, inl, inr,
}
use high_performance_kv_stor.Prelude.Table.{lookup}
use high_performance_kv_stor.Cluster.Peer.{
  Peer, PeerManager, known_or_new, mark, state_alive, state_suspect,
}
use high_performance_kv_stor.Cluster.Peer.Laws.{lookup-add_or_update}
use high_performance_kv_stor.Cluster.Gossip.{
  GossipManager, unreachable, after_window, suspect_if_alive,
}
use high_performance_kv_stor.Cluster.Gossip.Merge.{verdict}
use high_performance_kv_stor.Cluster.Gossip.Threads.{pinging, merging, writing, Moment, resume}

-- The peer stands in the table in this state.
abbrev pub HasState : String → String → PeerManager → Type 0
HasState id state pm = (q : Peer) × (lookup id pm ≡ some q) × (q.state ≡ state)

state-mark : (now : ℕ) (state : String) (p : Peer) → (mark now state p).state ≡ state
unfolding mark
state-mark now state p = ground arith

written :
    (gm : GossipManager) (m : Moment) (rp : Peer) (state : String) (remote : List (ℕ × Peer))
    (pm : PeerManager)
    → HasState rp.node_id state (resume gm m (writing rp state remote) pm).0
unfolding resume
written gm m rp state remote pm =
    let old = known_or_new (lookup rp.node_id pm) rp.node_id rp.address in
    (
      mark m.now state old,
      lookup-add_or_update m.now rp.node_id rp.address state pm rp.node_id
          ∙ rw ((eq_iff rp.node_id rp.node_id).1 refl) refl,
      state-mark m.now state old,
    )

reads_alive :
    (gm : GossipManager) (m : Moment) (time : ℕ) (rp local : Peer) (remote : List (ℕ × Peer))
    (pm : PeerManager)
    → rp.node_id ≢ gm.node_id
    → lookup rp.node_id pm ≡ some local
    → local.state ≡ state_suspect
    → rp.state ≡ state_alive
    → after_window rp.last_seen local.last_seen gm.suspicion_window ≡ true
    → (resume gm m (merging ((time, rp) ∷ remote)) pm).1 ≡ writing rp state_alive remote
unfolding resume
reads_alive gm m time rp local remote pm other found suspect alive newer =
    let foreign : (rp.node_id == gm.node_id) ≡ false =
      elim (Bool-cases (rp.node_id == gm.node_id)) [
        | inl same ↦ absurd (other ((eq_iff rp.node_id gm.node_id).0 same))
        | inr foreign ↦ foreign
      ] in
    let says : verdict gm (some local) rp ≡ some state_alive = rw (suspect, alive, newer) refl in
    rw (foreign, found, says) refl

-- Two goroutines whose copies are out of date bring a dead peer back. A round of MergePeers has
-- read a peer, other than the node itself, as suspected, and its list has the peer as alive and
-- seen later by more than the window: whatever becomes of the table before the round writes, the
-- peer dead by then included, the peer is alive after the write. And a ping of a peer that was
-- alive when the ping began, and that fails when the peer is dead, makes it suspected again.
pub stale_copy_revives :
    (gm : GossipManager) (m later : Moment) (time : ℕ) (rp local p : Peer)
    (remote : List (ℕ × Peer)) (pm between : PeerManager)
    → rp.node_id ≢ gm.node_id
    → lookup rp.node_id pm ≡ some local
    → local.state ≡ state_suspect
    → rp.state ≡ state_alive
    → after_window rp.last_seen local.last_seen gm.suspicion_window ≡ true
    → p.state ≡ state_alive
    → later.outcome ≡ unreachable
    → HasState rp.node_id state_alive
        (resume gm later (resume gm m (merging ((time, rp) ∷ remote)) pm).1 between).0
      × HasState p.node_id state_suspect (resume gm later (pinging p) between).0
unfolding resume suspect_if_alive
stale_copy_revives gm m later time rp local p remote pm between other found suspect alive newer live
      failed =
    let round = reads_alive gm m time rp local remote pm other found suspect alive newer in
    let old = known_or_new (lookup p.node_id between) p.node_id p.address in
    (
      subst (λ s. HasState rp.node_id state_alive (resume gm later s between).0) (sym round)
          (written gm later rp state_alive remote between),
      rw (failed, live)
          (
            mark later.now state_suspect old,
            lookup-add_or_update later.now p.node_id p.address state_suspect between p.node_id
                ∙ rw ((eq_iff p.node_id p.node_id).1 refl) refl,
            state-mark later.now state_suspect old,
          ),
    )
