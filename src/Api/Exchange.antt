-- ===== src/Api/Exchange.antt =====
-- One ping between two nodes: pingPeer of internal/cluster/gossip.go on the one, and
-- handleInternalPing of internal/api/handlers.go on the other.
use text.Mathlib.TextEquality.{eq_iff}
use high_performance_kv_stor.Prelude.{
  ℕ, ◌≡◌, ◌≢◌, refl, sym, ◌∙◌, ap, true, false, ◌&&◌, not, List, [], ◌∷◌, ◌++◌, map, none, some,
  All, String, string_eq, ◌==◌, arith,
}
use mathlib.Core.Path.{subst}
use high_performance_kv_stor.Prelude.Int.{ℤ}
use high_performance_kv_stor.Prelude.Table.{lookup, lookup-insert}
use high_performance_kv_stor.Store.Entry.{instant}
use high_performance_kv_stor.Cluster.Peer.{
  Peer, PeerManager, known_or_new, mark, add_or_update, get_all, update_rtt, state_alive,
}
use high_performance_kv_stor.Cluster.Peer.Laws.{
  IsPeerTable, lookup-add_or_update, add_or_update-IsPeerTable,
}
use high_performance_kv_stor.Cluster.Gossip.{
  GossipManager, merge_peers, answered, settle_seed, ping_peer,
}
use high_performance_kv_stor.Cluster.Gossip.Merge.{merge_peers-alive}
use high_performance_kv_stor.Config.{Config}
use high_performance_kv_stor.Api.{Node, Response, peer_list}
use high_performance_kv_stor.Api.Members.{on_wire, handle_internal_ping, self_peer}

-- The table holds this peer, alive.
pub record IsAlive (id : String) (pm : PeerManager) : Type 0 where
  pub peer : Peer
  pub found : lookup id pm ≡ some peer
  pub alive : peer.state ≡ state_alive

state-mark : (now : ℕ) (state : String) (p : Peer) → (mark now state p).state ≡ state
unfolding mark
state-mark now state p = ground arith

add_or_update-IsAlive :
    (now : ℕ) (id address : String) (pm : PeerManager)
    → IsAlive id (add_or_update now id address state_alive pm)
add_or_update-IsAlive now id address pm = record {
  peer = mark now state_alive (known_or_new (lookup id pm) id address);
  found = lookup-add_or_update now id address state_alive pm id ∙ rw ((eq_iff id id).1 refl) refl;
  alive = state-mark now state_alive (known_or_new (lookup id pm) id address);
}

update_rtt-IsAlive :
    (now : ℕ) (id : String) (rtt : ℤ) {pm : PeerManager}
    → IsAlive id pm
    → IsAlive id (update_rtt now id rtt pm)
unfolding update_rtt
update_rtt-IsAlive now id rtt {pm} h =
    let p = h.peer in
    let seen = record p { rtt = rtt; last_seen = instant now } in
    record {
      peer = seen;
      found =
          rw (h.found, update_rtt) (lookup-insert id id seen pm ∙ rw ((eq_iff id id).1 refl) refl);
      alive = h.alive;
    }

get_all-absent :
    (j : String) (pm : PeerManager)
    → All (λ kp. kp.1.node_id ≡ kp.0) pm
    → lookup j pm ≡ none
    → All (λ q. q.node_id ≢ j) (get_all pm)
unfolding lookup get_all
get_all-absent j [] named gone = tt
get_all-absent j ((k, p) ∷ pm) named gone = (
  λ e. ground (arith, gone, named.0, e, eq_iff k j),
  get_all-absent j pm named.1 (ground (arith, gone)),
)

on_wire-absent :
    (j : String) (peers : List Peer)
    → All (λ q. q.node_id ≢ j) peers
    → All (λ q. q.node_id ≢ j) (map on_wire peers)
on_wire-absent j [] h = tt
on_wire-absent j (p ∷ peers) h = (h.0, on_wire-absent j peers h.1)

-- What the list of an answer may say of the node that answers.
abbrev Agrees : String → Peer → Type 0
Agrees j q = q.node_id ≡ j → q.state ≡ state_alive

agree_all :
    (j : String) (peers : List Peer) (self : Peer)
    → All (λ q. q.node_id ≢ j) peers
    → self.state ≡ state_alive
    → All (Agrees j) (peers ++ self ∷ [])
agree_all j [] self others alive = (λ e. alive, tt)
agree_all j (p ∷ peers) self others alive =
    (λ e. absurd (others.0 e), agree_all j peers self others.1 alive)

agree_timed :
    (j : String) (remote : List (ℕ × Peer))
    → All (Agrees j) (map (λ e. e.1) remote)
    → All (λ e. Agrees j e.1) remote
agree_timed j [] h = tt
agree_timed j (e ∷ remote) h = (h.0, agree_timed j remote h.1)

settled :
    (p : Peer) (remote : List (ℕ × Peer)) (pm : PeerManager)
    → (p.node_id == "seed") ≡ false
    → settle_seed p remote pm ≡ (p.node_id, pm)
unfolding settle_seed
settled p remote pm real = rw real refl

merge_peers-IsAlive :
    (gm : GossipManager) (j : String) (remote : List (ℕ × Peer)) {pm : PeerManager}
    → IsAlive j pm
    → All (λ e. Agrees j e.1) remote
    → IsAlive j (merge_peers gm remote pm)
merge_peers-IsAlive gm j remote {pm} h agrees = record {
  peer = h.peer;
  found = merge_peers-alive gm remote pm j h.peer h.found h.alive agrees;
  alive = h.alive;
}

-- What an answer makes of the table of the node that pinged, but for the temporary seed.
ping_peer-answered :
    (gm : GossipManager) (now : ℕ) (rtt : ℤ) (p : Peer) (remote : List (ℕ × Peer))
    (pm : PeerManager)
    → (p.node_id == "seed") ≡ false
    → ping_peer gm now rtt p (answered remote) pm
      ≡ merge_peers gm remote
          (update_rtt now p.node_id rtt (add_or_update now p.node_id p.address state_alive pm))
unfolding ping_peer
ping_peer-answered gm now rtt p remote pm real =
    ap
      (λ x.
        merge_peers gm remote
          (update_rtt now x.0 rtt (add_or_update now x.0 p.address state_alive x.1)))
      (settled p remote pm real)

peer_list-injective : {a b : List Peer} → peer_list a ≡ peer_list b → a ≡ b
peer_list-injective h = cc h

-- The list that answers a ping holds no other opinion of the answering node than that it is alive.
module _ (cfg : Config) (now later : ℕ) (gm : GossipManager) (node : Node)
    (sender_named : gm.node_id ≢ "") (sender_addressed : gm.address ≢ "") where
  abbrev answer : Node × Response
  answer = handle_internal_ping cfg now later gm.node_id gm.address node

  abbrev seen : PeerManager
  seen = add_or_update now gm.node_id gm.address state_alive node.peers

  answer-seen :
      (answer.0.peers ≡ seen)
      × (answer.1.body ≡ peer_list (map on_wire (get_all seen) ++ self_peer cfg later ∷ []))
  unfolding handle_internal_ping
  answer-seen =
      let both : (not (gm.node_id == "") && not (gm.address == "")) ≡ true =
        ground
          (arith, eq_iff gm.node_id "", eq_iff gm.address "", sender_named, sender_addressed) in
      rw both (refl, refl)

  module _ (table : IsPeerTable node.peers) (two_nodes : gm.node_id ≢ cfg.node_id)
      (no_self : lookup cfg.node_id node.peers ≡ none) where
    answer-Agrees :
        All (Agrees cfg.node_id) (map on_wire (get_all seen) ++ self_peer cfg later ∷ [])
    answer-Agrees =
        let absent : lookup cfg.node_id seen ≡ none =
          lookup-add_or_update now gm.node_id gm.address state_alive node.peers cfg.node_id
          ∙ ground (arith, no_self, two_nodes, eq_iff gm.node_id cfg.node_id) in
        let named = (add_or_update-IsPeerTable now gm.node_id gm.address state_alive table).named in
        agree_all cfg.node_id (map on_wire (get_all seen)) (self_peer cfg later)
          (on_wire-absent cfg.node_id (get_all seen) (get_all-absent cfg.node_id seen named absent))
          refl

    -- A node pings another, which has a name of its own and does not list itself, and gets its
    -- answer: then each has the other in its table, alive, whatever the two tables said before.
    pub ping_exchange :
        (pinged : ℕ) (rtt : ℤ) (p : Peer) (remote : List (ℕ × Peer)) (pm : PeerManager)
        → p.node_id ≡ cfg.node_id
        → cfg.node_id ≢ "seed"
        → answer.1.body ≡ peer_list (map (λ e. e.1) remote)
        → IsAlive gm.node_id answer.0.peers
          × IsAlive cfg.node_id (ping_peer gm pinged rtt p (answered remote) pm)
    ping_exchange pinged rtt p remote pm target not_seed body =
        let same : map (λ e. e.1) remote ≡ map on_wire (get_all seen) ++ self_peer cfg later ∷ [] =
          peer_list-injective (sym body ∙ answer-seen.1) in
        let agrees = agree_timed cfg.node_id remote (rw same answer-Agrees) in
        let real : (p.node_id == "seed") ≡ false =
          ground (arith, eq_iff p.node_id "seed", target, not_seed) in
        let greeted =
          update_rtt-IsAlive pinged p.node_id rtt
            (add_or_update-IsAlive pinged p.node_id p.address pm) in
        (
          rw answer-seen.0 (add_or_update-IsAlive now gm.node_id gm.address node.peers),
          rw (ping_peer-answered gm pinged rtt p remote pm real) (
              merge_peers-IsAlive gm cfg.node_id remote
                (subst
                  (λ id. IsAlive id (
                    update_rtt pinged p.node_id rtt
                      (add_or_update pinged p.node_id p.address state_alive pm)))
                  target greeted)
                agrees),
        )
