-- ===== src/Cluster/Gossip/Merge/Rank.antt =====
-- The order of a peer's states under a merge (internal/cluster/gossip.go).
use text.Mathlib.TextEquality.{eq_iff}
use high_performance_kv_stor.Prelude.{
  ℕ, ◌<◌, ◌≡◌, refl, ◌∙◌, ap, true, false, ◌&&◌, ◌⊎◌, some, arith, String, string_eq, ◌==◌,
  if◌then◌else◌, Option-cases, Bool-cases, inl, inr,
}
use high_performance_kv_stor.Prelude.Table.{lookup}
use high_performance_kv_stor.Cluster.Peer.{
  Peer, PeerManager, known_or_new, mark, state_alive, state_suspect, state_dead,
}
use high_performance_kv_stor.Cluster.Peer.Laws.{lookup-add_or_update}
use high_performance_kv_stor.Cluster.Gossip.{GossipManager, after_window, merge_peer}
use high_performance_kv_stor.Cluster.Gossip.Merge.{
  verdict, enforce, verdict-dead, merge_peer-enforce,
}

-- Dead above suspect above every other state.
abbrev rank : String → ℕ
rank state = if state == state_dead then 2 else if state == state_suspect then 1 else 0

rank_alive : (p : Peer) → (p.state == state_alive) ≡ true → rank p.state ≡ 0
rank_alive p h = ap rank ((eq_iff p.state state_alive).0 h)

rank-lt_dead : (p : Peer) → (p.state == state_dead) ≡ false → rank p.state < 2
rank-lt_dead p h = ground arith

-- What the rules give is a higher state, or clears a suspicion.
abbrev pub IsAllowed : GossipManager → Peer → Peer → String → Type 0
IsAllowed gm p rp state =
    (rank p.state < rank state)
    ⊎ ((p.state ≡ state_suspect)
        × (state ≡ state_alive)
        × (rp.state ≡ state_alive)
        × (after_window rp.last_seen p.last_seen gm.suspicion_window ≡ true))

verdict-rank :
    (gm : GossipManager) (p rp : Peer) (state : String)
    → verdict gm (some p) rp ≡ some state
    → IsAllowed gm p rp state
verdict-rank gm p rp state h = elim (Bool-cases (p.state == state_dead)) [
  | inl dead ↦ cc (h, verdict-dead gm p rp ((eq_iff p.state state_dead).0 dead))
  | inr p_live ↦ elim (Bool-cases (rp.state == state_dead)) [
    | inl dead ↦ let e : state ≡ state_dead = ground arith in inl (rw e (rank-lt_dead p p_live))
    | inr r_live ↦ elim (Bool-cases (rp.state == state_suspect && p.state == state_alive)) [
      | inl both ↦
          let e : state ≡ state_suspect = ground arith in
          let alive : (p.state == state_alive) ≡ true = ground arith in
          inl (rw (e, rank_alive p alive) (omega arith))
      | inr neither ↦
          let clears : (state ≡ state_alive)
              × ((p.state == state_suspect) ≡ true)
              × ((rp.state == state_alive) ≡ true)
              × (after_window rp.last_seen p.last_seen gm.suspicion_window ≡ true) =
            ground arith in
          inr (
            (eq_iff p.state state_suspect).0 clears.1,
            clears.0,
            (eq_iff rp.state state_alive).0 clears.2,
            clears.3,
          )
    ]
  ]
]

lookup-enforce_self :
    (now : ℕ) (rp : Peer) (pm : PeerManager) (p : Peer) (state : String)
    → lookup rp.node_id pm ≡ some p
    → lookup rp.node_id (enforce now rp (some state) pm) ≡ some (mark now state p)
unfolding known_or_new
lookup-enforce_self now rp pm p state h =
    lookup-add_or_update now rp.node_id rp.address state pm rp.node_id
    ∙ ground (arith, eq_iff rp.node_id rp.node_id)

state-mark : (now : ℕ) (state : String) (p : Peer) → (mark now state p).state ≡ state
unfolding mark
state-mark now state p = ground arith

address-mark : (now : ℕ) (state : String) (p : Peer) → (mark now state p).address ≡ p.address
unfolding mark
address-mark now state p = ground arith

-- A round of MergePeers changes the state of the peer that it is about only to a higher one, in
-- the order dead above suspect above alive, except that it clears a suspicion when the remote
-- entry says alive and was seen later than the local one by more than the suspicion window. It
-- never changes the peer's address.
pub merge_peer-rank :
    (gm : GossipManager) (now : ℕ) (rp : Peer) (pm : PeerManager) (p : Peer)
    → lookup rp.node_id pm ≡ some p
    → (q : Peer) × (lookup rp.node_id (merge_peer gm now rp pm) ≡ some q)
      × (q.address ≡ p.address)
      × ((q.state ≡ p.state) ⊎ IsAllowed gm p rp q.state)
merge_peer-rank gm now rp pm p h = elim (Bool-cases (rp.node_id == gm.node_id)) [
  | inl self ↦
      (p, ap (lookup rp.node_id) (merge_peer-enforce gm now rp pm ∙ rw self) ∙ h, refl, inl refl)
  | inr other ↦ elim (Option-cases (verdict gm (some p) rp)) [
    | inl quiet ↦ (p, ground (arith, merge_peer-enforce gm now rp pm), refl, inl refl)
    | inr (state, given) ↦ (
      mark now state p,
      ap (lookup rp.node_id) (merge_peer-enforce gm now rp pm ∙ rw other (rw h (rw given)))
          ∙ lookup-enforce_self now rp pm p state h,
      address-mark now state p,
      inr (rw (state-mark now state p) (verdict-rank gm p rp state given)),
    )
  ]
]
