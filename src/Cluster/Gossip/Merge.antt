-- ===== src/Cluster/Gossip/Merge.antt =====
-- What a merge of a remote peer list (internal/cluster/gossip.go) can do to the table.
pub mod Rank
use text.Mathlib.TextEquality.{eq_iff}
use high_performance_kv_stor.Prelude.{
  ℕ, ◌<◌, ◌≡◌, ◌≢◌, refl, ◌∙◌, ap, true, false, ◌&&◌, ◌⊎◌, List, [], ◌∷◌, Option, none, some, arith,
  All, String, string_eq, ◌==◌, if◌then◌else◌, Option-cases, Bool-cases, inl, inr,
}
use high_performance_kv_stor.Prelude.Table.{lookup}
use high_performance_kv_stor.Cluster.Peer.{
  Peer, PeerManager, known_or_new, mark, add_or_update, state_alive, state_suspect, state_dead,
}
use high_performance_kv_stor.Cluster.Peer.Laws.{
  IsPeerTable, lookup-add_or_update, add_or_update-IsPeerTable,
}
use high_performance_kv_stor.Cluster.Gossip.{
  GossipManager, after_window, resolve, merge_peer, merge_peers,
}

-- The state that a merge gives to the peer of a remote entry, from what the table says of it, if
-- it gives one: the rules of the merge, apart from its steps.
abbrev pub verdict : GossipManager → Option Peer → Peer → Option String
verdict gm none rp = if rp.state == state_dead then none else some rp.state
verdict gm (some local) rp =
    if local.state == state_dead
    then none
    else if rp.state == state_dead
    then some state_dead
    else if rp.state == state_suspect && local.state == state_alive
    then some state_suspect
    else if rp.state == state_alive
        && local.state == state_suspect
        && after_window rp.last_seen local.last_seen gm.suspicion_window
    then some state_alive
    else none

abbrev pub enforce : ℕ → Peer → Option String → PeerManager → PeerManager
enforce now rp none pm = pm
enforce now rp (some state) pm = add_or_update now rp.node_id rp.address state pm

pub verdict-dead :
    (gm : GossipManager) (local rp : Peer)
    → local.state ≡ state_dead
    → verdict gm (some local) rp ≡ none
verdict-dead gm local rp dead = ground (arith, eq_iff local.state state_dead)

verdict-alive :
    (gm : GossipManager) (local rp : Peer)
    → local.state ≡ state_alive
    → rp.state ≡ state_alive
    → verdict gm (some local) rp ≡ none
verdict-alive gm local rp alive agrees = rw (alive, agrees) refl

module _ (gm : GossipManager) (now : ℕ) (rp : Peer) (pm : PeerManager) where
  resolve-enforce :
      (local : Peer) → resolve gm now local rp pm ≡ enforce now rp (verdict gm (some local) rp) pm
  unfolding resolve
  resolve-enforce local = ground arith

  -- A round of MergePeers enforces the rules on the peer that it is about, or does nothing if that
  -- is the node itself.
  pub merge_peer-enforce : merge_peer gm now rp pm ≡ (
      if rp.node_id == gm.node_id
      then pm
      else enforce now rp (verdict gm (lookup rp.node_id pm) rp) pm)
  unfolding merge_peer
  merge_peer-enforce = elim (Option-cases (lookup rp.node_id pm)) [
    | inl new ↦ ground arith
    | inr (local, old) ↦ ground (arith, resolve-enforce local)
  ]

  lookup-enforce_other :
      (o : Option String) (j : String)
      → rp.node_id ≢ j
      → lookup j (enforce now rp o pm) ≡ lookup j pm
  lookup-enforce_other none j h = refl
  lookup-enforce_other (some state) j h =
      ground (arith, lookup-add_or_update now rp.node_id rp.address state pm j, eq_iff rp.node_id j)

  merge_peer_self : lookup gm.node_id (merge_peer gm now rp pm) ≡ lookup gm.node_id pm
  merge_peer_self = elim (Bool-cases (rp.node_id == gm.node_id)) [
    | inl self ↦ rw merge_peer-enforce (rw self)
    | inr other ↦ rw merge_peer-enforce (
        rw other (
          lookup-enforce_other (verdict gm (lookup rp.node_id pm) rp) gm.node_id
            (λ e. cc ((eq_iff rp.node_id gm.node_id).1 e, other))))
  ]

  merge_peer-dead :
      (j : String) (p : Peer)
      → lookup j pm ≡ some p
      → p.state ≡ state_dead
      → lookup j (merge_peer gm now rp pm) ≡ some p
  merge_peer-dead j p h dead = elim (Bool-cases (rp.node_id == j)) [
    | inl same ↦
        let e : rp.node_id ≡ j = (eq_iff rp.node_id j).0 same in
        let quiet : verdict gm (lookup rp.node_id pm) rp ≡ none =
          ap (λ o. verdict gm o rp) (ap (λ i. lookup i pm) e ∙ h) ∙ verdict-dead gm p rp dead in
        ground (arith, merge_peer-enforce, quiet)
    | inr other ↦ ground (
      arith,
      merge_peer-enforce,
      lookup-enforce_other (verdict gm (lookup rp.node_id pm) rp) j
          (λ e. cc ((eq_iff rp.node_id j).1 e, other)),
    )
  ]

  merge_peer-alive :
      (j : String) (p : Peer)
      → lookup j pm ≡ some p
      → p.state ≡ state_alive
      → (rp.node_id ≡ j → rp.state ≡ state_alive)
      → lookup j (merge_peer gm now rp pm) ≡ some p
  merge_peer-alive j p h alive agrees = elim (Bool-cases (rp.node_id == j)) [
    | inl same ↦
        let e : rp.node_id ≡ j = (eq_iff rp.node_id j).0 same in
        let quiet : verdict gm (lookup rp.node_id pm) rp ≡ none =
          ap (λ o. verdict gm o rp) (ap (λ i. lookup i pm) e ∙ h)
          ∙ verdict-alive gm p rp alive (agrees e) in
        ground (arith, merge_peer-enforce, quiet)
    | inr other ↦ ground (
      arith,
      merge_peer-enforce,
      lookup-enforce_other (verdict gm (lookup rp.node_id pm) rp) j
          (λ e. cc ((eq_iff rp.node_id j).1 e, other)),
    )
  ]

module _ (gm : GossipManager) where
  -- A live peer stays as it is under a merge that holds no other opinion of it.
  pub merge_peers-alive :
      (remote : List (ℕ × Peer)) (pm : PeerManager) (j : String) (p : Peer)
      → lookup j pm ≡ some p
      → p.state ≡ state_alive
      → All (λ e. e.1.node_id ≡ j → e.1.state ≡ state_alive) remote
      → lookup j (merge_peers gm remote pm) ≡ some p
  unfolding merge_peers
  merge_peers-alive [] pm j p h alive agrees = h
  merge_peers-alive ((now, rp) ∷ remote) pm j p h alive agrees =
      merge_peers-alive remote (merge_peer gm now rp pm) j p
        (merge_peer-alive gm now rp pm j p h alive agrees.0) alive agrees.1

  -- A merge never changes what the table says of the node itself, whatever a remote list claims.
  pub merge_peers_self :
      (remote : List (ℕ × Peer)) (pm : PeerManager)
      → lookup gm.node_id (merge_peers gm remote pm) ≡ lookup gm.node_id pm
  unfolding merge_peers
  merge_peers_self [] pm = refl
  merge_peers_self ((now, rp) ∷ remote) pm =
      merge_peers_self remote (merge_peer gm now rp pm) ∙ merge_peer_self gm now rp pm

  -- Dead is final under merges: no remote list, of any length and order, changes the entry of a
  -- peer that the table holds as dead.
  pub merge_peers-dead :
      (remote : List (ℕ × Peer)) (pm : PeerManager) (j : String) (p : Peer)
      → lookup j pm ≡ some p
      → p.state ≡ state_dead
      → lookup j (merge_peers gm remote pm) ≡ some p
  unfolding merge_peers
  merge_peers-dead [] pm j p h dead = h
  merge_peers-dead ((now, rp) ∷ remote) pm j p h dead =
      merge_peers-dead remote (merge_peer gm now rp pm) j p
        (merge_peer-dead gm now rp pm j p h dead) dead

  merge_peer-IsPeerTable :
      {pm : PeerManager} (now : ℕ) (rp : Peer)
      → IsPeerTable pm
      → IsPeerTable (merge_peer gm now rp pm)
  merge_peer-IsPeerTable {pm} now rp v =
      rw merge_peer-enforce (elim (Bool-cases (rp.node_id == gm.node_id)) [
        | inl self ↦ rw self v
        | inr other ↦ rw other (enforced (verdict gm (lookup rp.node_id pm) rp))
      ])
    where
      enforced : (o : Option String) → IsPeerTable (enforce now rp o pm)
      enforced none = v
      enforced (some state) = add_or_update-IsPeerTable now rp.node_id rp.address state v

  pub merge_peers-IsPeerTable :
      (remote : List (ℕ × Peer)) {pm : PeerManager}
      → IsPeerTable pm
      → IsPeerTable (merge_peers gm remote pm)
  unfolding merge_peers
  merge_peers-IsPeerTable [] v = v
  merge_peers-IsPeerTable ((now, rp) ∷ remote) v =
      merge_peers-IsPeerTable remote (merge_peer-IsPeerTable now rp v)
