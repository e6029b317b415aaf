-- ===== src/Cluster/Peer/Laws.antt =====
-- What the methods of internal/cluster/peer.go do to the table, and what makes a table well formed.
use high_performance_kv_stor.Prelude.{
  ℕ, ◌≡◌, ◌∙◌, some, arith, All, String, string_eq, ◌==◌, if◌then◌else◌, Option-cases, inl, inr,
}
use high_performance_kv_stor.Prelude.Table.{
  lookup, insert, IsDistinct, lookup-insert, insert-IsDistinct, All-insert, All-lookup,
}
use high_performance_kv_stor.Cluster.Peer.{Peer, PeerManager, known_or_new, mark, add_or_update}

-- Each peer stands in the table once, under its own id.
pub record IsPeerTable (pm : PeerManager) : Type 0 where
  pub distinct : IsDistinct pm
  pub named : All (λ kp. kp.1.node_id ≡ kp.0) pm

pub lookup-add_or_update :
    (now : ℕ) (node_id address state : String) (pm : PeerManager) (j : String)
    → lookup j (add_or_update now node_id address state pm) ≡ (
        if node_id == j
        then some (mark now state (known_or_new (lookup node_id pm) node_id address))
        else lookup j pm)
unfolding add_or_update
lookup-add_or_update now node_id address state pm j =
    lookup-insert node_id j (mark now state (known_or_new (lookup node_id pm) node_id address)) pm

node_id-mark : (now : ℕ) (state : String) (p : Peer) → (mark now state p).node_id ≡ p.node_id
unfolding mark
node_id-mark now state p = ground arith

pub insert-IsPeerTable :
    {pm : PeerManager} (p : Peer) (node_id : String)
    → IsPeerTable pm
    → p.node_id ≡ node_id
    → IsPeerTable (insert node_id p pm)
insert-IsPeerTable {pm} p node_id v h = record {
  distinct = insert-IsDistinct node_id p pm v.distinct;
  named = All-insert _ node_id p pm v.named h;
}

known-named :
    {pm : PeerManager} (node_id address : String)
    → IsPeerTable pm
    → (known_or_new (lookup node_id pm) node_id address).node_id ≡ node_id
unfolding known_or_new
known-named {pm} node_id address v = elim (Option-cases (lookup node_id pm)) [
  | inl new ↦ rw new
  | inr (p, old) ↦ rw old (All-lookup (λ kp. kp.1.node_id ≡ kp.0) node_id p pm v.named old)
]

-- AddOrUpdate keeps the table well formed.
pub add_or_update-IsPeerTable :
    {pm : PeerManager} (now : ℕ) (node_id address state : String)
    → IsPeerTable pm
    → IsPeerTable (add_or_update now node_id address state pm)
unfolding add_or_update
add_or_update-IsPeerTable {pm} now node_id address state v =
    insert-IsPeerTable (mark now state (known_or_new (lookup node_id pm) node_id address)) node_id v
      (node_id-mark now state (known_or_new (lookup node_id pm) node_id address)
        ∙ known-named node_id address v)
