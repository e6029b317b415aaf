-- ===== src/Cluster/Gossip/Suspicion.antt =====
-- The end of suspicion (internal/cluster/gossip.go).
use text.Mathlib.TextEquality.{eq_iff}
use high_performance_kv_stor.Prelude.{
  ℕ, ◌≡◌, refl, sym, ◌∙◌, ap, ◌&&◌, [], ◌∷◌, Option, none, some, arith, All, String, string_eq,
  ◌==◌, if◌then◌else◌, Option-cases, Bool-cases, inl, inr,
}
use high_performance_kv_stor.Prelude.Table.{lookup, IsDistinct}
use high_performance_kv_stor.Cluster.Peer.{
  Peer, PeerManager, known_or_new, mark, add_or_update, get_all, state_suspect, state_dead,
}
use high_performance_kv_stor.Cluster.Peer.Laws.{IsPeerTable, lookup-add_or_update}
use high_performance_kv_stor.Cluster.Gossip.{
  GossipManager, window_over, check_peers, check_suspicious,
}

-- What the end of suspicion makes of a peer.
abbrev pub checked : GossipManager → ℕ → Peer → Peer
checked gm now p =
    if p.state == state_suspect && window_over now p.suspicious_at gm.suspicion_window
    then mark now state_dead p
    else p

abbrev pub checked? : GossipManager → ℕ → Option Peer → Option Peer
checked? gm now none = none
checked? gm now (some p) = some (checked gm now p)

abbrev check_peer : GossipManager → ℕ → Peer → PeerManager → PeerManager
check_peer gm now p pm =
    if p.state == state_suspect && window_over now p.suspicious_at gm.suspicion_window
    then add_or_update now p.node_id p.address state_dead pm
    else pm

-- One round of the loop, on a peer that the table holds.
lookup-check_peer :
    (gm : GossipManager) (now : ℕ) (p : Peer) (pm : PeerManager) (j : String)
    → lookup p.node_id pm ≡ some p
    → lookup j (check_peer gm now p pm)
      ≡ (if p.node_id == j then some (checked gm now p) else lookup j pm)
unfolding known_or_new
lookup-check_peer gm now p pm j h =
    let over = p.state == state_suspect && window_over now p.suspicious_at gm.suspicion_window in
    elim (Bool-cases over) [
      | inl yes_over ↦
          rw yes_over (rw (lookup-add_or_update now p.node_id p.address state_dead pm j) (simp h))
      | inr not_over ↦ rw not_over (elim (Bool-cases (p.node_id == j)) [
        | inl same ↦ rw same (ap (λ i. lookup i pm) (sym ((eq_iff p.node_id j).0 same)) ∙ h)
        | inr other ↦ rw other
      ])
    ]

abbrev after_check : GossipManager → ℕ → Option Peer → Option Peer → Option Peer
after_check gm now none unchecked = unchecked
after_check gm now (some p) unchecked = some (checked gm now p)

-- The loop over a part of the table, which the table still agrees with.
check_peers-lookup :
    (gm : GossipManager) (now : ℕ) (part pm : PeerManager) (j : String)
    → IsDistinct part
    → All (λ kp. kp.1.node_id ≡ kp.0) part
    → ((k : String) (p : Peer) → lookup k part ≡ some p → lookup k pm ≡ some p)
    → lookup j (check_peers gm now (get_all part) pm)
      ≡ after_check gm now (lookup j part) (lookup j pm)
unfolding check_peers get_all lookup
check_peers-lookup gm now [] pm j distinct named agree = refl
check_peers-lookup gm now ((k, p) ∷ part) pm j distinct named agree =
    let here : lookup p.node_id pm ≡ some p =
      ap (λ i. lookup i pm) named.0 ∙ agree k p (ground (arith, eq_iff k k)) in
    let round = λ (i : String). lookup-check_peer gm now p pm i here in
    let rest =
      check_peers-lookup gm now part (check_peer gm now p pm) j distinct.1 named.1 (λ i q found.
        round i
        ∙ ground (arith, named.0, distinct.0, found, eq_iff p.node_id i, agree i q, eq_iff k i)) in
    rest ∙ ground (arith, round j, named.0, distinct.0, eq_iff k j, eq_iff p.node_id j)

-- checkSuspicious turns dead exactly the suspected peers whose suspicion has lasted for the window,
-- and leaves every other entry of a well-formed table as it was.
pub check_suspicious-lookup :
    (gm : GossipManager) (now : ℕ) (pm : PeerManager) (j : String)
    → IsPeerTable pm
    → lookup j (check_suspicious gm now pm) ≡ checked? gm now (lookup j pm)
unfolding check_suspicious
check_suspicious-lookup gm now pm j v =
    check_peers-lookup gm now pm pm j v.distinct v.named (λ k p h. h)
    ∙ elim (Option-cases (lookup j pm)) [ inl new ↦ rw new | inr (p, old) ↦ rw old ]
