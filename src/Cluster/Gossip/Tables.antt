-- ===== src/Cluster/Gossip/Tables.antt =====
-- The copies of peers that internal/cluster/gossip.go takes from the table, and its changes to the
-- table, which keep it well formed.
use mathlib.Core.Path.{subst}
use text.Mathlib.TextEquality.{eq_iff}
use high_performance_kv_stor.Prelude.{
  ℕ, zero, suc, ◌≡◌, refl, ◌∙◌, ap, ◌&&◌, ◌||◌, List, [], ◌∷◌, none, some, arith, All, length,
  String, string_eq, ◌==◌, Option, Bool-cases, inl, inr,
}
use high_performance_kv_stor.Prelude.Int.{ℤ, negsuc, pos}
use high_performance_kv_stor.Prelude.Table.{lookup, IsDistinct}
use high_performance_kv_stor.Cluster.Peer.{
  Peer, PeerManager, get_all, state_alive, state_suspect, state_dead,
}
use high_performance_kv_stor.Cluster.Peer.Laws.{IsPeerTable, add_or_update-IsPeerTable}
use high_performance_kv_stor.Cluster.Gossip.{
  GossipManager, candidates, nth, pick, tick, target, at_index, found_at, rem, to_int,
  suspect_if_alive, window_over, check_peers,
}

-- The peers that GetAll copies are those of the table.
get_all-found :
    (part pm : PeerManager)
    → IsDistinct part
    → All (λ kp. kp.1.node_id ≡ kp.0) part
    → ((k : String) (p : Peer) → lookup k part ≡ some p → lookup k pm ≡ some p)
    → All (λ p. lookup p.node_id pm ≡ some p) (get_all part)
unfolding get_all lookup
get_all-found [] pm d named agree = tt
get_all-found ((k, p) ∷ part) pm d named agree = (
  ap (λ i. lookup i pm) named.0 ∙ agree k p (ground (arith, eq_iff k k)),
  get_all-found part pm d.1 named.1
      (λ i q found. agree i q (ground (arith, found, d.0, eq_iff k i))),
)

module _ (P : Peer → Type 0) where
  pub candidates-All :
      (gm : GossipManager) (peers : List Peer) → All P peers → All P (candidates gm peers)
  unfolding candidates
  candidates-All gm [] h = tt
  candidates-All gm (p ∷ peers) h =
      let rest = candidates-All gm peers h.1 in
      elim (Bool-cases (p.node_id == gm.node_id || p.state == state_dead)) [
        | inl skip ↦ rw skip rest
        | inr keep ↦ rw keep (h.0, rest)
      ]

  nth-All : (found : List Peer) (i : ℕ) (q : Peer) → All P found → nth found i ≡ some q → P q
  nth-All [] i q h at = absurd (cc at)
  nth-All (p ∷ found) zero q h at = subst P (cc at) h.0
  nth-All (p ∷ found) (suc i) q h at = nth-All found i q h.1 at

  found_at-All :
      (o : Option Peer) (q : Peer) → ((p : Peer) → o ≡ some p → P p) → found_at o ≡ target q → P q
  found_at-All none q h at = absurd (cc at)
  found_at-All (some p) q h at = subst P (cc at) (h p refl)

  at_index-All :
      (found : List Peer) (i : ℤ) (q : Peer) → All P found → at_index found i ≡ target q → P q
  at_index-All found (pos i) q h at =
      found_at-All (nth found i) q (λ p here. nth-All found i p h here) at
  at_index-All found (negsuc i) q h at = absurd (cc at)

  pub pick-All :
      (bits : ℕ) (nanos : ℤ) (found : List Peer) (q : Peer)
      → All P found
      → pick bits nanos found ≡ target q
      → P q
  unfolding pick
  pick-All bits nanos [] q h at = absurd (cc at)
  pick-All bits nanos (p ∷ found) q h at =
      at_index-All (p ∷ found) (rem (to_int bits nanos) (length (p ∷ found))) q h at

pub tick-current :
    (gm : GossipManager) (bits : ℕ) (nanos : ℤ) (pm : PeerManager) (q : Peer)
    → IsPeerTable pm
    → tick gm bits nanos pm ≡ target q
    → lookup q.node_id pm ≡ some q
unfolding tick
tick-current gm bits nanos pm q v at =
    let current : Peer → Type 0 = λ p. lookup p.node_id pm ≡ some p in
    pick-All current bits nanos (candidates gm (get_all pm)) q
      (candidates-All current gm (get_all pm)
        (get_all-found pm pm v.distinct v.named (λ k p found. found)))
      at

pub check_peers-IsPeerTable :
    (gm : GossipManager) (now : ℕ) (peers : List Peer) {pm : PeerManager}
    → IsPeerTable pm
    → IsPeerTable (check_peers gm now peers pm)
unfolding check_peers
check_peers-IsPeerTable gm now [] v = v
check_peers-IsPeerTable gm now (p ∷ peers) v =
    let over = p.state == state_suspect && window_over now p.suspicious_at gm.suspicion_window in
    elim (Bool-cases over) [
      | inl yes_over ↦ rw yes_over (
          check_peers-IsPeerTable gm now peers
            (add_or_update-IsPeerTable now p.node_id p.address state_dead v))
      | inr not_over ↦ rw not_over (check_peers-IsPeerTable gm now peers v)
    ]

pub suspect_if_alive-IsPeerTable :
    (now : ℕ) (p : Peer) {pm : PeerManager}
    → IsPeerTable pm
    → IsPeerTable (suspect_if_alive now p pm)
unfolding suspect_if_alive
suspect_if_alive-IsPeerTable now p v =
    elim (Bool-cases (p.state == state_alive || p.node_id == "seed")) [
      | inl marks ↦ rw marks (add_or_update-IsPeerTable now p.node_id p.address state_suspect v)
      | inr not_marked ↦ rw not_marked v
    ]
