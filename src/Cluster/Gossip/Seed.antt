-- ===== src/Cluster/Gossip/Seed.antt =====
-- The temporary entry of the seed (internal/cluster/gossip.go): each ping of it that fails renews its
-- suspicion.
use text.Mathlib.TextEquality.{eq_iff}
use high_performance_kv_stor.Prelude.{
  ℕ, ◌≡◌, refl, ◌∙◌, ap, false, ◌||◌, List, [], ◌∷◌, some, All, String, string_eq, ◌==◌, arith,
  true,
}
use high_performance_kv_stor.Prelude.Int.{pos}
use high_performance_kv_stor.Prelude.Table.{lookup}
use high_performance_kv_stor.Store.Entry.{instant}
use high_performance_kv_stor.Cluster.Peer.{
  Peer, PeerManager, get_all, known_or_new, mark, state_alive, state_suspect,
}
use high_performance_kv_stor.Cluster.Peer.Laws.{IsPeerTable, lookup-add_or_update}
use high_performance_kv_stor.Cluster.Gossip.{
  GossipManager, unreachable, suspect_if_alive, ping_peer, window_over, check_suspicious,
}
use high_performance_kv_stor.Cluster.Gossip.Suspicion.{checked, checked?, check_suspicious-lookup}
use high_performance_kv_stor.Cluster.Gossip.Tables.{
  suspect_if_alive-IsPeerTable, check_peers-IsPeerTable,
}

-- A failed ping of the peer and then some checks of suspicion, each with its time.
abbrev pub all_checks : GossipManager → List ℕ → PeerManager → PeerManager
all_checks gm [] pm = pm
all_checks gm (now ∷ times) pm = all_checks gm times (check_suspicious gm now pm)

abbrev pub rounds : GossipManager → Peer → List (ℕ × List ℕ) → PeerManager → PeerManager
rounds gm p [] pm = pm
rounds gm p ((failed, times) ∷ more) pm =
    rounds gm p more (all_checks gm times (ping_peer gm failed (pos 0) p unreachable pm))

-- The checks of a round come within the window after its ping.
abbrev pub IsPrompt : GossipManager → ℕ × List ℕ → Type 0
IsPrompt gm (failed, times) =
    All (λ now. window_over now (instant failed) gm.suspicion_window ≡ false) times

-- The peer stands in the table as suspected.
abbrev pub IsSuspected : String → PeerManager → Type 0
IsSuspected id pm = (q : Peer) × (lookup id pm ≡ some q) × (q.state ≡ state_suspect)

state-suspected : (now : ℕ) (p : Peer) → (mark now state_suspect p).state ≡ state_suspect
unfolding mark
state-suspected now p = ground arith

suspicious_at-suspected :
    (now : ℕ) (p : Peer) → (mark now state_suspect p).suspicious_at ≡ instant now
unfolding mark
suspicious_at-suspected now p = ground (arith, eq_iff state_suspect state_suspect)

pinged-lookup :
    (now : ℕ) (p : Peer) (pm : PeerManager)
    → p.node_id ≡ "seed"
    → lookup "seed" (suspect_if_alive now p pm)
      ≡ some (mark now state_suspect (known_or_new (lookup p.node_id pm) p.node_id p.address))
unfolding suspect_if_alive
pinged-lookup now p pm seed =
    let test : (p.state == state_alive || p.node_id == "seed") ≡ true =
      ground (arith, eq_iff p.node_id "seed", seed) in
    rw test (
      lookup-add_or_update now p.node_id p.address state_suspect pm "seed"
      ∙ rw ((eq_iff p.node_id "seed").1 seed) refl)

still_suspected :
    (gm : GossipManager) (now : ℕ) (q : Peer)
    → window_over now q.suspicious_at gm.suspicion_window ≡ false
    → checked gm now q ≡ q
still_suspected gm now q young = ground arith

check_suspicious-IsPeerTable :
    (gm : GossipManager) (now : ℕ) {pm : PeerManager}
    → IsPeerTable pm
    → IsPeerTable (check_suspicious gm now pm)
unfolding check_suspicious
check_suspicious-IsPeerTable gm now {pm} v = check_peers-IsPeerTable gm now (get_all pm) v

-- Checks within the window leave the entry as it is.
all_checks-young :
    (gm : GossipManager) (failed : ℕ) (times : List ℕ) (q : Peer) {pm : PeerManager}
    → IsPeerTable pm
    → lookup "seed" pm ≡ some q
    → q.suspicious_at ≡ instant failed
    → IsPrompt gm (failed, times)
    → IsPeerTable (all_checks gm times pm) × (lookup "seed" (all_checks gm times pm) ≡ some q)
all_checks-young gm failed [] q v found at prompt = (v, found)
all_checks-young gm failed (now ∷ times) q {pm} v found at prompt =
    all_checks-young gm failed times q (check_suspicious-IsPeerTable gm now v)
      (check_suspicious-lookup gm now pm "seed" v
        ∙ ap (checked? gm now) found
        ∙ ap some (
            still_suspected gm now q
              (ap (λ a. window_over now a gm.suspicion_window) at ∙ prompt.0)))
      at prompt.1

-- One round: the entry that the ping has left.
round-IsSuspected :
    (gm : GossipManager) (p : Peer) (failed : ℕ) (times : List ℕ) {pm : PeerManager}
    → IsPeerTable pm
    → p.node_id ≡ "seed"
    → IsPrompt gm (failed, times)
    → IsPeerTable (rounds gm p ((failed, times) ∷ []) pm)
      × IsSuspected "seed" (rounds gm p ((failed, times) ∷ []) pm)
unfolding ping_peer
round-IsSuspected gm p failed times {pm} v seed prompt =
    let old = known_or_new (lookup p.node_id pm) p.node_id p.address in
    let q = mark failed state_suspect old in
    let (v', kept) =
      all_checks-young gm failed times q (suspect_if_alive-IsPeerTable failed p v)
        (pinged-lookup failed p pm seed) (suspicious_at-suspected failed old) prompt in
    (v', (q, kept, state-suspected failed old))

-- Let pings of the temporary entry of the seed fail, each followed by any number of checks of
-- suspicion, of which each comes less than the suspicion window after the ping before it, and let
-- nothing else be at the well-formed table meanwhile. Then the entry never dies: after every such
-- ping and every check it is suspected, however long all of it takes together.
pub seed_never_dies :
    (gm : GossipManager) (p : Peer) (failed : ℕ) (times : List ℕ) (more : List (ℕ × List ℕ))
    {pm : PeerManager}
    → IsPeerTable pm
    → p.node_id ≡ "seed"
    → IsPrompt gm (failed, times)
    → All (IsPrompt gm) more
    → IsSuspected "seed" (rounds gm p ((failed, times) ∷ more) pm)
seed_never_dies gm p failed times [] v seed prompt all =
    (round-IsSuspected gm p failed times v seed prompt).1
seed_never_dies gm p failed times ((failed', times') ∷ more) v seed prompt all =
    seed_never_dies gm p failed' times' more (round-IsSuspected gm p failed times v seed prompt).0
      seed all.0 all.1
