-- ===== src/Cluster/Gossip.antt =====
-- internal/cluster/gossip.go: choosing a peer to ping, what a ping's outcome does to the table, the
-- merge of a remote peer list, and the end of suspicion. The network is an argument: the outcome of
-- the request, and for each remote peer the time at which the merge comes to it.
pub mod Merge
pub mod Choice
pub mod Suspicion
pub mod Tables
pub mod Seed
pub mod Threads
use high_performance_kv_stor.Prelude.{
  ℕ, zero, suc, ◌%◌, ◌^◌, ◌-◌, ltb, Bool, true, false, ◌||◌, ◌&&◌, not, List, [], ◌∷◌, Option, none,
  some, length, String, string_eq, ◌==◌, if◌then◌else◌,
}
use high_performance_kv_stor.Prelude.Int.{ℤ, pos, negsuc, sub_ℕ, ltb_ℤ, ◌+ℤ◌}
use high_performance_kv_stor.Prelude.Table.{Table, delete}
use high_performance_kv_stor.Store.Entry.{Time, zero_time, instant}
use high_performance_kv_stor.Cluster.Peer.{
  Peer, PeerManager, new_peer, add_or_update, get, get_all, update_rtt, state_alive, state_suspect,
  state_dead,
}

pub record GossipManager : Type 0 where
  pub node_id : String
  pub address : String
  pub seed_addr : String
  pub suspicion_window : ℤ

-- The intervals of the tickers and the client's timeout are not in the record.
abbrev pub new_gossip_manager : String → String → String → ℤ → GossipManager
new_gossip_manager node_id address seed_addr suspicion_window = record {
  node_id = node_id;
  address = address;
  seed_addr = seed_addr;
  suspicion_window = suspicion_window;
}

-- The peers that a tick may ping.
unfoldable pub candidates : GossipManager → List Peer → List Peer
candidates gm [] = []
candidates gm (p ∷ peers) =
    let rest = candidates gm peers in
    if p.node_id == gm.node_id || p.state == state_dead then rest else p ∷ rest

abbrev pub nth : List Peer → ℕ → Option Peer
nth [] i = none
nth (p ∷ peers) zero = some p
nth (p ∷ peers) (suc i) = nth peers i

signed : ℕ → ℕ → ℤ
signed bits u = if ltb u (2 ^ (bits - 1)) then pos u else negsuc (2 ^ bits - u - 1)

-- `int(x)` of an int64, where an int has this many bits.
unfoldable pub to_int : ℕ → ℤ → ℤ
unfolding signed
to_int bits (pos n) = signed bits (n % 2 ^ bits)
to_int bits (negsuc n) = signed bits (2 ^ bits - 1 - n % 2 ^ bits)

-- Go's `%`, whose result has the sign of the dividend.
unfoldable pub rem : ℤ → ℕ → ℤ
rem (pos n) m = pos (n % m)
rem (negsuc n) m = sub_ℕ 0 (suc n % m)

-- What a tick pings; an index out of range panics.
pub data Picked : Type 0 where
  nobody index_panics : Picked
  target : Peer → Picked

abbrev pub found_at : Option Peer → Picked
found_at none = index_panics
found_at (some p) = target p

abbrev pub at_index : List Peer → ℤ → Picked
at_index found (pos i) = found_at (nth found i)
at_index found (negsuc i) = index_panics

unfoldable pub pick : ℕ → ℤ → List Peer → Picked
unfolding to_int rem
pick bits nanos [] = nobody
pick bits nanos (p ∷ found) = at_index (p ∷ found) (rem (to_int bits nanos) (length (p ∷ found)))

-- The peer that a tick pings, if any: `nanos` is the clock's reading.
unfoldable pub tick : GossipManager → ℕ → ℤ → PeerManager → Picked
unfolding candidates pick
tick gm bits nanos pm = pick bits nanos (candidates gm (get_all pm))

-- `a.After(b.Add(window))`. The zero time lies centuries before every instant.
unfoldable pub after_window : Time → Time → ℤ → Bool
after_window (instant a) (instant b) window = ltb_ℤ (pos b +ℤ window) (pos a)
after_window (instant a) zero_time window = true
after_window zero_time (instant b) window = false
after_window zero_time zero_time window = ltb_ℤ window (pos 0)

-- The conflict between what the table says of a peer and what a remote list says.
pub resolve : GossipManager → ℕ → Peer → Peer → PeerManager → PeerManager
unfolding after_window
resolve gm now local rp pm =
    if local.state == state_dead
    then pm
    else if rp.state == state_dead
    then add_or_update now rp.node_id rp.address state_dead pm
    else if rp.state == state_suspect && local.state == state_alive
    then add_or_update now rp.node_id rp.address state_suspect pm
    else if rp.state == state_alive
        && local.state == state_suspect
        && after_window rp.last_seen local.last_seen gm.suspicion_window
    then add_or_update now rp.node_id rp.address state_alive pm
    else pm

-- One round of the loop of `MergePeers`.
pub merge_peer : GossipManager → ℕ → Peer → PeerManager → PeerManager
unfolding resolve
merge_peer gm now rp pm = if rp.node_id == gm.node_id then pm else elim (get rp.node_id pm) [
  | none ↦
      if not (rp.state == state_dead)
      then add_or_update now rp.node_id rp.address rp.state pm
      else pm
  | some local ↦ resolve gm now local rp pm
]

pub merge_peers : GossipManager → List (ℕ × Peer) → PeerManager → PeerManager
merge_peers gm [] pm = pm
merge_peers gm ((now, rp) ∷ remote) pm = merge_peers gm remote (merge_peer gm now rp pm)

-- How the request of a ping ends: with no answer, with another status than 200, with a body that
-- is no peer list, or with the peers of that list.
pub data PingOutcome : Type 0 where
  unreachable bad_status unread : PingOutcome
  answered : List (ℕ × Peer) → PingOutcome

-- The id of the first peer with this address in a remote list.
unfoldable pub id_at : String → List (ℕ × Peer) → Option String
id_at address [] = none
id_at address ((now, rp) ∷ remote) =
    if rp.address == address then some rp.node_id else id_at address remote

unfoldable pub suspect_if_alive : ℕ → Peer → PeerManager → PeerManager
suspect_if_alive now p pm =
    if p.state == state_alive || p.node_id == "seed"
    then add_or_update now p.node_id p.address state_suspect pm
    else pm

-- The id under which an answer counts, and the table without the temporary seed entry if the
-- answer names the seed.
unfoldable pub settle_seed : Peer → List (ℕ × Peer) → PeerManager → String × PeerManager
settle_seed p remote pm =
    if p.node_id == "seed"
    then elim (id_at p.address remote) [
      | none ↦ (p.node_id, pm)
      | some actual ↦ (actual, delete "seed" pm)
    ]
    else (p.node_id, pm)

unfoldable pub ping_peer : GossipManager → ℕ → ℤ → Peer → PingOutcome → PeerManager → PeerManager
unfolding suspect_if_alive settle_seed id_at update_rtt
ping_peer gm now rtt p unreachable pm = suspect_if_alive now p pm
ping_peer gm now rtt p bad_status pm = suspect_if_alive now p pm
ping_peer gm now rtt p unread pm = pm
ping_peer gm now rtt p (answered remote) pm =
    let (actual, settled) = settle_seed p remote pm in
    merge_peers gm remote
      (update_rtt now actual rtt (add_or_update now actual p.address state_alive settled))

-- `now.Sub(at) >= window`. Sub from the zero time gives the longest duration.
unfoldable pub window_over : ℕ → Time → ℤ → Bool
window_over now zero_time window = true
window_over now (instant t) window = not (ltb_ℤ (sub_ℕ now t) window)

-- The loop of `checkSuspicious`, over the peers that the table held when it began.
pub check_peers : GossipManager → ℕ → List Peer → PeerManager → PeerManager
unfolding window_over
check_peers gm now [] pm = pm
check_peers gm now (p ∷ peers) pm =
    let over = p.state == state_suspect && window_over now p.suspicious_at gm.suspicion_window in
    check_peers gm now peers
      (if over then add_or_update now p.node_id p.address state_dead pm else pm)

pub check_suspicious : GossipManager → ℕ → PeerManager → PeerManager
unfolding check_peers
check_suspicious gm now pm = check_peers gm now (get_all pm) pm
