-- ===== src/Cluster/Gossip/Threads/Sound.antt =====
-- What every step of the goroutines of internal/cluster/gossip.go keeps, every interleaving keeps; so
-- the table of peers stays well formed.
use high_performance_kv_stor.Prelude.{
  ℕ, ◌≡◌, ◌&&◌, List, [], ◌∷◌, ◌++◌, some, String, string_eq, ◌==◌, Bool-cases, Option-cases, inl,
  inr, All, All-set, get_or, zero, suc,
}
use high_performance_kv_stor.Prelude.Int.{ℤ}
use high_performance_kv_stor.Prelude.Table.{lookup, delete-IsDistinct, All-delete, All-lookup}
use high_performance_kv_stor.Store.Entry.{instant}
use high_performance_kv_stor.Cluster.Peer.{
  Peer, PeerManager, update_rtt, update_lag, state_alive, state_suspect, state_dead,
}
use high_performance_kv_stor.Cluster.Peer.Laws.{
  IsPeerTable, insert-IsPeerTable, add_or_update-IsPeerTable,
}
use high_performance_kv_stor.Cluster.Gossip.{
  GossipManager, PingOutcome, unreachable, bad_status, unread, answered, window_over,
}
use high_performance_kv_stor.Cluster.Gossip.Tables.{suspect_if_alive-IsPeerTable}
use high_performance_kv_stor.Cluster.Gossip.Threads.{
  Stage, starting, ticking, checking, greeting, measuring, pinging, unseeding, noting, timing,
  merging, writing, expiring, panicked, ended, Moment, after_ping, resume, is_start, Members, Move,
  begins, goes, move, run,
}

-- What the moves of a run meet: the stage at which a goroutine begins, and each step.
abbrev pub Meets : (Stage → Type 0) → (Moment → Stage → Type 0) → Members → Move → Type 0
Meets C Ok t (begins s) = C s
Meets C Ok t (goes i m) = Ok m (get_or t.stages i ended)

abbrev pub AllMeet :
    GossipManager → (Stage → Type 0) → (Moment → Stage → Type 0) → Members → List Move → Type 0
AllMeet gm C Ok t [] = Unit {0}
AllMeet gm C Ok t (mv ∷ moves) = Meets C Ok t mv × AllMeet gm C Ok (move gm mv t) moves

All-get_or :
    (C : Stage → Type 0) (stages : List Stage) (i : ℕ)
    → All C stages
    → C ended
    → C (get_or stages i ended)
All-get_or C [] i h e = e
All-get_or C (s ∷ stages) zero h e = h.0
All-get_or C (s ∷ stages) (suc i) h e = All-get_or C stages i h.1 e

All-snoc :
    (C : Stage → Type 0) (stages : List Stage) (s : Stage)
    → All C stages
    → C s
    → All C (stages ++ s ∷ [])
All-snoc C [] s h c = (c, tt)
All-snoc C (x ∷ stages) s h c = (h.0, All-snoc C stages s h.1 c)

-- `T` holds of the table and `C` of every goroutine, if each step keeps them.
module _ (gm : GossipManager) (T : PeerManager → Type 0) (C : Stage → Type 0)
    (Ok : Moment → Stage → Type 0) (at_end : C ended)
    (step : (m : Moment) (s : Stage) (pm : PeerManager)
      → T pm
      → C s
      → Ok m s
      → T (resume gm m s pm).0 × C (resume gm m s pm).1) where
  pub move-keeps :
      (mv : Move) (t : Members)
      → T t.table
      → All C t.stages
      → Meets C Ok t mv
      → T (move gm mv t).table × All C (move gm mv t).stages
  unfolding move
  move-keeps (begins s) t v h c = elim (Bool-cases (is_start s)) [
    | inl starts ↦ rw starts (v, All-snoc C t.stages s h c)
    | inr not_start ↦ rw not_start (v, h)
  ]
  move-keeps (goes i m) t v h ok =
      let s = get_or t.stages i ended in
      let (v', c) = step m s t.table v (All-get_or C t.stages i h at_end) ok in
      (v', All-set C t.stages i (resume gm m s t.table).1 h c)

  pub run-keeps :
      (moves : List Move) (t : Members)
      → T t.table
      → All C t.stages
      → AllMeet gm C Ok t moves
      → T (run gm moves t).table × All C (run gm moves t).stages
  run-keeps [] t v h ok = (v, h)
  run-keeps (mv ∷ moves) t v h ok =
      let (v', h') = move-keeps mv t v h ok.0 in run-keeps moves (move gm mv t) v' h' ok.1

named_at :
    (id : String) {pm : PeerManager} {p : Peer}
    → IsPeerTable pm
    → lookup id pm ≡ some p
    → p.node_id ≡ id
named_at id {pm} {p} v there = All-lookup (λ kp. kp.1.node_id ≡ kp.0) id p pm v.named there

update_rtt-IsPeerTable :
    (now : ℕ) (id : String) (rtt : ℤ) {pm : PeerManager}
    → IsPeerTable pm
    → IsPeerTable (update_rtt now id rtt pm)
unfolding update_rtt
update_rtt-IsPeerTable now id rtt {pm} v = elim (Option-cases (lookup id pm)) [
  | inl absent ↦ rw (absent, update_rtt) v
  | inr (p, there) ↦
      rw (there, update_rtt)
        (insert-IsPeerTable (record p { rtt = rtt; last_seen = instant now }) id v
          (named_at id v there))
]

update_lag-IsPeerTable :
    (id : String) (lag : ℤ) {pm : PeerManager} → IsPeerTable pm → IsPeerTable (update_lag id lag pm)
unfolding update_lag
update_lag-IsPeerTable id lag {pm} v = elim (Option-cases (lookup id pm)) [
  | inl absent ↦ rw (absent, update_lag) v
  | inr (p, there) ↦
      rw (there, update_lag)
        (insert-IsPeerTable (record p { replication_lag = lag }) id v (named_at id v there))
]

after_ping-IsPeerTable :
    (now : ℕ) (p : Peer) (outcome : PingOutcome) {pm : PeerManager}
    → IsPeerTable pm
    → IsPeerTable (after_ping now p outcome pm).0
after_ping-IsPeerTable now p unreachable v = suspect_if_alive-IsPeerTable now p v
after_ping-IsPeerTable now p bad_status v = suspect_if_alive-IsPeerTable now p v
after_ping-IsPeerTable now p unread v = v
after_ping-IsPeerTable now p (answered remote) v = v

pub resume-IsPeerTable :
    (gm : GossipManager) (m : Moment) (s : Stage) (pm : PeerManager)
    → IsPeerTable pm
    → IsPeerTable (resume gm m s pm).0
unfolding resume
resume-IsPeerTable gm m starting pm v = elim (Bool-cases (gm.seed_addr == "")) [
  | inl alone ↦ rw alone v
  | inr seeded ↦ rw seeded (add_or_update-IsPeerTable m.now "seed" gm.seed_addr state_alive v)
]
resume-IsPeerTable gm m ticking pm v = v
resume-IsPeerTable gm m (pinging p) pm v = after_ping-IsPeerTable m.now p m.outcome v
resume-IsPeerTable gm m (unseeding p actual remote) pm v = record {
  distinct = delete-IsDistinct "seed" pm v.distinct;
  named = All-delete _ "seed" pm v.named;
}
resume-IsPeerTable gm m (noting p actual remote) pm v =
    add_or_update-IsPeerTable m.now actual p.address state_alive v
resume-IsPeerTable gm m (timing actual remote) pm v = update_rtt-IsPeerTable m.now actual m.rtt v
resume-IsPeerTable gm m (merging []) pm v = v
resume-IsPeerTable gm m (merging ((time, rp) ∷ remote)) pm v =
    elim (Bool-cases (rp.node_id == gm.node_id)) [ inl self ↦ rw self v | inr other ↦ rw other v ]
resume-IsPeerTable gm m (writing rp state remote) pm v =
    add_or_update-IsPeerTable m.now rp.node_id rp.address state v
resume-IsPeerTable gm m checking pm v = v
resume-IsPeerTable gm m (expiring now []) pm v = v
resume-IsPeerTable gm m (expiring now (p ∷ peers)) pm v =
    elim (Bool-cases
      (p.state == state_suspect && window_over now p.suspicious_at gm.suspicion_window)) [
        | inl over ↦ rw over (add_or_update-IsPeerTable m.now p.node_id p.address state_dead v)
        | inr young ↦ rw young v
      ]
resume-IsPeerTable gm m (greeting id address) pm v =
    add_or_update-IsPeerTable m.now id address state_alive v
resume-IsPeerTable gm m (measuring id lag) pm v = update_lag-IsPeerTable id lag v
resume-IsPeerTable gm m panicked pm v = v
resume-IsPeerTable gm m ended pm v = v

-- Whatever a goroutine holds when it writes, a move leaves a well-formed table.
pub move-IsPeerTable :
    (gm : GossipManager) (mv : Move) (t : Members)
    → IsPeerTable t.table
    → IsPeerTable (move gm mv t).table
unfolding move
move-IsPeerTable gm (begins s) t v = elim (Bool-cases (is_start s)) [
  | inl starts ↦ rw starts v
  | inr not_start ↦ rw not_start v
]
move-IsPeerTable gm (goes i m) t v = resume-IsPeerTable gm m (get_or t.stages i ended) t.table v
