-- ===== src/Cluster/Gossip/Threads/Dead.antt =====
-- How a dead peer comes back (internal/cluster/gossip.go): by contact, or by what a goroutine has copied
-- before the peer was dead.
use text.Mathlib.TextEquality.{eq_iff}
use high_performance_kv_stor.Prelude.{
  ℕ, ◌≡◌, ◌≢◌, refl, sym, ◌∙◌, ap, ◌&&◌, ◌||◌, List, [], ◌∷◌, Option, none, some, All, String,
  string_eq, ◌==◌, arith, if◌then◌else◌, Bool-cases, Option-cases, inl, inr,
}
use high_performance_kv_stor.Prelude.Int.{ℤ}
use high_performance_kv_stor.Prelude.Table.{lookup, lookup-insert, lookup-delete}
use high_performance_kv_stor.Store.Entry.{instant}
use high_performance_kv_stor.Cluster.Peer.{
  Peer, PeerManager, add_or_update, update_rtt, update_lag, get, state_alive, state_suspect,
  state_dead, mark, known_or_new,
}
use high_performance_kv_stor.Cluster.Peer.Laws.{IsPeerTable, lookup-add_or_update}
use high_performance_kv_stor.Cluster.Gossip.{
  GossipManager, tick, PingOutcome, unreachable, bad_status, unread, answered, suspect_if_alive,
  window_over,
}
use high_performance_kv_stor.Cluster.Gossip.Merge.{verdict, verdict-dead}
use high_performance_kv_stor.Cluster.Gossip.Choice.{tick-IsTarget}
use high_performance_kv_stor.Cluster.Gossip.Tables.{tick-current}
use high_performance_kv_stor.Cluster.Gossip.Threads.{
  Stage, starting, ticking, checking, greeting, measuring, pinging, unseeding, noting, timing,
  merging, writing, expiring, panicked, ended, Moment, after_tick, after_answer, after_ping,
  after_read, resume, Members, Move, run,
}
use high_performance_kv_stor.Cluster.Gossip.Threads.Sound.{AllMeet, run-keeps, resume-IsPeerTable}

-- The peer stands in the table as dead.
pub record IsDead (j : String) (pm : PeerManager) : Type 0 where
  pub peer : Peer
  pub found : lookup j pm ≡ some peer
  pub dead : peer.state ≡ state_dead

same-IsDead :
    {j : String} {pm qm : PeerManager} → lookup j qm ≡ lookup j pm → IsDead j pm → IsDead j qm
same-IsDead same h = record { peer = h.peer; found = same ∙ h.found; dead = h.dead }

-- A goroutine that will not set the peer's state but to dead: it pings another, has the answer of
-- another, or is about to write what a merge makes of another.
abbrev pub Spares : String → Stage → Type 0
Spares j (greeting id address) = id ≢ j
Spares j (pinging p) = p.node_id ≢ j
Spares j (unseeding p actual remote) = actual ≢ j
Spares j (noting p actual remote) = actual ≢ j
Spares j (timing actual remote) = actual ≢ j
Spares j (writing rp state remote) = rp.node_id ≢ j
Spares j _ = Unit {0}

-- The peer is not behind the seed's address: no list that answers a ping there gives its id to it.
abbrev pub IsSilent : String → Moment → Stage → Type 0
IsSilent j m (pinging p) =
    (remote : List (ℕ × Peer)) → m.outcome ≡ answered remote → Spares j (after_answer p remote)
IsSilent j m _ = Unit {0}

pub other_key : (id j : String) (o p : Option Peer) → id ≢ j → (if id == j then o else p) ≡ p
other_key id j o p h = ground (arith, eq_iff id j)

pub add_or_update-other :
    (now : ℕ) (id address state : String) (pm : PeerManager) (j : String)
    → id ≢ j
    → lookup j (add_or_update now id address state pm) ≡ lookup j pm
add_or_update-other now id address state pm j h =
    lookup-add_or_update now id address state pm j ∙ other_key id j _ _ h

pub update_rtt-other :
    (now : ℕ) (id : String) (rtt : ℤ) (pm : PeerManager) (j : String)
    → id ≢ j
    → lookup j (update_rtt now id rtt pm) ≡ lookup j pm
unfolding update_rtt
update_rtt-other now id rtt pm j h = elim (Option-cases (lookup id pm)) [
  | inl absent ↦ rw (absent, update_rtt) refl
  | inr (p, there) ↦
      rw (there, update_rtt)
        (lookup-insert id j (record p { rtt = rtt; last_seen = instant now }) pm
          ∙ other_key id j _ _ h)
]

update_lag-IsDead :
    (id : String) (lag : ℤ) {j : String} {pm : PeerManager}
    → IsDead j pm
    → IsDead j (update_lag id lag pm)
unfolding update_lag
update_lag-IsDead id lag {j} {pm} h = elim (Option-cases (lookup id pm)) [
  | inl absent ↦ rw (absent, update_lag) h
  | inr (p, there) ↦
      let q = record p { replication_lag = lag } in
      let now = lookup-insert id j q pm in
      rw (there, update_lag)
        (elim (Bool-cases (id == j)) [
          | inl same ↦
              let e : id ≡ j = (eq_iff id j).0 same in
              let p_is : p ≡ h.peer = cc (sym there ∙ ap (λ i. lookup i pm) e ∙ h.found) in
              record {
                peer = q;
                found = now ∙ rw same refl;
                dead = ap (λ x. x.state) p_is ∙ h.dead;
              }
          | inr other ↦ same-IsDead (now ∙ rw other refl) h
        ])
]

pub suspect_if_alive-other :
    (now : ℕ) (p : Peer) (pm : PeerManager) (j : String)
    → p.node_id ≢ j
    → lookup j (suspect_if_alive now p pm) ≡ lookup j pm
unfolding suspect_if_alive
suspect_if_alive-other now p pm j h =
    elim (Bool-cases (p.state == state_alive || p.node_id == "seed")) [
      | inl marks ↦ rw marks (add_or_update-other now p.node_id p.address state_suspect pm j h)
      | inr quiet ↦ rw quiet refl
    ]

module _ (j : String) {pm : PeerManager} (d : IsDead j pm) where
  other-IsDead :
      (now : ℕ) (id address state : String)
      → id ≢ j
      → IsDead j (add_or_update now id address state pm)
  other-IsDead now id address state h =
      same-IsDead (add_or_update-other now id address state pm j h) d

  -- A write of the state dead, whoever it is about.
  killed-IsDead :
      (now : ℕ) (id address : String) → IsDead j (add_or_update now id address state_dead pm)
  unfolding mark
  killed-IsDead now id address =
      let write = lookup-add_or_update now id address state_dead pm j in
      elim (Bool-cases (id == j)) [
        | inl same ↦ record {
          peer = mark now state_dead (known_or_new (lookup id pm) id address);
          found = write ∙ rw same refl;
          dead = refl;
        }
        | inr other ↦ same-IsDead (write ∙ rw other refl) d
      ]

  after_ping-IsDead :
      (now : ℕ) (p : Peer) (outcome : PingOutcome)
      → p.node_id ≢ j
      → IsDead j (after_ping now p outcome pm).0
  after_ping-IsDead now p unreachable h = same-IsDead (suspect_if_alive-other now p pm j h) d
  after_ping-IsDead now p bad_status h = same-IsDead (suspect_if_alive-other now p pm j h) d
  after_ping-IsDead now p unread h = d
  after_ping-IsDead now p (answered remote) h = d

  after_ping-Spares :
      (now : ℕ) (p : Peer) (outcome : PingOutcome)
      → ((remote : List (ℕ × Peer)) → outcome ≡ answered remote → Spares j (after_answer p remote))
      → Spares j (after_ping now p outcome pm).1
  after_ping-Spares now p unreachable h = tt
  after_ping-Spares now p bad_status h = tt
  after_ping-Spares now p unread h = tt
  after_ping-Spares now p (answered remote) h = h remote refl

  -- A tick chooses no dead peer.
  after_tick-Spares :
      (gm : GossipManager) (bits : ℕ) (nanos : ℤ)
      → IsPeerTable pm
      → Spares j (after_tick (tick gm bits nanos pm))
  after_tick-Spares gm bits nanos v = elim (tick-IsTarget gm bits nanos pm) [
    | inl quiet ↦ rw quiet.0 tt
    | inr (inl (p, chosen, t)) ↦ rw chosen (λ e.
        let here = tick-current gm bits nanos pm p v chosen in
        let same : p ≡ d.peer = cc (sym here ∙ ap (λ i. lookup i pm) e ∙ d.found) in
        t.live (ap (λ x. x.state) same ∙ d.dead))
    | inr (inr panic) ↦ rw panic.0 tt
  ]

  after_read-Spares :
      (gm : GossipManager) (rp : Peer) (remote : List (ℕ × Peer))
      → Spares j (after_read rp remote (verdict gm (get rp.node_id pm) rp))
  after_read-Spares gm rp remote = elim (Bool-cases (rp.node_id == j)) [
    | inl same ↦
        let e : rp.node_id ≡ j = (eq_iff rp.node_id j).0 same in
        let quiet : verdict gm (get rp.node_id pm) rp ≡ none =
          ap (λ o. verdict gm o rp) (ap (λ i. lookup i pm) e ∙ d.found)
          ∙ verdict-dead gm d.peer rp d.dead in
        rw quiet tt
    | inr other ↦
        any (verdict gm (get rp.node_id pm) rp) (λ e. cc ((eq_iff rp.node_id j).1 e, other))
  ]
    where
      any : (o : Option String) → rp.node_id ≢ j → Spares j (after_read rp remote o)
      any none h = tt
      any (some state) h = h

module _ (gm : GossipManager) (j : String) (real : j ≢ "seed") where
  resume-IsDead :
      (m : Moment) (s : Stage) (pm : PeerManager)
      → IsPeerTable pm
      → IsDead j pm
      → Spares j s
      → IsSilent j m s
      → IsDead j (resume gm m s pm).0 × Spares j (resume gm m s pm).1
  unfolding resume
  resume-IsDead m starting pm v d c ok = elim (Bool-cases (gm.seed_addr == "")) [
    | inl alone ↦ rw alone (d, tt)
    | inr seeded ↦
        let other : ◌≢◌ {A = String} "seed" j = λ e. real (sym e) in
        rw seeded (other-IsDead j d m.now "seed" gm.seed_addr state_alive other, other)
  ]
  resume-IsDead m ticking pm v d c ok = (d, after_tick-Spares j d gm m.bits m.nanos v)
  resume-IsDead m (pinging p) pm v d c ok =
      (after_ping-IsDead j d m.now p m.outcome c, after_ping-Spares j d m.now p m.outcome ok)
  resume-IsDead m (unseeding p actual remote) pm v d c ok =
      (same-IsDead (lookup-delete "seed" j pm ∙ other_key "seed" j _ _ (λ e. real (sym e))) d, c)
  resume-IsDead m (noting p actual remote) pm v d c ok =
      (other-IsDead j d m.now actual p.address state_alive c, c)
  resume-IsDead m (timing actual remote) pm v d c ok =
      (same-IsDead (update_rtt-other m.now actual m.rtt pm j c) d, tt)
  resume-IsDead m (merging []) pm v d c ok = (d, tt)
  resume-IsDead m (merging ((time, rp) ∷ remote)) pm v d c ok =
      elim (Bool-cases (rp.node_id == gm.node_id)) [
        | inl self ↦ rw self (d, tt)
        | inr other ↦ rw other (d, after_read-Spares j d gm rp remote)
      ]
  resume-IsDead m (writing rp state remote) pm v d c ok =
      (other-IsDead j d m.now rp.node_id rp.address state c, tt)
  resume-IsDead m checking pm v d c ok = (d, tt)
  resume-IsDead m (expiring now []) pm v d c ok = (d, tt)
  resume-IsDead m (expiring now (p ∷ peers)) pm v d c ok =
      elim (Bool-cases
        (p.state == state_suspect && window_over now p.suspicious_at gm.suspicion_window)) [
          | inl over ↦ rw over (killed-IsDead j d m.now p.node_id p.address, tt)
          | inr young ↦ rw young (d, tt)
        ]
  resume-IsDead m (greeting id address) pm v d c ok =
      (other-IsDead j d m.now id address state_alive c, tt)
  resume-IsDead m (measuring id lag) pm v d c ok = (update_lag-IsDead id lag d, tt)
  resume-IsDead m panicked pm v d c ok = (d, tt)
  resume-IsDead m ended pm v d c ok = (d, tt)

  -- A peer, other than the temporary entry of the seed, is dead in a well-formed table, and no
  -- goroutine that is under way pings it, has its answer or is about to write what a merge has made
  -- of it. Then it stays dead, in whatever order goroutines begin and take their steps at the table,
  -- until there is contact with it: until it pings this node, or answers at the address of the seed.
  -- No tick pings it, and no list of other peers that is compared with the table from now on brings
  -- it back.
  pub run-IsDead :
      (moves : List Move) (t : Members)
      → IsPeerTable t.table
      → IsDead j t.table
      → All (Spares j) t.stages
      → AllMeet gm (Spares j) (IsSilent j) t moves
      → IsDead j (run gm moves t).table
  run-IsDead moves t v d spares meets =
      (run-keeps gm (λ pm. IsPeerTable pm × IsDead j pm) (Spares j) (IsSilent j) tt
        (λ m s pm h c ok.
          let (d', c') = resume-IsDead m s pm h.0 h.1 c ok in
          ((resume-IsPeerTable gm m s pm h.0, d'), c'))
        moves t (v, d) spares meets).0.1
