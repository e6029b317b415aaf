-- ===== src/Cluster/Gossip/Threads/Dying.antt =====
-- A peer that nobody hears of dies (internal/cluster/gossip.go), in every interleaving.
use text.Mathlib.TextEquality.{eq_iff}
use high_performance_kv_stor.Prelude.{
  ℕ, ◌≡◌, ◌≢◌, ◌⊎◌, refl, sym, ◌∙◌, ap, false, ◌&&◌, ◌||◌, List, [], ◌∷◌, Option, none, some, All,
  String, string_eq, ◌==◌, arith, Bool-cases, Option-cases, inl, inr,
}
use high_performance_kv_stor.Prelude.Int.{ℤ}
use high_performance_kv_stor.Prelude.Table.{lookup, lookup-insert, lookup-delete}
use high_performance_kv_stor.Cluster.Peer.{
  Peer, PeerManager, add_or_update, update_lag, get, state_alive, state_suspect, state_dead, mark,
  known_or_new,
}
use high_performance_kv_stor.Cluster.Peer.Laws.{IsPeerTable, lookup-add_or_update}
use high_performance_kv_stor.Cluster.Gossip.{
  GossipManager, tick, PingOutcome, unreachable, bad_status, unread, answered, suspect_if_alive,
  window_over,
}
use high_performance_kv_stor.Cluster.Gossip.Merge.{verdict, verdict-dead}
use high_performance_kv_stor.Cluster.Gossip.Choice.{tick-IsTarget}
use high_performance_kv_stor.Cluster.Gossip.Tables.{tick-current}
use high_performance_kv_stor.Cluster.Gossip.Threads.{
  Stage, starting, ticking, checking, greeting, measuring, pinging, unseeding, noting, timing,
  merging, writing, expiring, panicked, ended, Moment, after_tick, after_answer, after_ping,
  after_read, resume,
}
use high_performance_kv_stor.Cluster.Gossip.Threads.Dead.{
  other_key, add_or_update-other, update_rtt-other, suspect_if_alive-other,
}

-- A remote list that does not have the peer as alive.
abbrev pub IsMute : String → List (ℕ × Peer) → Type 0
IsMute j = All (λ e. e.1.node_id ≡ j → e.1.state ≢ state_alive)

-- A goroutine that holds no live copy of the peer, no answer of it and no word that it is alive.
abbrev pub Doubts : String → Stage → Type 0
Doubts j (greeting id address) = id ≢ j
Doubts j (pinging p) = p.node_id ≡ j → p.state ≢ state_alive
Doubts j (unseeding p actual remote) = (actual ≢ j) × IsMute j remote
Doubts j (noting p actual remote) = (actual ≢ j) × IsMute j remote
Doubts j (timing actual remote) = (actual ≢ j) × IsMute j remote
Doubts j (merging remote) = IsMute j remote
Doubts j (writing rp state remote) = (rp.node_id ≡ j → state ≡ state_dead) × IsMute j remote
Doubts j _ = Unit {0}

-- No ping is answered for the peer, and no answer has it as alive.
abbrev pub IsUnheard : String → Moment → Stage → Type 0
IsUnheard j m (pinging p) =
    (remote : List (ℕ × Peer)) → m.outcome ≡ answered remote → Doubts j (after_answer p remote)
IsUnheard j m _ = Unit {0}

-- What is kept of the peer's entry while nothing is heard of it.
pub record IsLasting (P : Peer → Type 0) : Type 0 where
  pub down : (p : Peer) → P p → (p.state ≡ state_suspect) ⊎ (p.state ≡ state_dead)
  pub killed : (now : ℕ) (p : Peer) → P (mark now state_dead p)
  pub lagging : (lag : ℤ) (p : Peer) → P p → P (record p { replication_lag = lag })

pub record Has (P : Peer → Type 0) (j : String) (pm : PeerManager) : Type 0 where
  pub peer : Peer
  pub found : lookup j pm ≡ some peer
  pub holds : P peer

down-not_alive :
    (p : Peer) → (p.state ≡ state_suspect) ⊎ (p.state ≡ state_dead) → p.state ≢ state_alive
down-not_alive p (inl suspect) alive =
    ground (arith, suspect, alive, eq_iff state_suspect state_alive)
down-not_alive p (inr dead) alive = ground (arith, dead, alive, eq_iff state_dead state_alive)

-- What a list without the peer among the living makes of one that is down: nothing, or dead.
verdict-down :
    (gm : GossipManager) (p rp : Peer) (state : String)
    → (p.state ≡ state_suspect) ⊎ (p.state ≡ state_dead)
    → rp.state ≢ state_alive
    → verdict gm (some p) rp ≡ some state
    → state ≡ state_dead
verdict-down gm p rp state (inl suspect) mute h =
    let lives : (p.state == state_dead) ≡ false = ap (λ s. s == state_dead) suspect in
    let doubted : (p.state == state_alive) ≡ false = ap (λ s. s == state_alive) suspect in
    let unsaid : (rp.state == state_alive) ≡ false = elim (Bool-cases (rp.state == state_alive)) [
      | inl alive ↦ absurd (mute ((eq_iff rp.state state_alive).0 alive))
      | inr other ↦ other
    ] in
    elim (Bool-cases (rp.state == state_dead)) [
      | inl says_dead ↦
          let out : verdict gm (some p) rp ≡ some state_dead = rw (lives, says_dead) refl in
          cc (sym out ∙ h)
      | inr other ↦
          let out : verdict gm (some p) rp ≡ none = elim (Bool-cases (rp.state == state_suspect)) [
            | inl suspects ↦ rw (lives, other, suspects, doubted, unsaid) refl
            | inr neither ↦ rw (lives, other, neither, unsaid) refl
          ] in
          absurd (cc (sym out ∙ h))
    ]
verdict-down gm p rp state (inr dead) mute h = absurd (cc (sym (verdict-dead gm p rp dead) ∙ h))

module _ {P : Peer → Type 0} (lasting : IsLasting P) (j : String) {pm : PeerManager}
    (d : Has P j pm) where
  same-Has : {qm : PeerManager} → lookup j qm ≡ lookup j pm → Has P j qm
  same-Has same = record { peer = d.peer; found = same ∙ d.found; holds = d.holds }

  other-Has :
      (now : ℕ) (id address state : String)
      → id ≢ j
      → Has P j (add_or_update now id address state pm)
  other-Has now id address state h = same-Has (add_or_update-other now id address state pm j h)

  killed-Has :
      (now : ℕ) (id address : String) → Has P j (add_or_update now id address state_dead pm)
  killed-Has now id address =
      let write = lookup-add_or_update now id address state_dead pm j in
      elim (Bool-cases (id == j)) [
        | inl same ↦ record {
          peer = mark now state_dead (known_or_new (lookup id pm) id address);
          found = write ∙ rw same refl;
          holds = lasting.killed now (known_or_new (lookup id pm) id address);
        }
        | inr other ↦ same-Has (write ∙ rw other refl)
      ]

  -- A write for the peer that can only be dead.
  written-Has :
      (now : ℕ) (id address state : String)
      → (id ≡ j → state ≡ state_dead)
      → Has P j (add_or_update now id address state pm)
  written-Has now id address state h = elim (Bool-cases (id == j)) [
    | inl same ↦ rw (h ((eq_iff id j).0 same)) (killed-Has now id address)
    | inr other ↦ other-Has now id address state (λ e. cc ((eq_iff id j).1 e, other))
  ]

  update_lag-Has : (id : String) (lag : ℤ) → Has P j (update_lag id lag pm)
  unfolding update_lag
  update_lag-Has id lag = elim (Option-cases (lookup id pm)) [
    | inl absent ↦ rw (absent, update_lag) d
    | inr (p, there) ↦
        let q = record p { replication_lag = lag } in
        let now = lookup-insert id j q pm in
        rw (there, update_lag)
          (elim (Bool-cases (id == j)) [
            | inl same ↦
                let e : id ≡ j = (eq_iff id j).0 same in
                let p_is : d.peer ≡ p = cc (sym there ∙ ap (λ i. lookup i pm) e ∙ d.found) in
                record {
                  peer = record d.peer { replication_lag = lag };
                  found = now ∙ rw (same, p_is) refl;
                  holds = lasting.lagging lag d.peer d.holds;
                }
            | inr other ↦ same-Has (now ∙ rw other refl)
          ])
  ]

  suspect_if_alive-Has :
      (now : ℕ) (p : Peer)
      → j ≢ "seed"
      → (p.node_id ≡ j → p.state ≢ state_alive)
      → Has P j (suspect_if_alive now p pm)
  unfolding suspect_if_alive
  suspect_if_alive-Has now p real h = elim (Bool-cases (p.node_id == j)) [
    | inr other ↦
        same-Has (suspect_if_alive-other now p pm j (λ e. cc ((eq_iff p.node_id j).1 e, other)))
    | inl same ↦
        let e : p.node_id ≡ j = (eq_iff p.node_id j).0 same in
        let quiet : (p.state == state_alive || p.node_id == "seed") ≡ false =
          ground (arith, eq_iff p.state state_alive, eq_iff p.node_id "seed", h e, real, e) in
        rw quiet d
  ]

  after_ping-Has :
      (now : ℕ) (p : Peer) (outcome : PingOutcome)
      → j ≢ "seed"
      → (p.node_id ≡ j → p.state ≢ state_alive)
      → Has P j (after_ping now p outcome pm).0
  after_ping-Has now p unreachable real h = suspect_if_alive-Has now p real h
  after_ping-Has now p bad_status real h = suspect_if_alive-Has now p real h
  after_ping-Has now p unread real h = d
  after_ping-Has now p (answered remote) real h = d

  after_ping-Doubts :
      (now : ℕ) (p : Peer) (outcome : PingOutcome)
      → ((remote : List (ℕ × Peer)) → outcome ≡ answered remote → Doubts j (after_answer p remote))
      → Doubts j (after_ping now p outcome pm).1
  after_ping-Doubts now p unreachable h = tt
  after_ping-Doubts now p bad_status h = tt
  after_ping-Doubts now p unread h = tt
  after_ping-Doubts now p (answered remote) h = h remote refl

  after_tick-Doubts :
      (gm : GossipManager) (bits : ℕ) (nanos : ℤ)
      → IsPeerTable pm
      → Doubts j (after_tick (tick gm bits nanos pm))
  after_tick-Doubts gm bits nanos v = elim (tick-IsTarget gm bits nanos pm) [
    | inl quiet ↦ rw quiet.0 tt
    | inr (inl (p, chosen, t)) ↦ rw chosen (λ e alive.
        let here = tick-current gm bits nanos pm p v chosen in
        let same : p ≡ d.peer = cc (sym here ∙ ap (λ i. lookup i pm) e ∙ d.found) in
        down-not_alive d.peer (lasting.down d.peer d.holds) (ap (λ x. x.state) (sym same) ∙ alive))
    | inr (inr panic) ↦ rw panic.0 tt
  ]

  after_read-Doubts :
      (gm : GossipManager) (rp : Peer) (remote : List (ℕ × Peer))
      → (rp.node_id ≡ j → rp.state ≢ state_alive)
      → IsMute j remote
      → Doubts j (after_read rp remote (verdict gm (get rp.node_id pm) rp))
  after_read-Doubts gm rp remote h mute = any (verdict gm (get rp.node_id pm) rp) refl
    where
      any :
          (o : Option String)
          → verdict gm (get rp.node_id pm) rp ≡ o
          → Doubts j (after_read rp remote o)
      any none e = mute
      any (some state) e = (
        λ same.
            verdict-down gm d.peer rp state (lasting.down d.peer d.holds) (h same)
              (ap (λ o. verdict gm o rp) (sym d.found ∙ ap (λ i. lookup i pm) (sym same)) ∙ e),
        mute,
      )

module _ {P : Peer → Type 0} (lasting : IsLasting P) (gm : GossipManager) (j : String)
    (real : j ≢ "seed") where
  pub resume-Has :
      (m : Moment) (s : Stage) (pm : PeerManager)
      → IsPeerTable pm
      → Has P j pm
      → Doubts j s
      → IsUnheard j m s
      → Has P j (resume gm m s pm).0 × Doubts j (resume gm m s pm).1
  unfolding resume
  resume-Has m starting pm v d c ok = elim (Bool-cases (gm.seed_addr == "")) [
    | inl alone ↦ rw alone (d, tt)
    | inr seeded ↦
        let other : ◌≢◌ {A = String} "seed" j = λ e. real (sym e) in
        rw seeded
          (other-Has lasting j d m.now "seed" gm.seed_addr state_alive other, λ e. absurd (other e))
  ]
  resume-Has m ticking pm v d c ok = (d, after_tick-Doubts lasting j d gm m.bits m.nanos v)
  resume-Has m (pinging p) pm v d c ok = (
    after_ping-Has lasting j d m.now p m.outcome real c,
    after_ping-Doubts lasting j d m.now p m.outcome ok,
  )
  resume-Has m (unseeding p actual remote) pm v d c ok = (
    same-Has lasting j d (lookup-delete "seed" j pm ∙ other_key "seed" j _ _ (λ e. real (sym e))),
    c,
  )
  resume-Has m (noting p actual remote) pm v d c ok =
      (other-Has lasting j d m.now actual p.address state_alive c.0, c)
  resume-Has m (timing actual remote) pm v d c ok =
      (same-Has lasting j d (update_rtt-other m.now actual m.rtt pm j c.0), c.1)
  resume-Has m (merging []) pm v d c ok = (d, tt)
  resume-Has m (merging ((time, rp) ∷ remote)) pm v d c ok =
      elim (Bool-cases (rp.node_id == gm.node_id)) [
        | inl self ↦ rw self (d, c.1)
        | inr other ↦ rw other (d, after_read-Doubts lasting j d gm rp remote c.0 c.1)
      ]
  resume-Has m (writing rp state remote) pm v d c ok =
      (written-Has lasting j d m.now rp.node_id rp.address state c.0, c.1)
  resume-Has m checking pm v d c ok = (d, tt)
  resume-Has m (expiring now []) pm v d c ok = (d, tt)
  resume-Has m (expiring now (p ∷ peers)) pm v d c ok =
      elim (Bool-cases
        (p.state == state_suspect && window_over now p.suspicious_at gm.suspicion_window)) [
          | inl over ↦ rw over (killed-Has lasting j d m.now p.node_id p.address, tt)
          | inr young ↦ rw young (d, tt)
        ]
  resume-Has m (greeting id address) pm v d c ok =
      (other-Has lasting j d m.now id address state_alive c, tt)
  resume-Has m (measuring id lag) pm v d c ok = (update_lag-Has lasting j d id lag, tt)
  resume-Has m panicked pm v d c ok = (d, tt)
  resume-Has m ended pm v d c ok = (d, tt)
