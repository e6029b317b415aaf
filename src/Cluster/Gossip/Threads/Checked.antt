-- ===== src/Cluster/Gossip/Threads/Checked.antt =====
-- The end of suspicion (internal/cluster/gossip.go: checkSuspicious), while other goroutines are at the
-- table of peers too.
use mathlib.Core.Path.{subst}
use text.Mathlib.TextEquality.{eq_iff}
use high_performance_kv_stor.Prelude.{
  ℕ, zero, suc, ◌≤◌, ◌≡◌, ◌≢◌, ◌⊎◌, refl, sym, ◌∙◌, ap, true, false, ◌&&◌, List, [], ◌∷◌, ◌++◌,
  some, All, String, string_eq, ◌==◌, arith, if◌then◌else◌, Bool-cases, inl, inr, length, get_or,
  set as set_at, nat_beq, nat_beq_iff,
}
use high_performance_kv_stor.Prelude.Int.{sub_ℕ, ltb_ℤ}
use high_performance_kv_stor.Prelude.Table.{lookup}
use high_performance_kv_stor.Store.Entry.{instant}
use high_performance_kv_stor.Cluster.Peer.{
  Peer, PeerManager, get_all, state_suspect, state_dead, mark, known_or_new,
}
use high_performance_kv_stor.Cluster.Peer.Laws.{IsPeerTable, lookup-add_or_update}
use high_performance_kv_stor.Cluster.Gossip.{GossipManager, window_over}
use high_performance_kv_stor.Cluster.Gossip.Threads.{
  Stage, checking, expiring, ended, Moment, resume, is_start, Members, Move, begins, goes, move,
  run,
}
use high_performance_kv_stor.Cluster.Gossip.Threads.Sound.{
  AllMeet, move-keeps, run-keeps, resume-IsPeerTable,
}
use high_performance_kv_stor.Cluster.Gossip.Threads.Dying.{
  Doubts, IsUnheard, IsLasting, Has, resume-Has,
}

-- Under suspicion since this time.
abbrev pub IsSuspect : ℕ → Peer → Type 0
IsSuspect since p = (p.state ≡ state_suspect) × (p.suspicious_at ≡ instant since)

abbrev pub IsDown : Peer → Type 0
IsDown p = p.state ≡ state_dead

IsDown-IsLasting : IsLasting IsDown
unfolding mark
IsDown-IsLasting = record { down = λ p h. inr h; killed = λ now p. refl; lagging = λ lag p h. h }

abbrev pub IsDying : ℕ → Peer → Type 0
IsDying since p = IsSuspect since p ⊎ IsDown p

IsDying-IsLasting : (since : ℕ) → IsLasting (IsDying since)
unfolding mark
IsDying-IsLasting since = record {
  down = λ p h. elim h [ inl suspect ↦ inl suspect.0 | inr dead ↦ inr dead ];
  killed = λ now p. inr refl;
  lagging = λ lag p h. h;
}

-- The rest of the copies of a check has the peer as suspected since this time.
abbrev Holds : String → ℕ → List Peer → Type 0
Holds j since [] = ⊥
Holds j since (p ∷ peers) = ((p.node_id ≡ j) × IsSuspect since p) ⊎ Holds j since peers

Holds-get_all :
    (j : String) (since : ℕ) (pm : PeerManager) (p : Peer)
    → All (λ kp. kp.1.node_id ≡ kp.0) pm
    → lookup j pm ≡ some p
    → IsSuspect since p
    → Holds j since (get_all pm)
unfolding lookup get_all
Holds-get_all j since [] p named found suspect = absurd (cc found)
Holds-get_all j since ((k, q) ∷ pm) p named found suspect = elim (Bool-cases (k == j)) [
  | inl same ↦
      let first : lookup j ((k, q) ∷ pm) ≡ some q = rw same refl in
      let here : q ≡ p = cc (sym first ∙ found) in
      inl (named.0 ∙ (eq_iff k j).0 same, rw here suspect)
  | inr other ↦
      let later : lookup j ((k, q) ∷ pm) ≡ lookup j pm = rw other refl in
      inr (Holds-get_all j since pm p named.1 (sym later ∙ found) suspect)
]

-- The steps that one goroutine takes.
abbrev pub steps_of : ℕ → List Move → ℕ
steps_of i [] = 0
steps_of i (begins s ∷ moves) = steps_of i moves
steps_of i (goes k m ∷ moves) =
    let rest = steps_of i moves in if nat_beq k i then suc rest else rest

get_or-other :
    (stages : List Stage) (k i : ℕ) (s : Stage)
    → nat_beq k i ≡ false
    → get_or (set_at stages k s) i ended ≡ get_or stages i ended
get_or-other [] k i s h = refl
get_or-other (x ∷ stages) zero zero s h = absurd (cc h)
get_or-other (x ∷ stages) zero (suc i) s h = refl
get_or-other (x ∷ stages) (suc k) zero s h = refl
get_or-other (x ∷ stages) (suc k) (suc i) s h = get_or-other stages k i s (ground (arith, h))

get_or-own :
    (stages : List Stage) (i : ℕ) (s x : Stage)
    → get_or stages i ended ≡ x
    → x ≢ ended
    → get_or (set_at stages i s) i ended ≡ s
get_or-own [] i s x h running = absurd (running (sym h))
get_or-own (y ∷ stages) zero s x h running = refl
get_or-own (y ∷ stages) (suc i) s x h running = get_or-own stages i s x h running

get_or-snoc :
    (stages : List Stage) (i : ℕ) (s x : Stage)
    → get_or stages i ended ≡ x
    → x ≢ ended
    → get_or (stages ++ s ∷ []) i ended ≡ x
get_or-snoc [] i s x h running = absurd (running (sym h))
get_or-snoc (y ∷ stages) zero s x h running = h
get_or-snoc (y ∷ stages) (suc i) s x h running = get_or-snoc stages i s x h running

expiring-runs : (now : ℕ) (peers : List Peer) → expiring now peers ≢ ended
expiring-runs now peers h = cc h

module _ (gm : GossipManager) (j : String) (real : j ≢ "seed") where
  -- The table is well formed and has the peer like this.
  abbrev Keeps : (Peer → Type 0) → PeerManager → Type 0
  Keeps P pm = IsPeerTable pm × Has P j pm

  resume-Keeps :
      {P : Peer → Type 0}
      → IsLasting P
      → (m : Moment) (s : Stage) (pm : PeerManager) → Keeps P pm
      → Doubts j s
      → IsUnheard j m s
      → Keeps P (resume gm m s pm).0 × Doubts j (resume gm m s pm).1
  resume-Keeps lasting m s pm h c ok =
      let (d, c') = resume-Has lasting gm j real m s pm h.0 h.1 c ok in
      ((resume-IsPeerTable gm m s pm h.0, d), c')

  -- The copy of the peer is the one whose turn it is.
  expires :
      (m : Moment) (since now : ℕ) (p : Peer) (peers : List Peer) (pm : PeerManager)
      → ltb_ℤ (sub_ℕ now since) gm.suspicion_window ≡ false
      → p.node_id ≡ j
      → IsSuspect since p
      → Has IsDown j (resume gm m (expiring now (p ∷ peers)) pm).0
  unfolding resume window_over mark
  expires m since now p peers pm late same (suspect, at) =
      let over : (p.state == state_suspect && window_over now p.suspicious_at gm.suspicion_window)
          ≡ true =
        rw (suspect, at) (rw late refl) in
      rw over (record {
        peer = mark m.now state_dead (known_or_new (lookup p.node_id pm) p.node_id p.address);
        found =
            lookup-add_or_update m.now p.node_id p.address state_dead pm j
            ∙ rw ((eq_iff p.node_id j).1 same) refl;
        holds = refl;
      })

  expiring-next :
      (m : Moment) (now : ℕ) (p : Peer) (peers : List Peer) (pm : PeerManager)
      → (resume gm m (expiring now (p ∷ peers)) pm).1 ≡ expiring now peers
  unfolding resume
  expiring-next m now p peers pm =
      elim (Bool-cases
        (p.state == state_suspect && window_over now p.suspicious_at gm.suspicion_window)) [
          | inl over ↦ rw over refl
          | inr young ↦ rw young refl
        ]

  -- Once it is down it stays down.
  run-IsDown :
      (moves : List Move) (t : Members)
      → Keeps IsDown t.table
      → All (Doubts j) t.stages
      → AllMeet gm (Doubts j) (IsUnheard j) t moves
      → Has IsDown j (run gm moves t).table
  run-IsDown moves t h c meets =
      (run-keeps gm (Keeps IsDown) (Doubts j) (IsUnheard j) tt (resume-Keeps IsDown-IsLasting) moves
        t h c meets).0.1

  begins-at :
      (s : Stage) (t : Members) (i : ℕ) (x : Stage)
      → get_or t.stages i ended ≡ x
      → x ≢ ended
      → get_or (move gm (begins s) t).stages i ended ≡ x
  unfolding move
  begins-at s t i x at running = elim (Bool-cases (is_start s)) [
    | inl starts ↦ rw starts (get_or-snoc t.stages i s x at running)
    | inr not_start ↦ rw not_start at
  ]

  -- A check that holds a copy of the peer, and has enough steps left to come to it.
  check_ends :
      (since now i : ℕ) (moves : List Move) (t : Members) (peers : List Peer)
      → ltb_ℤ (sub_ℕ now since) gm.suspicion_window ≡ false
      → Keeps (IsDying since) t.table
      → All (Doubts j) t.stages
      → AllMeet gm (Doubts j) (IsUnheard j) t moves
      → get_or t.stages i ended ≡ expiring now peers
      → Holds j since peers
      → length peers ≤ steps_of i moves
      → Has IsDown j (run gm moves t).table
  unfolding move resume
  check_ends since now i moves t [] late h c meets at held enough = absurd held
  check_ends since now i [] t (p ∷ peers) late h c meets at held enough = absurd (omega arith)
  check_ends since now i (begins s ∷ moves) t (p ∷ peers) late h c meets at held enough =
      let (h', c') =
        move-keeps gm (Keeps (IsDying since)) (Doubts j) (IsUnheard j) tt
          (resume-Keeps (IsDying-IsLasting since)) (begins s) t h c meets.0 in
      check_ends since now i moves (move gm (begins s) t) (p ∷ peers) late h' c' meets.1
        (begins-at s t i _ at (expiring-runs now (p ∷ peers))) held enough
  check_ends since now i (goes k m ∷ moves) t (p ∷ peers) late h c meets at held enough =
      let after = move gm (goes k m) t in
      let (h', c') =
        move-keeps gm (Keeps (IsDying since)) (Doubts j) (IsUnheard j) tt
          (resume-Keeps (IsDying-IsLasting since)) (goes k m) t h c meets.0 in
      elim (Bool-cases (nat_beq k i)) [
        | inr other ↦
            check_ends since now i moves after (p ∷ peers) late h' c' meets.1
              (get_or-other t.stages k i _ other ∙ at) held
              (subst (λ n. suc (length peers) ≤ n) (rw other refl) enough)
        | inl own ↦
            let same : k ≡ i = (nat_beq_iff k i).0 own in
            let here : get_or t.stages k ended ≡ expiring now (p ∷ peers) =
              ap (λ n. get_or t.stages n ended) same ∙ at in
            elim held [
              | inl (named, suspect) ↦
                  run-IsDown moves after
                    (
                      h'.0,
                      subst (λ s. Has IsDown j (resume gm m s t.table).0) (sym here)
                          (expires m since now p peers t.table late named suspect),
                    )
                    c' meets.1
              | inr rest ↦
                  let next : get_or after.stages i ended ≡ expiring now peers =
                    ap (λ n. get_or after.stages n ended) (sym same)
                    ∙ get_or-own t.stages k _ _ here (expiring-runs now (p ∷ peers))
                    ∙ ap (λ s. (resume gm m s t.table).1) here
                    ∙ expiring-next m now p peers t.table in
                  let left : steps_of i (goes k m ∷ moves) ≡ suc (steps_of i moves) = rw own refl in
                  check_ends since now i moves after peers late h' c' meets.1 next rest
                    (omega (arith, left, enough))
            ]
      ]

  -- A peer, other than the temporary entry of the seed, is suspected since a time, or dead, in a
  -- well-formed table. No goroutine that is under way holds a copy of it from when it was alive, an
  -- answer of it, or a list that has it as alive, and none comes to: it does not ping this node, no
  -- ping is answered for it, and no list that comes has it as alive. If a check of suspicion then
  -- copies the table a whole window after that time or later, the peer is dead once the check has
  -- taken as many more steps as the table had peers, and from then on, in whatever order other
  -- goroutines, failing pings of the peer among them, begin and take their steps.
  pub silent_peer_dies :
      (m : Moment) (since i : ℕ) (moves : List Move) (t : Members)
      → IsPeerTable t.table
      → Has (IsDying since) j t.table
      → All (Doubts j) t.stages
      → get_or t.stages i ended ≡ checking
      → ltb_ℤ (sub_ℕ m.now since) gm.suspicion_window ≡ false
      → AllMeet gm (Doubts j) (IsUnheard j) t (goes i m ∷ moves)
      → length (get_all t.table) ≤ steps_of i moves
      → Has IsDown j (run gm (goes i m ∷ moves) t).table
  unfolding resume move
  silent_peer_dies m since i moves t v d c at late meets enough = elim d.holds [
    | inr dead ↦
        run-IsDown (goes i m ∷ moves) t (v, record { peer = d.peer; found = d.found; holds = dead })
          c meets
    | inl suspect ↦
        let (h', c') =
          move-keeps gm (Keeps (IsDying since)) (Doubts j) (IsUnheard j) tt
            (resume-Keeps (IsDying-IsLasting since)) (goes i m) t (v, d) c meets.0 in
        let next : get_or (move gm (goes i m) t).stages i ended ≡ expiring m.now (get_all t.table) =
          get_or-own t.stages i _ _ at (λ e. cc e) ∙ ap (λ s. (resume gm m s t.table).1) at in
        check_ends since m.now i moves (move gm (goes i m) t) (get_all t.table) late h' c' meets.1
          next (Holds-get_all j since t.table d.peer v.named d.found suspect) enough
  ]
