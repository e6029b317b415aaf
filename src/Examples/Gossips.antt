-- ===== src/Examples/Gossips.antt =====
-- Runs of the theorems on the goroutines at the table of peers.
use text.Mathlib.TextEquality.{eq_iff}
use high_performance_kv_stor.Prelude.{ℕ, ◌≢◌, refl, List, [], ◌∷◌, String, string_eq, arith, inl}
use high_performance_kv_stor.Prelude.Int.{pos, ◌+ℤ◌}
use high_performance_kv_stor.Prelude.Table.{lookup}
use high_performance_kv_stor.Cluster.Peer.{
  Peer, new_peer, get_all, state_alive, state_suspect, state_dead,
}
use high_performance_kv_stor.Cluster.Peer.Laws.{IsPeerTable}
use high_performance_kv_stor.Cluster.Gossip.{unreachable, window_over, after_window}
use high_performance_kv_stor.Cluster.Gossip.Seed.{IsSuspected, rounds, seed_never_dies}
use high_performance_kv_stor.Cluster.Gossip.Threads.{
  pinging, merging, checking, greeting, Moment, Members, Move, begins, goes, move, run, resume,
}
use high_performance_kv_stor.Cluster.Gossip.Threads.Dead.{IsDead, run-IsDead}
use high_performance_kv_stor.Cluster.Gossip.Threads.Dying.{Has}
use high_performance_kv_stor.Cluster.Gossip.Threads.Checked.{IsDying, IsDown, silent_peer_dies}
use high_performance_kv_stor.Cluster.Gossip.Threads.Stale.{HasState, stale_copy_revives}
use high_performance_kv_stor.Examples.Data.{gossip, peer_table, remote_list, a_peer}

peer_table-IsPeerTable : IsPeerTable peer_table
unfolding lookup
peer_table-IsPeerTable = record { distinct = (refl, (refl, tt)); named = (refl, (refl, tt)) }

n3-IsDead : IsDead "n3" peer_table
unfolding lookup
n3-IsDead = record { peer = a_peer "n3" state_dead 100; found = refl; dead = refl }

n3-real : ◌≢◌ {A = String} "n3" "seed"
n3-real h = ground (arith, h, eq_iff "n3" "seed")

n4-other : ◌≢◌ {A = String} "n4" "n3"
n4-other h = ground (arith, h, eq_iff "n4" "n3")

abbrev at_time : ℕ → Moment
at_time now = record { bits = 64; nanos = pos now; now = now; rtt = pos 0; outcome = unreachable }

-- A merge whose list says that the dead peer is alive, a check, and a ping from a third peer.
abbrev dead_moves : List Move
dead_moves =
    goes 0 (at_time 300)
    ∷ begins checking
    ∷ goes 1 (at_time 301)
    ∷ goes 0 (at_time 302)
    ∷ begins (greeting "n4" "10.0.0.4:8080")
    ∷ goes 2 (at_time 303)
    ∷ goes 0 (at_time 304)
    ∷ goes 1 (at_time 305)
    ∷ []

abbrev merging_members : Members
merging_members = record { table = peer_table; stages = merging remote_list ∷ [] }

run-IsDead_example : IsDead "n3" (run gossip dead_moves merging_members).table
unfolding move resume lookup after_window ◌+ℤ◌
run-IsDead_example =
    run-IsDead gossip "n3" n3-real dead_moves merging_members peer_table-IsPeerTable n3-IsDead
      (tt, tt) (tt, (tt, (tt, (tt, (n4-other, (tt, (tt, (tt, tt))))))))

abbrev suspect_peer : Peer
suspect_peer = a_peer "n2" state_suspect 1000

abbrev doubtful : Members
doubtful = record {
  table = ("n2", suspect_peer) ∷ [];
  stages = pinging suspect_peer ∷ checking ∷ [];
}

doubtful-IsPeerTable : IsPeerTable doubtful.table
unfolding lookup
doubtful-IsPeerTable = record { distinct = (refl, tt); named = (refl, tt) }

n2-IsDying : Has (IsDying 1000) "n2" doubtful.table
unfolding lookup
n2-IsDying = record { peer = suspect_peer; found = refl; holds = inl (refl, refl) }

n2-real : ◌≢◌ {A = String} "n2" "seed"
n2-real h = ground (arith, h, eq_iff "n2" "seed")

not_alive : suspect_peer.state ≢ state_alive
not_alive h = ground (arith, h, eq_iff state_suspect state_alive)

abbrev dying_moves : List Move
dying_moves = goes 0 (at_time 1070) ∷ goes 1 (at_time 1071) ∷ []

silent_peer_dies_example :
    Has IsDown "n2" (run gossip (goes 1 (at_time 1060) ∷ dying_moves) doubtful).table
unfolding move resume get_all
silent_peer_dies_example =
    silent_peer_dies gossip "n2" n2-real (at_time 1060) 1000 1 dying_moves doubtful
      doubtful-IsPeerTable n2-IsDying ((λ e. not_alive), (tt, tt)) refl refl
      (tt, ((λ remote h. absurd (cc h)), (tt, tt))) (omega arith)

abbrev seed_peer : Peer
seed_peer = new_peer "seed" "10.0.0.9:8080"

seed_never_dies_example :
    IsSuspected "seed" (
      rounds gossip seed_peer ((1000, 1020 ∷ 1040 ∷ []) ∷ (1045, 1060 ∷ 1080 ∷ []) ∷ []) peer_table)
unfolding window_over
seed_never_dies_example =
    seed_never_dies gossip seed_peer 1000 (1020 ∷ 1040 ∷ []) ((1045, 1060 ∷ 1080 ∷ []) ∷ [])
      peer_table-IsPeerTable refl (refl, (refl, tt)) ((refl, (refl, tt)), tt)

n2-foreign : ◌≢◌ {A = String} "n2" "n1"
n2-foreign h = ground (arith, h, eq_iff "n2" "n1")

-- The peer n2 is suspected when the merge reads it, and dead when the merge writes.
stale_copy_revives_example :
    HasState "n2" state_alive
      (resume gossip
        (at_time 1100)
        (resume gossip
          (at_time 1050)
          (merging ((1050, a_peer "n2" state_alive 1200) ∷ []))
          doubtful.table).1
        (("n2", a_peer "n2" state_dead 1000) ∷ [])).0
    × HasState "n2" state_suspect
        (resume gossip
          (at_time 1100)
          (pinging (a_peer "n2" state_alive 900))
          (("n2", a_peer "n2" state_dead 1000) ∷ [])).0
unfolding lookup after_window ◌+ℤ◌
stale_copy_revives_example =
    stale_copy_revives gossip (at_time 1050) (at_time 1100) 1050 (a_peer "n2" state_alive 1200)
      suspect_peer (a_peer "n2" state_alive 900) [] doubtful.table
      (("n2", a_peer "n2" state_dead 1000) ∷ []) n2-foreign refl refl refl refl refl refl
