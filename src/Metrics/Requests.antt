-- ===== src/Metrics/Requests.antt =====
-- The request counters of internal/metrics/metrics.go, and the counts of peers that
-- cmd/server/main.go gives the collector.
use high_performance_kv_stor.Prelude.{
  ℕ, suc, ◌+◌, ◌%◌, ◌^◌, ◌≡◌, refl, ap, ◌∙◌, List, [], ◌∷◌, map, String, string_eq, Eq, ◌==◌,
  if◌then◌else◌, Bool-cases, inl, inr, arith,
}
use high_performance_kv_stor.Prelude.Table.{Table, lookup, insert, lookup-insert}
use high_performance_kv_stor.Cluster.Peer.{Peer, state_alive, state_suspect, state_dead}
use high_performance_kv_stor.Metrics.{
  RequestKey, request_eq, MetricsCollector, new_metrics_collector, get_or_else, add_uint64,
  record_request, count_peers, peer_count,
}

-- What was recorded, the newest first.
abbrev pub requested : List RequestKey → MetricsCollector
requested [] = new_metrics_collector
requested (r ∷ rs) = record_request r.method r.path r.status (requested rs)

-- How often an element is in a list.
abbrev pub occurrences {ℓ} : {A : Type ℓ} ⦃e : Eq A⦄ → A → List A → ℕ
occurrences a [] = 0
occurrences a (b ∷ bs) = if b == a then suc (occurrences a bs) else occurrences a bs

abbrev request_total : RequestKey → MetricsCollector → ℕ
request_total key mc = get_or_else 0 (lookup key mc.req_counts)

request_total-record_request :
    (r key : RequestKey) (mc : MetricsCollector)
    → request_total key (record_request r.method r.path r.status mc)
      ≡ (if r == key then add_uint64 (request_total key mc) 1 else request_total key mc)
unfolding record_request
request_total-record_request r key mc =
    rw (lookup-insert r key (add_uint64 (request_total r mc) 1) mc.req_counts)
      (elim (Bool-cases (r == key)) [
        | inl same ↦
            rw same
              (ap (λ x. add_uint64 (request_total x mc) 1) ((request_eq.same_iff r key).0 same))
        | inr other ↦ rw other refl
      ])

request_total-new : (key : RequestKey) → request_total key new_metrics_collector ≡ 0
unfolding lookup
request_total-new key = refl

no_counts :
    (state : String)
    → get_or_else {A = ℕ} 0
        (lookup state ((state_alive, 0) ∷ (state_suspect, 0) ∷ (state_dead, 0) ∷ []))
      ≡ 0
unfolding lookup
no_counts state = ground arith

-- The counter of a method, a path and a status is the number of requests that were recorded with
-- them, modulo 2 ^ 64; a counter that is not there stands for none.
pub requested_lem :
    (key : RequestKey) (rs : List RequestKey)
    → get_or_else 0 (lookup key (requested rs).req_counts) ≡ occurrences key rs % 2 ^ 64
requested_lem key [] = request_total-new key
requested_lem key (r ∷ rs) =
    let before : request_total key (requested rs) ≡ occurrences key rs % 2 ^ 64 =
      requested_lem key rs in
    request_total-record_request r key (requested rs) ∙ elim (Bool-cases (r == key)) [
      | inl same ↦ rw (same, before) (omega arith)
      | inr other ↦ rw other before
    ]

abbrev pub state_of : Peer → String
state_of p = p.state

count_peers-occurrences :
    (state : String) (peers : List Peer) (counts : Table String ℕ)
    → get_or_else 0 (lookup state (count_peers peers counts))
      ≡ get_or_else 0 (lookup state counts) + occurrences state (map state_of peers)
count_peers-occurrences state [] counts = omega arith
count_peers-occurrences state (p ∷ peers) counts =
    let n = get_or_else 0 (lookup p.state counts) in
    count_peers-occurrences state peers (insert p.state (n + 1) counts)
    ∙ rw (lookup-insert p.state state (n + 1) counts) (elim (Bool-cases (p.state == state)) [
      | inl same ↦
          let eq : n ≡ get_or_else 0 (lookup state counts) =
            ap (λ x. get_or_else 0 (lookup x counts)) ((string_eq.same_iff p.state state).0 same) in
          rw same (omega (arith, eq))
      | inr other ↦ rw other refl
    ])

-- The count that the collector gets for a state is the number of peers in that state, whatever the
-- state, and 0 where the map of counts has none.
pub peer_count-occurrences :
    (state : String) (peers : List Peer)
    → get_or_else 0 (lookup state (peer_count peers)) ≡ occurrences state (map state_of peers)
unfolding peer_count
peer_count-occurrences state peers =
    let start : Table String ℕ = (state_alive, 0) ∷ (state_suspect, 0) ∷ (state_dead, 0) ∷ [] in
    omega (arith, count_peers-occurrences state peers start, no_counts state)
