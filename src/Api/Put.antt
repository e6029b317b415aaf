-- ===== src/Api/Put.antt =====
-- A PUT and its replication (internal/api/handlers.go, internal/cluster/replication.go).
use high_performance_kv_stor.Prelude.{
  ℕ, zero, suc, ◌*◌, ◌%◌, ◌-◌, ◌^◌, ◌≤◌, ◌<◌, ◌≡◌, ◌≢◌, ◌⊎◌, refl, ◌∙◌, ap, List, [], ◌∷◌, some,
  arith, All, length, Bytes, bytes_eq, bytes_beq_iff, ◌==◌, string_eq, if◌then◌else◌, inl, inr,
}
use high_performance_kv_stor.Prelude.Int.{ℤ, pos, negsuc}
use high_performance_kv_stor.Store.Entry.{zero_time}
use high_performance_kv_stor.Store.Wal.{Disk, WalError, expiry_nanos}
use high_performance_kv_stor.Store.State.{
  Store, Times, Result, ok, err, set, entry_of, expiry, choose_version,
}
use high_performance_kv_stor.Store.State.Writes.{merge}
use high_performance_kv_stor.Store.State.Effects.{offered, set_effect}
use high_performance_kv_stor.Cluster.Peer.{Peer, get_all}
use high_performance_kv_stor.Cluster.Replication.{
  Replicator, ReplicateRequest, requests, replicate, update_last_served, to_int64,
}
use high_performance_kv_stor.Api.{
  Node, new_version, Response, PutRequest, Outgoing, ttl_of, published, put_body, handle_put,
}

-- Every request of one write carries that write.
pub requests-All :
    (r : Replicator) (request : ReplicateRequest) (peers : List Peer)
    → All (λ out. out.1 ≡ request) (requests r request peers)
unfolding requests
requests-All r request [] = tt
requests-All r request (p ∷ peers) = ground (arith, requests-All r request peers)

-- The request that a PUT sends to its peers.
abbrev pub put_request : Bytes → Bytes → ℕ → ℕ → ℤ → ReplicateRequest
put_request key value version after ttl = record {
  key = key;
  value = value;
  version = version;
  expires_at = expiry_nanos (expiry after ttl);
  action = "SET";
}

-- What a PUT that answers with 200 has done.
pub record IsPut (now : Times) (after : ℕ) (key : Bytes) (req : PutRequest) (node : Node)
    (out : Node × Response × Outgoing) : Type 0 where
  pub version : ℕ
  pub answered : out.1 ≡ record { status = 200; body = new_version version }
  pub kept :
      version
      ≡ (merge
          (entry_of node.store key)
          (offered now req.value (ttl_of req.ttl_seconds) 0 node.store)).version
  pub stored :
      (j : Bytes)
      → entry_of out.0.store j ≡ (
          if key == j
          then some (
              merge
                (entry_of node.store key)
                (offered now req.value (ttl_of req.ttl_seconds) 0 node.store))
          else entry_of node.store j)
  pub sent : All (λ o. o.1 ≡ put_request key req.value version after (ttl_of req.ttl_seconds)) out.2

pub Result-cases {ℓ} :
    {A : Type ℓ} (x : Result A) → ((a : A) × (x ≡ ok a)) ⊎ ((e : WalError) × (x ≡ err e))
Result-cases (ok a) = inl (a, refl)
Result-cases (err e) = inr (e, refl)

module _ (disk : Disk) (now : Times) (after : ℕ) (key : Bytes) (req : PutRequest)
    (node : Node) where
  abbrev written : Store × Result ℕ
  written = set disk now key req.value (ttl_of req.ttl_seconds) 0 node.store

  abbrev publication : ℕ → Node × Response × Outgoing
  publication n =
      published node written.0 key req.value n (expiry after (ttl_of req.ttl_seconds)) "SET"
        (new_version n)

  put_body-ok : (n : ℕ) → written.1 ≡ ok n → put_body disk now after key req node ≡ publication n
  unfolding put_body
  put_body-ok n h = ground arith

  put_body-err :
      (e : WalError) → written.1 ≡ err e → (put_body disk now after key req node).1.status ≡ 500
  unfolding put_body
  put_body-err e h = ground arith

  handle_put-body :
      key ≢ []
      → handle_put disk now after key (some req) node ≡ put_body disk now after key req node
  unfolding handle_put
  handle_put-body h = ground (arith, bytes_beq_iff key [])

  publication-sent :
      (n : ℕ)
      → All
          (λ o. o.1 ≡ put_request key req.value n after (ttl_of req.ttl_seconds))
          (publication n).2
  unfolding published replicate
  publication-sent n =
      requests-All (update_last_served n node.replicator)
        (put_request key req.value n after (ttl_of req.ttl_seconds)) (get_all node.peers)

  publication-store : (n : ℕ) → (publication n).0.store ≡ written.0
  unfolding published
  publication-store n = refl

  publication-response : (n : ℕ) → (publication n).1 ≡ record { status = 200; body = new_version n }
  unfolding published
  publication-response n = refl

  -- A PUT that answers with 200 has offered its value to the store, with an expiry of its ttl and a
  -- version that the store drew: the key has that entry or one of a higher version, no other key
  -- has changed, the answer holds the version of the entry that the key has, and every request to a
  -- peer carries the PUT's value under that version.
  pub handle_put_effect :
      length node.store.shards ≡ 32
      → key ≢ []
      → (handle_put disk now after key (some req) node).1.status ≡ 200
      → IsPut now after key req node (handle_put disk now after key (some req) node)
  handle_put_effect number named h = elim (Result-cases written.1) [
    | inl (n, done) ↦
        let effect =
          set_effect disk now key req.value (ttl_of req.ttl_seconds) 0 node.store n number done in
        let same = handle_put-body named ∙ put_body-ok n done in
        rw same (record {
          version = n;
          answered = publication-response n;
          kept = effect.0;
          stored = λ j. ap (λ s. entry_of s j) (publication-store n) ∙ effect.1 j;
          sent = publication-sent n;
        })
    | inr (e, failed) ↦ absurd (
        omega (
          arith,
          h,
          ap (λ (x : Node × Response × Outgoing). x.1.status) (handle_put-body named),
          put_body-err e failed,
        ))
  ]

to_int64-negative : (u : ℕ) → 2 ^ 63 ≤ u → to_int64 u ≡ negsuc (2 ^ 64 - u - 1)
unfolding to_int64
to_int64-negative u h = ground arith

-- A ttl whose nanoseconds wrap an int64 to below zero is no expiry at all.
expiry-long_ttl :
    (now seconds : ℕ)
    → 2 ^ 63 ≤ seconds * 1000000000
    → seconds * 1000000000 < 2 ^ 64
    → expiry now (ttl_of (some (pos seconds))) ≡ zero_time
unfolding expiry ttl_of
expiry-long_ttl now zero low high = absurd (omega arith)
expiry-long_ttl now (suc n) low high =
    rw (to_int64-negative (suc n * 1000000000 % 2 ^ 64) (omega arith))

-- A PUT with a ttl of so many seconds that their nanoseconds are 2 ^ 63 or more and below 2 ^ 64,
-- and so wrap to below zero as an int64: if it answers with 200, the entry that it offered has no
-- expiry.
pub handle_put-long_ttl :
    (disk : Disk) (now : Times) (after : ℕ) (key value : Bytes) (seconds : ℕ) (node : Node)
    → length node.store.shards ≡ 32
    → key ≢ []
    → 2 ^ 63 ≤ seconds * 1000000000
    → seconds * 1000000000 < 2 ^ 64
    → let req : PutRequest = record { value = value; ttl_seconds = some (pos seconds) } in
      let out = handle_put disk now after key (some req) node in
      out.1.status ≡ 200
      → entry_of out.0.store key
        ≡ some (
            merge (entry_of node.store key) (record {
              value = value;
              version = (choose_version now.for_version 0 node.store).1;
              expires_at = zero_time;
            }))
handle_put-long_ttl disk now after key value seconds node number named low high h =
    let req : PutRequest = record { value = value; ttl_seconds = some (pos seconds) } in
    let done = handle_put_effect disk now after key req node number named h in
    let drawn = (choose_version now.for_version 0 node.store).1 in
    done.stored key
    ∙ rw ((bytes_beq_iff key key).1 refl) (
        ap
          (λ t. some (
            merge (entry_of node.store key)
              (record { value = value; version = drawn; expires_at = t })))
          (expiry-long_ttl now.for_expiry seconds low high))
