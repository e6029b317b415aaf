-- ===== src/Api/Agreement.antt =====
-- Replicated PUTs as they arrive at the peers of a cluster (internal/api/handlers.go:
-- handleInternalReplicate): in another order at each peer, and some of them more than once.
use mathlib.Core.List.{Subset}
use high_performance_kv_stor.Prelude.{
  ℕ, zero, suc, ◌<◌, ◌≡◌, ◌⊎◌, refl, sym, ◌∙◌, ap, false, List, [], ◌∷◌, some, arith, All, bytes_eq,
  string_eq, if◌then◌else◌, nat_beq, inl, inr,
}
use high_performance_kv_stor.Prelude.Int.{pos}
use high_performance_kv_stor.Store.Entry.{Entry, zero_time}
use high_performance_kv_stor.Store.Wal.{Disk, WalError}
use high_performance_kv_stor.Store.State.{
  Store, Times, Result, ok, err, set, entry_of, expiry, choose_version, store_entry,
}
use high_performance_kv_stor.Store.State.Shards.{IsValid}
use high_performance_kv_stor.Store.State.Invariant.{set-IsValid, store_entry-IsValid}
use high_performance_kv_stor.Store.State.Writes.{entry_of-store_entry}
use high_performance_kv_stor.Store.State.Effects.{set_effect, set_failure}
use high_performance_kv_stor.Store.State.Converge.{
  Write, store_all, SameEntries, HasOwnVersions, store_all-SameEntries,
}
use high_performance_kv_stor.Store.State.Repeats.{store_all-Subset}
use high_performance_kv_stor.Cluster.Replication.{ReplicateRequest}
use high_performance_kv_stor.Api.Received.{acknowledge-store}
use high_performance_kv_stor.Api.{
  Node, Response, replicated_ttl, acknowledge, replicated, handle_internal_replicate,
}

-- A request that arrives, with the disk and the clock that it finds.
pub record Delivery : Type 0 where
  pub disk : Disk
  pub until : ℕ
  pub now : Times
  pub request : ReplicateRequest

abbrev deliver : Delivery → Node → Node × Response
deliver d node = handle_internal_replicate d.disk d.until d.now (some d.request) node

abbrev pub deliver_all : List Delivery → Node → Node
deliver_all [] node = node
deliver_all (d ∷ ds) node = deliver_all ds (deliver d node).0

-- A SET without an expiry, as a PUT without a ttl sends it.
pub record IsLasting (d : Delivery) : Type 0 where
  pub action : d.request.action ≡ "SET"
  pub forever : d.request.expires_at ≡ 0
  pub numbered : 0 < d.request.version

abbrev write_of : ReplicateRequest → Write
write_of r = (r.key, record { value = r.value; version = r.version; expires_at = zero_time })

-- The writes that a peer answers with 200.
abbrev pub acknowledged : List Delivery → Node → List Write
acknowledged [] node = []
acknowledged (d ∷ ds) node =
    let out = deliver d node in
    let rest = acknowledged ds out.0 in
    if nat_beq out.1.status 200 then write_of d.request ∷ rest else rest

-- What a request leaves: its write, if the answer is 200, and else nothing.
abbrev Landed : Store → Write → Node × Response → Type 0
Landed s w out =
    ((out.1.status ≡ 200) × SameEntries out.0.store (store_entry w.0 w.1 s).0)
    ⊎ ((nat_beq out.1.status 200 ≡ false) × SameEntries out.0.store s)

acknowledge-Landed :
    (node : Node) (s : Store) (w : Write) (x : Store × Result ℕ)
    → ((n : ℕ) → x.1 ≡ ok n → SameEntries x.0 (store_entry w.0 w.1 s).0)
    → ((e : WalError) → x.1 ≡ err e → SameEntries x.0 s)
    → Landed s w (acknowledge node x)
acknowledge-Landed node s w (store, ok n) good bad = inl (refl, good n refl)
acknowledge-Landed node s w (store, err e) good bad = inr (refl, bad e refl)

deliver-Landed :
    (d : Delivery) (node : Node) (version : ℕ)
    → IsValid node.store
    → d.request.action ≡ "SET"
    → d.request.expires_at ≡ 0
    → d.request.version ≡ suc version
    → Landed node.store (write_of d.request) (deliver d node)
unfolding handle_internal_replicate replicated replicated_ttl choose_version expiry
deliver-Landed d node version v action forever numbered =
    let key = d.request.key in
    let value = d.request.value in
    let e : Entry = record { value = value; version = suc version; expires_at = zero_time } in
    rw (action, forever, numbered)
      (acknowledge-Landed node node.store (key, e)
        (set d.disk d.now key value (pos 0) (suc version) node.store)
        (λ n good j.
          (set_effect d.disk d.now key value (pos 0) (suc version) node.store n v.shard_number
              good).1
            j
          ∙ sym (entry_of-store_entry node.store v.shard_number key e j))
        (λ failure bad.
          (set_failure d.disk d.now key value (pos 0) (suc version) node.store failure bad).1))

positive : (n : ℕ) → 0 < n → (m : ℕ) × (n ≡ suc m)
positive zero h = absurd (omega arith)
positive (suc m) h = (m, refl)

deliver-IsValid :
    (d : Delivery) (node : Node)
    → IsValid node.store
    → d.request.action ≡ "SET"
    → IsValid (deliver d node).0.store
unfolding handle_internal_replicate replicated
deliver-IsValid d node v action = rw action (
    rw
      (acknowledge-store node (
        set d.disk d.now d.request.key d.request.value (replicated_ttl d.until d.request.expires_at)
          d.request.version node.store))
      (set-IsValid v d.disk d.now d.request.key d.request.value
        (replicated_ttl d.until d.request.expires_at) d.request.version))

-- A node that has received requests holds what the acknowledged writes make of its store.
entry_of-deliver_all :
    (ds : List Delivery) (node : Node)
    → IsValid node.store
    → All IsLasting ds
    → SameEntries (deliver_all ds node).store (store_all (acknowledged ds node) node.store)
entry_of-deliver_all [] node v lasting j = refl
entry_of-deliver_all (d ∷ ds) node v lasting j =
    let out = (deliver d node).0 in
    let after = deliver-IsValid d node v lasting.0.action in
    let all = acknowledged (d ∷ ds) node in
    let (version, numbered) = positive d.request.version lasting.0.numbered in
    let ws = acknowledged ds out in
    let rest = entry_of-deliver_all ds out after lasting.1 j in
    elim (deliver-Landed d node version v lasting.0.action lasting.0.forever numbered) [
      | inl (good, same) ↦
          rest
          ∙ store_all-SameEntries ws out.store
              (store_entry d.request.key (write_of d.request).1 node.store).0 after
              (store_entry-IsValid v d.request.key (write_of d.request).1) same j
          ∙ ap (λ l. entry_of (store_all l node.store) j) {x = write_of d.request ∷ ws} {y = all}
              (rw good refl)
      | inr (bad, same) ↦
          rest
          ∙ store_all-SameEntries ws out.store node.store after v same j
          ∙ ap (λ l. entry_of (store_all l node.store) j) {x = ws} {y = all} (rw bad refl)
    ]

-- Two nodes of a cluster, whose stores are well formed and hold the same entries, receive
-- replicated PUTs with a version and without a ttl: each in an order of its own, some of them
-- again, with clocks of their own and logs that may fail. If they have answered the same writes
-- with 200, and each version names one write, they hold the same entries at the end.
pub deliver_all-SameEntries :
    (ds es : List Delivery) (a b : Node)
    → IsValid a.store
    → IsValid b.store
    → SameEntries a.store b.store
    → All IsLasting ds
    → All IsLasting es
    → HasOwnVersions (acknowledged ds a)
    → Subset (acknowledged ds a) (acknowledged es b)
    → Subset (acknowledged es b) (acknowledged ds a)
    → SameEntries (deliver_all ds a).store (deliver_all es b).store
deliver_all-SameEntries ds es a b v u same lasting₁ lasting₂ own sub sup j =
    entry_of-deliver_all ds a v lasting₁ j
    ∙ store_all-Subset (acknowledged ds a) (acknowledged es b) v own sub sup j
    ∙ store_all-SameEntries (acknowledged es b) a.store b.store v u same j
    ∙ sym (entry_of-deliver_all es b u lasting₂ j)
