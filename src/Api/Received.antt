-- ===== src/Api/Received.antt =====
-- The replicated PUT at a peer (internal/api/handlers.go: handleInternalReplicate).
use high_performance_kv_stor.Prelude.{
  ℕ, zero, suc, ◌<◌, ◌≡◌, refl, ◌∙◌, ap, some, arith, length, Bytes, bytes_eq, ◌==◌, string_eq,
  if◌then◌else◌,
}
use high_performance_kv_stor.Prelude.Int.{ℤ}
use high_performance_kv_stor.Store.Entry.{Time}
use high_performance_kv_stor.Store.Wal.{Disk, expiry_nanos}
use high_performance_kv_stor.Store.State.{
  Store, Times, Result, ok, err, set, entry_of, expiry, choose_version,
}
use high_performance_kv_stor.Store.State.Writes.{merge}
use high_performance_kv_stor.Store.State.Effects.{set_effect}
use high_performance_kv_stor.Api.{
  Node, replicated_ttl, acknowledge, replicated, handle_internal_replicate,
}
use high_performance_kv_stor.Api.Put.{put_request}

acknowledge-ok {ℓ} :
    {A : Type ℓ} (node : Node) (x : Store × Result A)
    → (acknowledge node x).1.status ≡ 200
    → (a : A) × (x.1 ≡ ok a)
acknowledge-ok node (store, ok a) h = (a, refl)
acknowledge-ok node (store, err e) h = absurd (omega (arith, h))

pub acknowledge-store {ℓ} :
    {A : Type ℓ} (node : Node) (x : Store × Result A) → (acknowledge node x).0.store ≡ x.0
acknowledge-store node (store, ok a) = refl
acknowledge-store node (store, err e) = refl

-- A peer that answers a replicated SET with 200 has offered the same value and version to its
-- store, under some expiry; its other keys have not changed.
pub replicated_put :
    (disk : Disk) (until : ℕ) (now : Times) (key value : Bytes) (version after : ℕ) (ttl : ℤ)
    (peer : Node)
    → length peer.store.shards ≡ 32
    → 0 < version
    → let req = put_request key value version after ttl in
      let out = handle_internal_replicate disk until now (some req) peer in
      out.1.status ≡ 200
      → (t : Time) × ((j : Bytes)
          → entry_of out.0.store j ≡ (
              if key == j
              then some (
                  merge
                    (entry_of peer.store key)
                    (record { value = value; version = version; expires_at = t }))
              else entry_of peer.store j))
unfolding handle_internal_replicate replicated choose_version
replicated_put disk until now key value zero after ttl peer number numbered h = absurd (omega arith)
replicated_put disk until now key value (suc v) after ttl peer number numbered h =
    let left = replicated_ttl until (expiry_nanos (expiry after ttl)) in
    let (n, done) = acknowledge-ok peer (set disk now key value left (suc v) peer.store) h in
    let effect = set_effect disk now key value left (suc v) peer.store n number done in
    (
      expiry now.for_expiry left,
      λ j.
          ap (λ s. entry_of s j)
            (acknowledge-store peer (set disk now key value left (suc v) peer.store))
          ∙ effect.1 j,
    )
