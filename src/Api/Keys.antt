-- ===== src/Api/Keys.antt =====
-- GET and DELETE of one key (internal/api/handlers.go: handleGetKey, handleDeleteKey).
use high_performance_kv_stor.Prelude.{
  ℕ, ◌≡◌, ◌≢◌, refl, ◌∙◌, ap, Bool, [], Option, none, some, arith, inl, inr, length, All, Bytes,
  bytes_eq, bytes_beq_iff, ◌==◌, if◌then◌else◌,
}
use high_performance_kv_stor.Store.Entry.{zero_time}
use high_performance_kv_stor.Store.Wal.{Disk, WalError, expiry_nanos}
use high_performance_kv_stor.Store.State.{Store, Result, ok, err, entry_of, delete_key}
use high_performance_kv_stor.Store.State.Writes.{survivor}
use high_performance_kv_stor.Store.State.Effects.{delete_reply, delete_version, delete_effect}
use high_performance_kv_stor.Store.State.Reads.{visible, get_reply}
use high_performance_kv_stor.Cluster.Peer.{get_all}
use high_performance_kv_stor.Cluster.Replication.{ReplicateRequest, replicate, update_last_served}
use high_performance_kv_stor.Api.{
  Node, error_text, value_version, deleted_version, Response, Outgoing, published, handle_get,
  delete_body, handle_delete,
}
use high_performance_kv_stor.Api.Put.{requests-All, Result-cases}

-- The answer to a GET, from what a client can see of the key.
abbrev pub get_response : Option (Bytes × ℕ) → Response
get_response none = record { status = 404; body = error_text "key not found" }
get_response (some (value, version)) = record { status = 200; body = value_version value version }

-- A GET of a key answers with 200 and the value and version of its entry, or with 404 if the key has
-- none or the entry has expired.
pub handle_get-response :
    (now later : ℕ) (key : Bytes) (node : Node)
    → key ≢ []
    → (handle_get now later key node).1 ≡ get_response (visible now (entry_of node.store key))
unfolding handle_get
handle_get-response now later key node named =
    ground (arith, bytes_beq_iff key [], get_reply now later key node.store)

-- The request that a DELETE sends to its peers.
abbrev delete_request : Bytes → ℕ → ReplicateRequest
delete_request key version = record {
  key = key;
  value = [];
  version = version;
  expires_at = expiry_nanos zero_time;
  action = "DELETE";
}

-- What a DELETE that answers with 200 has done.
pub record IsDelete (disk : Disk) (now : ℕ) (key : Bytes) (node : Node)
    (out : Node × Response × Outgoing) : Type 0 where
  pub version : ℕ
  pub deleted : Bool
  pub answered : out.1 ≡ record { status = 200; body = deleted_version version deleted }
  pub reply :
      (version, deleted)
      ≡ delete_reply (entry_of node.store key) (delete_version disk now key 0 node.store)
  pub stored :
      (j : Bytes)
      → entry_of out.0.store j ≡ (
          if key == j
          then survivor (entry_of node.store key) (delete_version disk now key 0 node.store)
          else entry_of node.store j)
  pub sent : All (λ o. o.1 ≡ delete_request key version) out.2

module _ (disk : Disk) (now : ℕ) (key : Bytes) (node : Node) where
  abbrev erased_store : Store × Result (ℕ × Bool)
  erased_store = delete_key disk now key 0 node.store

  abbrev announcement : ℕ → Bool → Node × Response × Outgoing
  announcement version gone =
      published node erased_store.0 key [] version zero_time "DELETE" (deleted_version version gone)

  delete_body-ok :
      (version : ℕ) (gone : Bool)
      → erased_store.1 ≡ ok (version, gone)
      → delete_body disk now key node ≡ announcement version gone
  unfolding delete_body
  delete_body-ok version gone h = ground arith

  delete_body-err :
      (e : WalError) → erased_store.1 ≡ err e → (delete_body disk now key node).1.status ≡ 500
  unfolding delete_body
  delete_body-err e h = ground arith

  handle_delete-body : key ≢ [] → handle_delete disk now key node ≡ delete_body disk now key node
  unfolding handle_delete
  handle_delete-body h = ground (arith, bytes_beq_iff key [])

  announcement-sent :
      (version : ℕ) (gone : Bool)
      → All (λ o. o.1 ≡ delete_request key version) (announcement version gone).2
  unfolding published replicate
  announcement-sent version gone =
      requests-All (update_last_served version node.replicator) (delete_request key version)
        (get_all node.peers)

  announcement-store :
      (version : ℕ) (gone : Bool) → (announcement version gone).0.store ≡ erased_store.0
  unfolding published
  announcement-store version gone = refl

  announcement-response :
      (version : ℕ) (gone : Bool)
      → (announcement version gone).1 ≡ record { status = 200; body = deleted_version version gone }
  unfolding published
  announcement-response version gone = refl

  -- A DELETE that answers with 200 drew a version from the store: an entry of a higher version is
  -- still there and the answer says so, any other is gone, no other key has changed, and every
  -- request to a peer carries the delete under the version of the answer.
  pub handle_delete_effect :
      length node.store.shards ≡ 32
      → key ≢ []
      → (handle_delete disk now key node).1.status ≡ 200
      → IsDelete disk now key node (handle_delete disk now key node)
  handle_delete_effect number named h = elim (Result-cases erased_store.1) [
    | inl ((version, gone), done) ↦
        let effect = delete_effect disk now key 0 node.store (version, gone) number done in
        let same = handle_delete-body named ∙ delete_body-ok version gone done in
        rw same (record {
          version = version;
          deleted = gone;
          answered = announcement-response version gone;
          reply = effect.0;
          stored = λ j. ap (λ s. entry_of s j) (announcement-store version gone) ∙ effect.1 j;
          sent = announcement-sent version gone;
        })
    | inr (e, failed) ↦ absurd (
        omega (
          arith,
          h,
          ap (λ (x : Node × Response × Outgoing). x.1.status) (handle_delete-body named),
          delete_body-err e failed,
        ))
  ]
