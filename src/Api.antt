-- ===== src/Api.antt =====
-- internal/api/handlers.go: the handlers of the key routes, of the list of keys and of the
-- replication route, on the state of one node. A request's JSON body is the record that it decodes
-- to, or none.
pub mod Members
pub mod Exchange
pub mod Router
pub mod Put
pub mod Received
pub mod Stale
pub mod Listing
pub mod Keys
pub mod Agreement
use high_performance_kv_stor.Prelude.{
  ℕ, zero, suc, ◌*◌, ◌%◌, ◌^◌, Bool, true, false, List, [], ◌∷◌, Option, none, some, ltb, leb,
  Bytes, bytes_eq, String, string_eq, ◌==◌, if◌then◌else◌,
}
use high_performance_kv_stor.Prelude.Int.{ℤ, pos, negsuc, sub_ℕ, ltb_ℤ}
use high_performance_kv_stor.Store.Entry.{Time, zero_time, instant}
use high_performance_kv_stor.Store.Wal.{Disk, WalError}
use high_performance_kv_stor.Store.State.{
  Store, Times, Result, ok, err, get, set, delete_key, expiry,
}
use high_performance_kv_stor.Store.Scan.{scan}
use high_performance_kv_stor.Cluster.Peer.{Peer, PeerManager}
use high_performance_kv_stor.Metrics.{Line}
use high_performance_kv_stor.Cluster.Replication.{Replicator, ReplicateRequest, replicate, to_int64}

pub record Node : Type 0 where
  pub store : Store
  pub peers : PeerManager
  pub replicator : Replicator

-- ClusterStatusResponse; the uptime in nanoseconds, where the source has seconds.
pub record ClusterStatus : Type 0 where
  pub node_id : String
  pub role : String
  pub uptime : ℕ
  pub store_size : ℤ
  pub wal_size_bytes : ℕ
  pub peers_count : ℕ

-- The bodies that the handlers write.
pub data Body : Type 0 where
  no_body : Body
  error_text : String → Body
  wal_failure : WalError → Body
  value_version : Bytes → ℕ → Body
  new_version : ℕ → Body
  deleted_version : ℕ → Bool → Body
  key_page : List Bytes → Bytes → Body
  peer_list : List Peer → Body
  cluster_status : ClusterStatus → Body
  text : String → Body
  metrics : List Line → Body

pub record Response : Type 0 where
  pub status : ℕ
  pub body : Body

pub record PutRequest : Type 0 where
  pub value : Bytes
  pub ttl_seconds : Option ℤ

abbrev pub Outgoing : Type 0
Outgoing = List (Peer × ReplicateRequest)

-- `time.Duration(*req.TTLSeconds) * time.Second` for a positive number of seconds: an int64
unfoldable pub ttl_of : Option ℤ → ℤ
ttl_of (some (pos (suc n))) = to_int64 (suc n * 1000000000 % 2 ^ 64)
ttl_of ttl_seconds = pos 0

unfoldable pub handle_get : ℕ → ℕ → Bytes → Node → Node × Response
handle_get now later key node =
    let (store, found) = get now later key node.store in
    if key == [] then (node, record { status = 400; body = error_text "key required" }) else (
      record node { store = store },
      elim found [
        | none ↦ record { status = 404; body = error_text "key not found" }
        | some (value, version) ↦ record { status = 200; body = value_version value version }
      ],
    )

-- What follows a write of the store that worked: replication, and the answer.
unfoldable pub published :
    Node → Store → Bytes → Bytes → ℕ → Time → String → Body → Node × Response × Outgoing
published node store key value version expires_at action body =
    let (replicator, outgoing) =
      replicate key value version expires_at action node.peers node.replicator in
    (
      record node { store = store; replicator = replicator },
      record { status = 200; body = body },
      outgoing,
    )

unfoldable pub put_body : Disk → Times → ℕ → Bytes → PutRequest → Node → Node × Response × Outgoing
put_body disk now after key req node =
    let ttl = ttl_of req.ttl_seconds in
    let (store, result) = set disk now key req.value ttl 0 node.store in
    elim result [
      | err e ↦ (record node { store = store }, record { status = 500; body = wal_failure e }, [])
      | ok version ↦
          published node store key req.value version (expiry after ttl) "SET" (new_version version)
    ]

-- `after` is the clock's reading for the expiry that is replicated.
unfoldable pub handle_put :
    Disk → Times → ℕ → Bytes → Option PutRequest → Node → Node × Response × Outgoing
unfolding put_body published ttl_of
handle_put disk now after key body node =
    if key == []
    then (node, record { status = 400; body = error_text "key required" }, [])
    else elim body [
      | none ↦ (node, record { status = 400; body = error_text "invalid request json" }, [])
      | some req ↦ put_body disk now after key req node
    ]

unfoldable pub delete_body : Disk → ℕ → Bytes → Node → Node × Response × Outgoing
delete_body disk now key node =
    let (store, result) = delete_key disk now key 0 node.store in
    elim result [
      | err e ↦ (record node { store = store }, record { status = 500; body = wal_failure e }, [])
      | ok (version, deleted) ↦
          published node store key [] version zero_time "DELETE" (deleted_version version deleted)
    ]

unfoldable pub handle_delete : Disk → ℕ → Bytes → Node → Node × Response × Outgoing
unfolding delete_body published
handle_delete disk now key node =
    if key == []
    then (node, record { status = 400; body = error_text "key required" }, [])
    else delete_body disk now key node

-- The ttl of a replicated Set: what is left until its expiry, but a millisecond at least.
unfoldable pub replicated_ttl : ℕ → ℕ → ℤ
replicated_ttl now zero = pos 0
replicated_ttl now (suc t) =
    let left = sub_ℕ (suc t) now in if ltb_ℤ (pos 0) left then left else pos 1000000

abbrev pub acknowledge {ℓ} : {A : Type ℓ} → Node → Store × Result A → Node × Response
acknowledge node (store, ok a) =
    (record node { store = store }, record { status = 200; body = no_body })
acknowledge node (store, err e) =
    (record node { store = store }, record { status = 500; body = wal_failure e })

unfoldable pub replicated : Disk → ℕ → Times → ReplicateRequest → Node → Node × Response
unfolding replicated_ttl
replicated disk until now req node =
    if req.action == "SET"
    then acknowledge node (
        set disk now req.key req.value (replicated_ttl until req.expires_at) req.version node.store)
    else if req.action == "DELETE"
    then acknowledge node (delete_key disk now.for_version req.key req.version node.store)
    else (node, record { status = 200; body = no_body })

unfoldable pub handle_internal_replicate :
    Disk → ℕ → Times → Option ReplicateRequest → Node → Node × Response
unfolding replicated
handle_internal_replicate disk until now none node =
    (node, record { status = 400; body = error_text "invalid request json" })
handle_internal_replicate disk until now (some req) node = replicated disk until now req node

-- The limit of a list request: what strconv.Atoi makes of the parameter, if that is a number.
pub list_limit : Option ℤ → ℕ
list_limit (some (pos (suc n))) = if ltb 1000 (suc n) then 1000 else suc n
list_limit parsed = 100

-- No result stands for a panic.
pub handle_list_keys : ℕ → Bytes → Bytes → Option ℤ → Node → Option Response
unfolding list_limit
handle_list_keys now prefix cursor limit node =
    elim (scan now prefix (list_limit limit) cursor node.store) [
      | none ↦ none
      | some (keys, next) ↦ some (record { status = 200; body = key_page keys next })
    ]
