-- ===== src/Api/Router/Sound.antt =====
-- No request leaves a node malformed (internal/api/router.go, internal/api/handlers.go).
use high_performance_kv_stor.Prelude.{
  ℕ, inl, inr, ◌||◌, ◌&&◌, not, [], Option, none, some, Bytes, bytes_eq, String, string_eq, ◌==◌,
  Bool-cases, Option-cases,
}
use high_performance_kv_stor.Store.Wal.{Disk}
use high_performance_kv_stor.Store.State.{Store, Times, Result, ok, err, set, delete_key}
use high_performance_kv_stor.Store.State.Shards.{IsValid}
use high_performance_kv_stor.Store.State.Invariant.{get-IsValid, set-IsValid, delete_key-IsValid}
use high_performance_kv_stor.Cluster.Peer.{state_alive}
use high_performance_kv_stor.Cluster.Peer.Laws.{IsPeerTable, add_or_update-IsPeerTable}
use high_performance_kv_stor.Cluster.Replication.{ReplicateRequest}
use high_performance_kv_stor.Config.{Config}
use high_performance_kv_stor.Api.{
  Node, handle_list_keys, PutRequest, ttl_of, handle_get, handle_put, put_body, published,
  handle_delete, delete_body, handle_internal_replicate, replicated, replicated_ttl, acknowledge,
}
use high_performance_kv_stor.Api.Put.{Result-cases}
use high_performance_kv_stor.Api.Members.{handle_internal_ping}
use high_performance_kv_stor.Api.Router.{
  Pattern, kv, keys, peers, status, healthz, metrics_page, ping, replication, dashboard,
  dashboard_file, other, Request, Machine, Server, Handled, get_only, route_key, route_keys, route,
  recovered, serve,
}

pub record IsSound (node : Node) : Type 0 where
  pub store_valid : IsValid node.store
  pub peers_valid : IsPeerTable node.peers

new_store-IsSound :
    {node : Node} {store : Store}
    → IsSound node
    → IsValid store
    → IsSound (record node { store = store })
new_store-IsSound h v = record { store_valid = v; peers_valid = h.peers_valid }

handle_get-IsSound :
    (now later : ℕ) (key : Bytes) {node : Node}
    → IsSound node
    → IsSound (handle_get now later key node).0
unfolding handle_get
handle_get-IsSound now later key {node} h = elim (Bool-cases (key == [])) [
  | inl empty ↦ rw (empty, handle_get) h
  | inr named ↦
      rw (named, handle_get) (new_store-IsSound h (get-IsValid h.store_valid now later key))
]

put_body-IsSound :
    (disk : Disk) (now : Times) (after : ℕ) (key : Bytes) (req : PutRequest) {node : Node}
    → IsSound node
    → IsSound (put_body disk now after key req node).0
unfolding put_body published
put_body-IsSound disk now after key req {node} h =
    let v = set-IsValid h.store_valid disk now key req.value (ttl_of req.ttl_seconds) 0 in
    elim (Result-cases (set disk now key req.value (ttl_of req.ttl_seconds) 0 node.store).1) [
      | inl (version, worked) ↦
          rw (worked, put_body) (record { store_valid = v; peers_valid = h.peers_valid })
      | inr (failure, failed) ↦ rw (failed, put_body) (new_store-IsSound h v)
    ]

handle_put-IsSound :
    (disk : Disk) (now : Times) (after : ℕ) (key : Bytes) (body : Option PutRequest) {node : Node}
    → IsSound node
    → IsSound (handle_put disk now after key body node).0
unfolding handle_put
handle_put-IsSound disk now after key body {node} h = elim (Bool-cases (key == [])) [
  | inl empty ↦ rw (empty, handle_put) h
  | inr named ↦ elim (Option-cases body) [
    | inl bad ↦ rw (named, bad, handle_put) h
    | inr (req, good) ↦ rw (named, good, handle_put) (put_body-IsSound disk now after key req h)
  ]
]

delete_body-IsSound :
    (disk : Disk) (now : ℕ) (key : Bytes) {node : Node}
    → IsSound node
    → IsSound (delete_body disk now key node).0
unfolding delete_body published
delete_body-IsSound disk now key {node} h =
    let v = delete_key-IsValid h.store_valid disk now key 0 in
    elim (Result-cases (delete_key disk now key 0 node.store).1) [
      | inl (reply, worked) ↦
          rw (worked, delete_body) (record { store_valid = v; peers_valid = h.peers_valid })
      | inr (failure, failed) ↦ rw (failed, delete_body) (new_store-IsSound h v)
    ]

handle_delete-IsSound :
    (disk : Disk) (now : ℕ) (key : Bytes) {node : Node}
    → IsSound node
    → IsSound (handle_delete disk now key node).0
unfolding handle_delete
handle_delete-IsSound disk now key {node} h = elim (Bool-cases (key == [])) [
  | inl empty ↦ rw (empty, handle_delete) h
  | inr named ↦ rw (named, handle_delete) (delete_body-IsSound disk now key h)
]

acknowledge-IsSound {ℓ} :
    {A : Type ℓ} {node : Node} (out : Store × Result A)
    → IsSound node
    → IsValid out.0
    → IsSound (acknowledge node out).0
acknowledge-IsSound (store, ok a) h v = new_store-IsSound h v
acknowledge-IsSound (store, err e) h v = new_store-IsSound h v

replicated-IsSound :
    (disk : Disk) (until : ℕ) (now : Times) (req : ReplicateRequest) {node : Node}
    → IsSound node
    → IsSound (replicated disk until now req node).0
unfolding replicated
replicated-IsSound disk until now req {node} h = elim (Bool-cases (req.action == "SET")) [
  | inl sets ↦
      let ttl = replicated_ttl until req.expires_at in
      rw sets (
        acknowledge-IsSound (set disk now req.key req.value ttl req.version node.store) h
          (set-IsValid h.store_valid disk now req.key req.value ttl req.version))
  | inr not_set ↦ elim (Bool-cases (req.action == "DELETE")) [
    | inl deletes ↦
        rw (not_set, deletes)
          (acknowledge-IsSound (delete_key disk now.for_version req.key req.version node.store) h
            (delete_key-IsValid h.store_valid disk now.for_version req.key req.version))
    | inr unknown ↦ rw (not_set, unknown) h
  ]
]

handle_internal_replicate-IsSound :
    (disk : Disk) (until : ℕ) (now : Times) (body : Option ReplicateRequest) {node : Node}
    → IsSound node
    → IsSound (handle_internal_replicate disk until now body node).0
unfolding handle_internal_replicate
handle_internal_replicate-IsSound disk until now none h = h
handle_internal_replicate-IsSound disk until now (some req) h =
    replicated-IsSound disk until now req h

handle_internal_ping-IsSound :
    (cfg : Config) (now later : ℕ) (sender_id sender_addr : String) {node : Node}
    → IsSound node
    → IsSound (handle_internal_ping cfg now later sender_id sender_addr node).0
unfolding handle_internal_ping
handle_internal_ping-IsSound cfg now later sender_id sender_addr {node} h =
    elim (Bool-cases (not (sender_id == "") && not (sender_addr == ""))) [
      | inl both ↦ rw both (record {
        store_valid = h.store_valid;
        peers_valid = add_or_update-IsPeerTable now sender_id sender_addr state_alive h.peers_valid;
      })
      | inr missing ↦
          rw missing (record { store_valid = h.store_valid; peers_valid = h.peers_valid })
    ]

-- A handler's outcome, of which the node is sound.
abbrev IsSoundly : Node → Handled → Type 0
IsSoundly node handled = IsSound (recovered node handled).0

get_only-IsSoundly :
    (method : String) {node : Node} (handled : Handled)
    → IsSound node
    → IsSoundly node handled
    → IsSoundly node (get_only method node handled)
unfolding recovered
get_only-IsSoundly method handled h k = elim (Bool-cases (method == "GET" || method == "HEAD")) [
  | inl gets ↦ rw gets k
  | inr not_get ↦ rw not_get h
]

route_key-IsSoundly :
    (m : Machine) (req : Request) (key : Bytes) {node : Node}
    → IsSound node
    → IsSoundly node (route_key m req key node)
unfolding route_key recovered
route_key-IsSoundly m req key {node} h =
    elim (Bool-cases (req.method == "GET" || req.method == "HEAD")) [
      | inl gets ↦ rw gets (handle_get-IsSound m.now.for_version m.later key h)
      | inr not_get ↦ elim (Bool-cases (req.method == "PUT")) [
        | inl puts ↦
            rw (not_get, puts) (handle_put-IsSound m.disk m.now m.later key req.put_request h)
        | inr not_put ↦ elim (Bool-cases (req.method == "DELETE")) [
          | inl deletes ↦
              rw (not_get, not_put, deletes) (handle_delete-IsSound m.disk m.now.for_version key h)
          | inr not_delete ↦ rw (not_get, not_put, not_delete) h
        ]
      ]
    ]

route_keys-IsSoundly :
    (m : Machine) (req : Request) {node : Node}
    → IsSound node
    → IsSoundly node (route_keys m req node)
unfolding route_keys recovered
route_keys-IsSoundly m req {node} h =
    elim (Option-cases (handle_list_keys m.later req.prefix req.cursor req.limit node)) [
      | inl panics ↦ rw (panics, route_keys) h
      | inr (response, answers) ↦ rw (answers, route_keys) h
    ]

route-IsSoundly :
    (m : Machine) (req : Request) (path : Pattern) (server : Server)
    → IsSound server.node
    → IsSoundly server.node (route m req path server)
unfolding route recovered
route-IsSoundly m req (kv key) server h = route_key-IsSoundly m req key h
route-IsSoundly m req keys server h =
    get_only-IsSoundly req.method _ h (route_keys-IsSoundly m req h)
route-IsSoundly m req ping server h = get_only-IsSoundly req.method _ h (
    handle_internal_ping-IsSound server.cfg m.now.for_version m.later req.sender_id req.sender_addr
      h)
route-IsSoundly m req replication server h = elim (Bool-cases (req.method == "POST")) [
  | inl posts ↦
      rw posts
        (handle_internal_replicate-IsSound m.disk m.now.for_expiry m.now req.replicate_request h)
  | inr not_post ↦ rw not_post h
]
route-IsSoundly m req peers server h = get_only-IsSoundly req.method _ h h
route-IsSoundly m req status server h = get_only-IsSoundly req.method _ h h
route-IsSoundly m req healthz server h = get_only-IsSoundly req.method _ h h
route-IsSoundly m req metrics_page server h = get_only-IsSoundly req.method _ h h
route-IsSoundly m req dashboard server h = get_only-IsSoundly req.method _ h h
route-IsSoundly m req dashboard_file server h = get_only-IsSoundly req.method _ h h
route-IsSoundly m req other server h = h

-- Whatever the request, and whatever the disk does, an answered request leaves the node well
-- formed: its store, with the count of its keys, and its table of peers.
pub serve-IsSound :
    (m : Machine) (req : Request) (server : Server)
    → IsSound server.node
    → IsSound (serve m req server).0.node
unfolding serve
serve-IsSound m req server h = route-IsSoundly m req req.path server h
