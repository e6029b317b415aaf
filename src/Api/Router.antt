-- ===== src/Api/Router.antt =====
-- internal/api/router.go and internal/api/middleware.go: one request, from the pattern that its path
-- matches to the answer and the metrics. http.ServeMux's match of the path is given; a HEAD is served
-- by the handler of GET.
pub mod Sound
pub mod Counted
use high_performance_kv_stor.Prelude.{
  ℕ, Bool, true, false, ◌||◌, List, [], ◌∷◌, Option, none, some, Bytes, String, string_eq, ◌==◌,
  if◌then◌else◌, nat_beq,
}
use high_performance_kv_stor.Prelude.Int.{ℤ, pos}
use high_performance_kv_stor.Store.Wal.{Disk, Wal}
use high_performance_kv_stor.Store.State.{Times, size}
use high_performance_kv_stor.Cluster.Peer.{get_all}
use high_performance_kv_stor.Cluster.Replication.{ReplicateRequest}
use high_performance_kv_stor.Config.{Config}
use high_performance_kv_stor.Metrics.{
  MetricsCollector, Sources, peer_count, write_prometheus, record_request, record_latency,
}
use high_performance_kv_stor.Api.{
  Node, Response, PutRequest, Outgoing, no_body, error_text, text, metrics, handle_get, handle_put,
  handle_delete, handle_list_keys, handle_internal_replicate,
}
use high_performance_kv_stor.Api.Members.{
  handle_cluster_peers, handle_cluster_status, handle_healthz, handle_internal_ping,
}

-- The pattern of NewHandler that a path matches, or none of them.
pub data Pattern : Type 0 where
  kv : Bytes → Pattern
  keys peers status healthz metrics_page ping replication dashboard dashboard_file other : Pattern

-- What the handlers read of a request: the method, the path, the query and the decoded body.
pub record Request : Type 0 where
  pub method : String
  pub path : Pattern
  pub url_path : String
  pub prefix : Bytes
  pub cursor : Bytes
  pub limit : Option ℤ
  pub sender_id : String
  pub sender_addr : String
  pub put_request : Option PutRequest
  pub replicate_request : Option ReplicateRequest

-- The machine during one request: the log's disk, the readings of the clock, the uptime, what the
-- file server answers, and how long the request takes.
pub record Machine : Type 0 where
  pub disk : Disk
  pub now : Times
  pub later : ℕ
  pub uptime : ℕ
  pub static : Response
  pub duration : ℕ

pub record Server : Type 0 where
  pub node : Node
  pub collector : MetricsCollector
  pub cfg : Config

-- A handler's outcome; none for a panic.
abbrev pub Handled : Type 0
Handled = Option (Node × Response × Outgoing)

abbrev pub reply : Node → Response → Handled
reply node response = some (node, response, [])

-- The functions that main gives the collector.
abbrev sources_of : Node → Sources
sources_of node = record {
  store_size = some (size node.store);
  wal_size = elim node.store.wal [ none ↦ none | some w ↦ some (pos w.size) ];
  peer_count = some (peer_count (get_all node.peers));
}

unfoldable pub handle_metrics : Server → Response
handle_metrics server = record {
  status = 200;
  body = metrics (write_prometheus (sources_of server.node) server.collector);
}

abbrev pub method_not_allowed : Node → Handled
method_not_allowed node = reply node (record { status = 405; body = text "Method Not Allowed" })

-- A pattern that is registered for GET only.
abbrev pub get_only : String → Node → Handled → Handled
get_only method node handled =
    if method == "GET" || method == "HEAD" then handled else method_not_allowed node

abbrev pair_reply : Node × Response → Handled
pair_reply (node, response) = reply node response

unfoldable pub route_key : Machine → Request → Bytes → Node → Handled
route_key m req key node =
    if req.method == "GET" || req.method == "HEAD"
    then pair_reply (handle_get m.now.for_version m.later key node)
    else if req.method == "PUT"
    then some (handle_put m.disk m.now m.later key req.put_request node)
    else if req.method == "DELETE"
    then some (handle_delete m.disk m.now.for_version key node)
    else method_not_allowed node

unfoldable pub route_keys : Machine → Request → Node → Handled
route_keys m req node = elim (handle_list_keys m.later req.prefix req.cursor req.limit node) [
  | none ↦ none
  | some response ↦ reply node response
]

unfoldable pub route : Machine → Request → Pattern → Server → Handled
unfolding route_key route_keys handle_metrics
route m req (kv key) server = route_key m req key server.node
route m req keys server = get_only req.method server.node (route_keys m req server.node)
route m req peers server =
    get_only req.method server.node (reply server.node (handle_cluster_peers server.node))
route m req status server =
    get_only req.method server.node
      (reply server.node (handle_cluster_status server.cfg m.uptime server.node))
route m req healthz server = get_only req.method server.node (reply server.node handle_healthz)
route m req metrics_page server =
    get_only req.method server.node (reply server.node (handle_metrics server))
route m req ping server = get_only req.method server.node (
    pair_reply (
      handle_internal_ping server.cfg m.now.for_version m.later req.sender_id req.sender_addr
        server.node))
route m req replication server =
    if req.method == "POST"
    then pair_reply
        (handle_internal_replicate m.disk m.now.for_expiry m.now req.replicate_request server.node)
    else method_not_allowed server.node
route m req dashboard server =
    get_only req.method server.node (reply server.node (record { status = 301; body = no_body }))
route m req dashboard_file server = get_only req.method server.node (reply server.node m.static)
route m req other server =
    reply server.node (record { status = 404; body = text "404 page not found" })

-- RecoveryMiddleware: a panic becomes an answer. No handler of ours has changed the node by then.
unfoldable pub recovered : Node → Handled → Node × Response × Outgoing
recovered node none = (node, record { status = 500; body = error_text "internal server error" }, [])
recovered node (some handled) = handled

-- http.StatusText, for the codes that the handlers and a file server give
unfoldable pub status_text : ℕ → String
status_text code =
    if nat_beq code 200
    then "OK"
    else if nat_beq code 206
    then "Partial Content"
    else if nat_beq code 301
    then "Moved Permanently"
    else if nat_beq code 304
    then "Not Modified"
    else if nat_beq code 400
    then "Bad Request"
    else if nat_beq code 403
    then "Forbidden"
    else if nat_beq code 404
    then "Not Found"
    else if nat_beq code 405
    then "Method Not Allowed"
    else if nat_beq code 412
    then "Precondition Failed"
    else if nat_beq code 416
    then "Requested Range Not Satisfiable"
    else if nat_beq code 500
    then "Internal Server Error"
    else ""

-- LoggingAndMetricsMiddleware around the rest.
unfoldable pub serve : Machine → Request → Server → Server × Response × Outgoing
serve m req server =
    let (node, response, outgoing) = recovered server.node (route m req req.path server) in
    let counted =
      record_request req.method req.url_path (status_text response.status) server.collector in
    (
      record server {
        node = node;
        collector =
            record_latency (record { method = req.method; path = req.url_path }) m.duration counted;
      },
      response,
      outgoing,
    )
