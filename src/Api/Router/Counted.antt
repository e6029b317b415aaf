-- ===== src/Api/Router/Counted.antt =====
-- Every answer is counted once (internal/api/middleware.go, internal/metrics/metrics.go).
use high_performance_kv_stor.Prelude.{◌%◌, ◌^◌, ◌≡◌, refl, ◌∙◌, ap, List, [], ◌∷◌, String}
use high_performance_kv_stor.Prelude.Table.{lookup}
use high_performance_kv_stor.Metrics.{
  RequestKey, request_eq, MetricsCollector, new_metrics_collector, get_or_else, record_request,
  record_latency,
}
use high_performance_kv_stor.Metrics.Requests.{requested, requested_lem, occurrences}
use high_performance_kv_stor.Api.Router.{Request, Machine, Server, status_text, serve}

-- The server after these requests, the newest first.
abbrev pub served : Server → List (Machine × Request) → Server
served server [] = server
served server ((m, req) ∷ rs) = (serve m req (served server rs)).0

-- The method, the path and the status of each answer.
abbrev pub answered : Server → List (Machine × Request) → List RequestKey
answered server [] = []
answered server ((m, req) ∷ rs) =
    record {
      method = req.method;
      path = req.url_path;
      status = status_text (serve m req (served server rs)).1.status;
    }
    ∷ answered server rs

req_counts-record_request :
    (method path status : String) (a b : MetricsCollector)
    → a.req_counts ≡ b.req_counts
    → (record_request method path status a).req_counts
      ≡ (record_request method path status b).req_counts
unfolding record_request
req_counts-record_request method path status a b h = rw h refl

req_counts-served :
    (server : Server) (rs : List (Machine × Request))
    → server.collector ≡ new_metrics_collector
    → (served server rs).collector.req_counts ≡ (requested (answered server rs)).req_counts
unfolding serve record_latency
req_counts-served server [] fresh = ap (λ c. c.req_counts) fresh
req_counts-served server ((m, req) ∷ rs) fresh =
    req_counts-record_request req.method req.url_path
      (status_text (serve m req (served server rs)).1.status) (served server rs).collector
      (requested (answered server rs)) (req_counts-served server rs fresh)

-- After any sequence of requests to a server with a new collector, panics and errors included, the
-- counter of a method, a path and a status is the number of requests of that method and path that
-- were answered with that status, modulo 2 ^ 64.
pub served-counts :
    (server : Server) (rs : List (Machine × Request)) (key : RequestKey)
    → server.collector ≡ new_metrics_collector
    → get_or_else 0 (lookup key (served server rs).collector.req_counts)
      ≡ occurrences key (answered server rs) % 2 ^ 64
served-counts server rs key fresh =
    ap (λ t. get_or_else 0 (lookup key t)) (req_counts-served server rs fresh)
    ∙ requested_lem key (answered server rs)
