-- ===== src/Metrics.antt =====
-- internal/metrics/metrics.go: the request counters, the latency histograms, and the text that
-- WritePrometheus makes of them, line by line.
pub mod Requests
pub mod Latency
use high_performance_kv_stor.Prelude.{
  ℕ, zero, suc, ◌+◌, ◌%◌, ◌^◌, ◌≡◌, ◌↔◌, Bool, true, false, ◌&&◌, List, [], ◌∷◌, ◌++◌, map, Option,
  none, some, leb, get_or, set as set_at, replicate, String, string_eq, Eq, ◌==◌, if◌then◌else◌,
  arith,
}
use high_performance_kv_stor.Prelude.Int.{ℤ}
use high_performance_kv_stor.Prelude.Table.{Table, lookup, insert}
use high_performance_kv_stor.Cluster.Peer.{Peer, state_alive, state_suspect, state_dead}

pub record RequestKey : Type 0 where
  pub method : String
  pub path : String
  pub status : String

pub record HistogramKey : Type 0 where
  pub method : String
  pub path : String

unfoldable pub request_same : RequestKey → RequestKey → Bool
request_same a b = (a.method == b.method) && ((a.path == b.path) && (a.status == b.status))

pub request_same_iff : (a b : RequestKey) → (request_same a b ≡ true) ↔ (a ≡ b)
unfolding request_same
request_same_iff a b = ground (
  arith,
  string_eq.same_iff a.method b.method,
  string_eq.same_iff a.path b.path,
  string_eq.same_iff a.status b.status,
)

instance abbrev pub request_eq : Eq RequestKey
request_eq = record { same = request_same; same_iff = request_same_iff }

unfoldable pub histogram_same : HistogramKey → HistogramKey → Bool
histogram_same a b = (a.method == b.method) && (a.path == b.path)

pub histogram_same_iff : (a b : HistogramKey) → (histogram_same a b ≡ true) ↔ (a ≡ b)
unfolding histogram_same
histogram_same_iff a b =
    ground (arith, string_eq.same_iff a.method b.method, string_eq.same_iff a.path b.path)

instance abbrev pub histogram_eq : Eq HistogramKey
histogram_eq = record { same = histogram_same; same_iff = histogram_same_iff }

-- LatencyBuckets in nanoseconds, and as `%.5f` prints the seconds. For an int64 of nanoseconds and
-- these limits, the comparison of float64 seconds in the source is that of the nanoseconds.
abbrev pub latency_buckets : List ℕ
latency_buckets =
    100000 ∷ 500000 ∷ 1000000 ∷ 5000000 ∷ 10000000 ∷ 50000000 ∷ 100000000 ∷ 500000000 ∷ 1000000000
    ∷ 5000000000 ∷ []

abbrev pub latency_labels : List String
latency_labels =
    "0.00010" ∷ "0.00050" ∷ "0.00100" ∷ "0.00500" ∷ "0.01000" ∷ "0.05000" ∷ "0.10000" ∷ "0.50000"
    ∷ "1.00000" ∷ "5.00000" ∷ []

pub record BucketCounters : Type 0 where
  pub counts : List ℕ
  pub inf : ℕ
  pub sum : ℕ
  pub count : ℕ

pub record MetricsCollector : Type 0 where
  pub req_counts : Table RequestKey ℕ
  pub histograms : Table HistogramKey BucketCounters

abbrev pub new_metrics_collector : MetricsCollector
new_metrics_collector = record { req_counts = []; histograms = [] }

-- What a map has for a key, or what the source puts there or reads where it has nothing.
abbrev pub get_or_else {ℓ} : {A : Type ℓ} → A → Option A → A
get_or_else a none = a
get_or_else a (some b) = b

-- atomic.AddUint64
abbrev pub add_uint64 : ℕ → ℕ → ℕ
add_uint64 counter n = (counter + n) % 2 ^ 64

unfoldable pub record_request : String → String → String → MetricsCollector → MetricsCollector
record_request method path status mc =
    let key : RequestKey = record { method = method; path = path; status = status } in
    let counter = get_or_else 0 (lookup key mc.req_counts) in
    record mc { req_counts = insert key (add_uint64 counter 1) mc.req_counts }

abbrev pub no_latencies : BucketCounters
no_latencies = record { counts = replicate 10 0; inf = 0; sum = 0; count = 0 }

-- The loop over the limits: the counts of the buckets, and of what is above the last limit.
unfoldable pub place : ℕ → List ℕ → List ℕ → ℕ → List ℕ × ℕ
place d (limit ∷ limits) (c ∷ counts) inf =
    let (rest, inf') = place d limits counts inf in
    if leb d limit then (add_uint64 c 1 ∷ counts, inf) else (c ∷ rest, inf')
place d limits counts inf = (counts, add_uint64 inf 1)

unfoldable pub observe : ℕ → BucketCounters → BucketCounters
unfolding place
observe d hist =
    let (counts, inf) = place d latency_buckets hist.counts hist.inf in
    record {
      counts = counts;
      inf = inf;
      sum = add_uint64 hist.sum d;
      count = add_uint64 hist.count 1;
    }

-- A duration is what time.Since gives, in nanoseconds.
unfoldable pub record_latency : HistogramKey → ℕ → MetricsCollector → MetricsCollector
record_latency key d mc =
    let hist = get_or_else no_latencies (lookup key mc.histograms) in
    record mc { histograms = insert key (observe d hist) mc.histograms }

-- The value of a line: a uint64, an int64, or nanoseconds that are printed as seconds.
pub data Value : Type 0 where
  count seconds : ℕ → Value
  gauge : ℤ → Value

-- A comment line, or a sample: its name, its labels and its value.
pub data Line : Type 0 where
  comment : String → Line
  sample : String → List (String × String) → Value → Line

unfoldable pub request_line : RequestKey × ℕ → Line
request_line (key, n) =
    sample "http_requests_total"
      (("method", key.method) ∷ ("path", key.path) ∷ ("status", key.status) ∷ []) (count n)

abbrev pub bucket_line : HistogramKey → String → ℕ → Line
bucket_line key le n =
    sample "http_request_duration_seconds_bucket"
      (("method", key.method) ∷ ("path", key.path) ∷ ("le", le) ∷ []) (count n)

abbrev pub histogram_line : HistogramKey → String → Value → Line
histogram_line key name value = sample name (("method", key.method) ∷ ("path", key.path) ∷ []) value

-- The loop over the buckets, with `cumulative`, and the lines after it.
unfoldable pub bucket_lines : HistogramKey → BucketCounters → List String → List ℕ → ℕ → List Line
bucket_lines key hist (le ∷ labels) (c ∷ counts) cumulative =
    let cumulative' = add_uint64 cumulative c in
    bucket_line key le cumulative' ∷ bucket_lines key hist labels counts cumulative'
bucket_lines key hist labels counts cumulative =
    bucket_line key "+Inf" (add_uint64 cumulative hist.inf)
    ∷ histogram_line key "http_request_duration_seconds_sum" (seconds hist.sum)
    ∷ histogram_line key "http_request_duration_seconds_count" (count hist.count)
    ∷ []

unfoldable pub histogram_lines : HistogramKey × BucketCounters → List Line
unfolding bucket_lines
histogram_lines (key, hist) = bucket_lines key hist latency_labels hist.counts 0

unfoldable pub all_histogram_lines : Table HistogramKey BucketCounters → List Line
unfolding histogram_lines
all_histogram_lines [] = []
all_histogram_lines (h ∷ hs) = histogram_lines h ++ all_histogram_lines hs

-- What the three functions of the collector give, where it has them.
pub record Sources : Type 0 where
  pub store_size : Option ℤ
  pub wal_size : Option ℤ
  pub peer_count : Option (Table String ℕ)

unfoldable pub gauge_lines : String → String → String → Option ℤ → List Line
gauge_lines name help type none = []
gauge_lines name help type (some n) = comment help ∷ comment type ∷ sample name [] (gauge n) ∷ []

unfoldable pub peer_lines : Option (Table String ℕ) → List Line
peer_lines none = []
peer_lines (some counts) =
    comment "# HELP kv_cluster_peers_total Current count of cluster members."
    ∷ comment "# TYPE kv_cluster_peers_total gauge"
    ∷ map (λ c. sample "kv_cluster_peers_total" (("state", c.0) ∷ []) (count c.1)) counts

unfoldable pub write_prometheus : Sources → MetricsCollector → List Line
unfolding request_line all_histogram_lines gauge_lines peer_lines
write_prometheus sources mc =
    (comment "# HELP http_requests_total Total number of HTTP requests processed."
      ∷ comment "# TYPE http_requests_total counter"
      ∷ map request_line mc.req_counts)
    ++ ((comment "# HELP http_request_duration_seconds HTTP request latencies in seconds."
          ∷ comment "# TYPE http_request_duration_seconds histogram"
          ∷ all_histogram_lines mc.histograms)
        ++ (gauge_lines "kv_store_size_keys"
              "# HELP kv_store_size_keys Current number of keys in the store."
              "# TYPE kv_store_size_keys gauge" sources.store_size
            ++ (gauge_lines "kv_wal_size_bytes"
                  "# HELP kv_wal_size_bytes Size of the Write-Ahead Log on disk in bytes."
                  "# TYPE kv_wal_size_bytes gauge" sources.wal_size
                ++ peer_lines sources.peer_count)))

-- The function that cmd/server/main.go gives the collector: the peers of each state.
abbrev pub count_peers : List Peer → Table String ℕ → Table String ℕ
count_peers [] counts = counts
count_peers (p ∷ peers) counts =
    let n = get_or_else 0 (lookup p.state counts) in
    count_peers peers (insert p.state (n + 1) counts)

unfoldable pub peer_count : List Peer → Table String ℕ
peer_count peers = count_peers peers ((state_alive, 0) ∷ (state_suspect, 0) ∷ (state_dead, 0) ∷ [])
