-- ===== src/Examples/Servers.antt =====
-- Runs of the theorems on a whole server, its metrics, its configuration and its client.
use high_performance_kv_stor.Prelude.{
  ℕ, ◌%◌, ◌^◌, ◌≡◌, ◌≢◌, refl, List, [], ◌∷◌, none, some, arith, true, false, string_eq, bytes_eq,
  bytes_beq,
}
use high_performance_kv_stor.Prelude.Int.{pos}
use high_performance_kv_stor.Prelude.Table.{lookup, insert}
use high_performance_kv_stor.Store.Entry.{is_expired, passed}
use high_performance_kv_stor.Store.Hash.{fnv32a}
use high_performance_kv_stor.Store.Wal.{healthy}
use high_performance_kv_stor.Store.State.{
  new_store, entry_of, shard_index, get_shard, set_shard, next_version, choose_version, expiry,
  log_record, store_entry, set,
}
use high_performance_kv_stor.Store.State.Invariant.{new_store-IsValid}
use high_performance_kv_stor.Store.State.Writes.{merge}
use high_performance_kv_stor.Cluster.Replication.{to_int64}
use high_performance_kv_stor.Metrics.{
  histogram_same, HistogramKey, BucketCounters, RequestKey, request_eq, histogram_eq,
  new_metrics_collector, get_or_else, record_latency, observe, place, histogram_lines,
}
use high_performance_kv_stor.Metrics.Latency.{
  recorded, durations_of, expected_lines, histogram_lines-recorded,
}
use high_performance_kv_stor.Metrics.Requests.{occurrences}
use high_performance_kv_stor.Config.{Config, Formats, Flags, load}
use high_performance_kv_stor.Config.Sources.{with_intervals, HasIntervals, load-intervals}
use high_performance_kv_stor.Api.{no_body, ttl_of, handle_put, put_body, published}
use high_performance_kv_stor.Api.Router.{
  Request, Machine, Server, route, route_key, recovered, serve,
}
use high_performance_kv_stor.Api.Router.Sound.{IsSound}
use high_performance_kv_stor.Api.Router.Counted.{served, answered, served-counts}
use high_performance_kv_stor.Client.{
  success, client_get, client_set, get_request, set_request, decoded, fields_of,
}
use high_performance_kv_stor.Client.RoundTrip.{client_entry, after_set, client_get-client_set}
use high_performance_kv_stor.Examples.Data.{key_a, noon}

abbrev get_key : HistogramKey
get_key = record { method = "GET"; path = "/v1/kv/a" }

abbrev two_latencies : List (HistogramKey × ℕ)
two_latencies = (get_key, 6000000000) ∷ (get_key, 700000) ∷ []

abbrev two_counters : BucketCounters
two_counters = record {
  counts = 0 ∷ 0 ∷ 1 ∷ 0 ∷ 0 ∷ 0 ∷ 0 ∷ 0 ∷ 0 ∷ 0 ∷ [];
  inf = 1;
  sum = 6000700000;
  count = 2;
}

two_counters-found : lookup get_key (recorded two_latencies).histograms ≡ some two_counters
unfolding lookup insert record_latency observe place histogram_same
two_counters-found = refl

histogram_lines-recorded_example :
    histogram_lines (get_key, two_counters)
    ≡ expected_lines get_key (durations_of get_key two_latencies)
histogram_lines-recorded_example =
    histogram_lines-recorded get_key two_latencies two_counters two_counters-found

abbrev pub formats : Formats
formats = record {
  atoi = λ s. none;
  node_name = λ port. "node";
  host_port = λ host port. "localhost:8080";
}

abbrev pub no_flags : Flags
no_flags = record {
  node_id = none;
  port = none;
  data_dir = none;
  seed_addr = none;
  advertise_addr = none;
  gossip_interval_sec = none;
  ping_timeout_ms = none;
  suspicion_window_sec = none;
  replication_timeout_ms = none;
  reap_interval_sec = none;
}

load-intervals_example :
    (cfg : Config) × (load formats [] (with_intervals 0 200 5 500 5 no_flags) none true ≡ some cfg)
    × HasIntervals 0 200 5 500 5 cfg
load-intervals_example =
    load-intervals formats [] no_flags none 0 200 5 500 5 (omega arith) (omega arith) (omega arith)
      (omega arith) (omega arith)

abbrev pub server : Server
server = record {
  node = record {
    store = new_store none;
    peers = [];
    replicator = record { node_id = "n1"; last_served = 0 };
  };
  collector = new_metrics_collector;
  cfg = record {
    node_id = "n1";
    port = pos 8080;
    data_dir = "./data";
    seed_address = "";
    gossip_interval = pos 1000000000;
    ping_timeout = pos 200000000;
    suspicion_window = pos 5000000000;
    replication_timeout = pos 500000000;
    reap_interval = pos 5000000000;
    advertise_addr = "10.0.0.1:8080";
  };
}

abbrev pub machine : Machine
machine = record {
  disk = healthy;
  now = noon;
  later = 1002;
  uptime = 10;
  static = record { status = 404; body = no_body };
  duration = 700000;
}

abbrev pub put_a : Request
put_a = set_request (λ v. v) key_a "/v1/kv/a" (4 ∷ []) (pos 60)

pub server-IsSound : IsSound server.node
server-IsSound = record {
  store_valid = new_store-IsValid none;
  peers_valid = record { distinct = tt; named = tt };
}

abbrev put_key : RequestKey
put_key = record { method = "PUT"; path = "/v1/kv/a"; status = "OK" }

served-counts_example :
    get_or_else {A = ℕ} 0
      (lookup put_key (served server ((machine, put_a) ∷ [])).collector.req_counts)
    ≡ occurrences put_key (answered server ((machine, put_a) ∷ [])) % 2 ^ 64
served-counts_example = served-counts server ((machine, put_a) ∷ []) put_key refl

key_a-named : key_a ≢ []
key_a-named h = cc h

put_a-wins :
    merge
      (entry_of server.node.store key_a)
      (client_entry (λ v. v) machine machine key_a "/v1/kv/a" (4 ∷ []) (pos 60) server)
    ≡ client_entry (λ v. v) machine machine key_a "/v1/kv/a" (4 ∷ []) (pos 60) server
unfolding entry_of get_shard lookup shard_index fnv32a
put_a-wins = refl

put_a-fresh :
    is_expired machine.now.for_version
      (client_entry (λ v. v) machine machine key_a "/v1/kv/a" (4 ∷ []) (pos 60) server)
    ≡ false
unfolding is_expired passed expiry ttl_of to_int64
put_a-fresh = refl

put_a-answer :
    client_set
      (some (after_set (λ v. v) machine machine key_a "/v1/kv/a" (4 ∷ []) (pos 60) server).1)
    ≡ success 1001
unfolding client_set decoded fields_of serve route route_key recovered handle_put put_body published
    ttl_of set choose_version next_version log_record store_entry get_shard set_shard lookup insert
    shard_index fnv32a expiry to_int64 bytes_beq
put_a-answer = refl

client_get-client_set_example :
    client_get
      (λ v. v)
      (some
        (serve machine
          (get_request key_a "/v1/kv/a")
          (after_set (λ v. v) machine machine key_a "/v1/kv/a" (4 ∷ []) (pos 60) server).0).1)
    ≡ success (4 ∷ [], 1001)
client_get-client_set_example =
    client_get-client_set (λ v. v) machine machine key_a "/v1/kv/a" (4 ∷ []) (pos 60) server 1001
      server-IsSound key_a-named refl put_a-wins put_a-fresh put_a-answer
