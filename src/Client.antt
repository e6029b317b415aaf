-- ===== src/Client.antt =====
-- pkg/client/client.go: what the client sends, and what it makes of the answer. `json_text` is what
-- a Go string becomes on its way through encoding/json: the same, if it is UTF-8.
pub mod RoundTrip
use high_performance_kv_stor.Prelude.{
  ℕ, suc, Bool, true, false, List, [], map, Option, none, some, Bytes, String, if◌then◌else◌,
  nat_beq,
}
use high_performance_kv_stor.Prelude.Int.{ℤ, pos, negsuc, ltb_ℤ}
use high_performance_kv_stor.Api.{
  Response, Body, no_body, error_text, wal_failure, value_version, new_version, deleted_version,
  key_page, peer_list, cluster_status, text, metrics, ClusterStatus, PutRequest,
}
use high_performance_kv_stor.Api.Router.{Pattern, kv, keys as keys_path, status, Request}

-- The errors of the client: the request could not be made or sent, the answer's status, or its body.
pub data ClientError : Type 0 where
  unsent err_key_not_found err_bad_request undecoded : ClientError
  unexpected_status : ℕ → ClientError

pub data Reply {ℓ} (A : Type ℓ) : Type ℓ where
  success : A → Reply A
  failure : ClientError → Reply A

-- A request with nothing but its method and path.
abbrev bare : String → Pattern → String → Request
bare method path url_path = record {
  method = method;
  path = path;
  url_path = url_path;
  prefix = [];
  cursor = [];
  limit = none;
  sender_id = "";
  sender_addr = "";
  put_request = none;
  replicate_request = none;
}

-- The `url_path` is how the server sees the escaped path of the key.
abbrev pub get_request : Bytes → String → Request
get_request key url_path = bare "GET" (kv key) url_path

-- How an answer with another status than 200 ends, or the decoding of its body.
abbrev unless_status {ℓ} : {A : Type ℓ} → Response → Reply A → Reply A
unless_status response decoded =
    if nat_beq response.status 200 then decoded else failure (unexpected_status response.status)

-- The fields that encoding/json finds in a body; a field that is not there is left at its zero.
pub record Fields : Type 0 where
  pub value : Bytes
  pub version : ℕ
  pub deleted : Bool
  pub keys : List Bytes
  pub next_cursor : Bytes
  pub cluster : ClusterStatus

abbrev no_fields : Fields
no_fields = record {
  value = [];
  version = 0;
  deleted = false;
  keys = [];
  next_cursor = [];
  cluster = record {
    node_id = "";
    role = "";
    uptime = 0;
    store_size = pos 0;
    wal_size_bytes = 0;
    peers_count = 0;
  };
}

-- None for a body that is no JSON object.
unfoldable pub fields_of : Body → Option Fields
fields_of no_body = none
fields_of (error_text e) = some no_fields
fields_of (wal_failure e) = some no_fields
fields_of (value_version value version) =
    some (record no_fields { value = value; version = version })
fields_of (new_version version) = some (record no_fields { version = version })
fields_of (deleted_version version deleted) =
    some (record no_fields { version = version; deleted = deleted })
fields_of (key_page page next) = some (record no_fields { keys = page; next_cursor = next })
fields_of (peer_list peers) = none
fields_of (cluster_status s) = some (record no_fields { cluster = s })
fields_of (text t) = none
fields_of (metrics lines) = none

unfoldable pub decoded : {A : Type 0} → (Fields → A) → Body → Reply A
decoded read body = elim (fields_of body) [ none ↦ failure undecoded | some f ↦ success (read f) ]

-- No response stands for a request that could not be sent.
unfoldable pub client_get : (Bytes → Bytes) → Option Response → Reply (Bytes × ℕ)
unfolding decoded fields_of
client_get json_text none = failure unsent
client_get json_text (some response) =
    if nat_beq response.status 404
    then failure err_key_not_found
    else unless_status response (decoded (λ f. (json_text f.value, f.version)) response.body)

abbrev pub set_request : (Bytes → Bytes) → Bytes → String → Bytes → ℤ → Request
set_request json_text key url_path value ttl_seconds = record (bare "PUT" (kv key) url_path) {
  put_request = some (record {
    value = json_text value;
    ttl_seconds = if ltb_ℤ (pos 0) ttl_seconds then some ttl_seconds else none;
  });
}

unfoldable pub client_set : Option Response → Reply ℕ
unfolding decoded fields_of
client_set none = failure unsent
client_set (some response) =
    if nat_beq response.status 400
    then failure err_bad_request
    else unless_status response (decoded (λ f. f.version) response.body)

abbrev pub delete_request : Bytes → String → Request
delete_request key url_path = bare "DELETE" (kv key) url_path

unfoldable pub client_delete : Option Response → Reply (ℕ × Bool)
unfolding decoded fields_of
client_delete none = failure unsent
client_delete (some response) =
    unless_status response (decoded (λ f. (f.version, f.deleted)) response.body)

-- A parameter that is left out and one that is empty are the same to the server.
abbrev pub list_request : Bytes → ℤ → Bytes → Request
list_request prefix limit cursor = record (bare "GET" keys_path "/v1/keys") {
  prefix = prefix;
  limit = if ltb_ℤ (pos 0) limit then some limit else none;
  cursor = cursor;
}

unfoldable pub client_list_keys : (Bytes → Bytes) → Option Response → Reply (List Bytes × Bytes)
unfolding decoded fields_of
client_list_keys json_text none = failure unsent
client_list_keys json_text (some response) =
    unless_status response
      (decoded (λ f. (map json_text f.keys, json_text f.next_cursor)) response.body)

abbrev pub status_request : Request
status_request = bare "GET" status "/v1/cluster/status"

unfoldable pub client_cluster_status : Option Response → Reply ClusterStatus
unfolding decoded fields_of
client_cluster_status none = failure unsent
client_cluster_status (some response) =
    unless_status response (decoded (λ f. f.cluster) response.body)
