-- ===== src/Client/RoundTrip.antt =====
-- A client's Set and Get against the server (pkg/client/client.go, internal/api/handlers.go).
use high_performance_kv_stor.Prelude.{
  ℕ, ◌≡◌, ◌≢◌, refl, sym, ◌∙◌, ap, false, [], none, some, Bytes, bytes_eq, bytes_beq_iff, ◌==◌,
  String, if◌then◌else◌, nat_beq_iff, arith,
}
use high_performance_kv_stor.Prelude.Int.{ℤ, pos, ltb_ℤ}
use high_performance_kv_stor.Store.Entry.{Entry, is_expired}
use high_performance_kv_stor.Store.State.{entry_of, get}
use high_performance_kv_stor.Store.State.Writes.{merge}
use high_performance_kv_stor.Store.State.Effects.{offered}
use high_performance_kv_stor.Store.State.Reads.{get_reply}
use high_performance_kv_stor.Api.{Response, PutRequest, ttl_of, handle_get, handle_put, new_version}
use high_performance_kv_stor.Api.Put.{handle_put_effect}
use high_performance_kv_stor.Api.Router.{Machine, Server, route_key, route, recovered, serve}
use high_performance_kv_stor.Api.Router.Sound.{IsSound}
use high_performance_kv_stor.Client.{
  success, decoded, fields_of, get_request, client_get, set_request, client_set,
}

client_set-success :
    (response : Response) (n : ℕ) → client_set (some response) ≡ success n → response.status ≡ 200
unfolding client_set
client_set-success response n h = ground (arith, nat_beq_iff response.status 200)

success-injective : {a b : ℕ} → success a ≡ success b → a ≡ b
success-injective h = cc h

client_set-new_version :
    (n : ℕ) → client_set (some (record { status = 200; body = new_version n })) ≡ success n
unfolding client_set decoded fields_of
client_set-new_version n = refl

-- A GET of a key with a visible entry.
served_get :
    (json_text : Bytes → Bytes) (m : Machine) (key : Bytes) (url_path : String) (server : Server)
    (e : Entry)
    → key ≢ []
    → entry_of server.node.store key ≡ some e
    → is_expired m.now.for_version e ≡ false
    → client_get json_text (some (serve m (get_request key url_path) server).1)
      ≡ success (json_text e.value, e.version)
unfolding serve route route_key recovered handle_get client_get decoded fields_of
served_get json_text m key url_path server e named present fresh =
    let unnamed : (key == []) ≡ false = ground (arith, bytes_beq_iff key [], named) in
    let found : (get m.now.for_version m.later key server.node.store).1
        ≡ some (e.value, e.version) =
      get_reply m.now.for_version m.later key server.node.store ∙ rw present (rw fresh refl) in
    rw unnamed (rw found refl)

module _ (json_text : Bytes → Bytes) (put get_later : Machine) (key : Bytes) (url_path : String)
    (value : Bytes) (ttl_seconds : ℤ) (server : Server) where
  abbrev body : PutRequest
  body = record {
    value = json_text value;
    ttl_seconds = if ltb_ℤ (pos 0) ttl_seconds then some ttl_seconds else none;
  }

  abbrev pub after_set : Server × Response
  after_set =
      let out = serve put (set_request json_text key url_path value ttl_seconds) server in
      (out.0, out.1)

  -- The entry that the server makes of the client's Set.
  abbrev pub client_entry : Entry
  client_entry = offered put.now (json_text value) (ttl_of body.ttl_seconds) 0 server.node.store

  served_put :
      (after_set.1 ≡ (handle_put put.disk put.now put.later key (some body) server.node).1)
      × (after_set.0.node ≡ (handle_put put.disk put.now put.later key (some body) server.node).0)
  unfolding serve route route_key recovered
  served_put = (refl, refl)

  -- When a client's Set of a key to a text that JSON keeps returns a version, nothing newer was
  -- there, and the entry has not expired by the time of a Get that the server serves next, then
  -- that Get returns the value and this version.
  pub client_get-client_set :
      (n : ℕ)
      → IsSound server.node
      → key ≢ []
      → json_text value ≡ value
      → merge (entry_of server.node.store key) client_entry ≡ client_entry
      → is_expired get_later.now.for_version client_entry ≡ false
      → client_set (some after_set.1) ≡ success n
      → client_get json_text (some (serve get_later (get_request key url_path) after_set.0).1)
        ≡ success (value, n)
  client_get-client_set n sound named kept wins fresh worked =
      let out = handle_put put.disk put.now put.later key (some body) server.node in
      let status : out.1.status ≡ 200 =
        ap (λ r. r.status) (sym served_put.0) ∙ client_set-success after_set.1 n worked in
      let done =
        handle_put_effect put.disk put.now put.later key body server.node
          sound.store_valid.shard_number named status in
      let answer : after_set.1 ≡ record { status = 200; body = new_version done.version } =
        served_put.0 ∙ done.answered in
      let same : n ≡ client_entry.version =
        success-injective
          (sym worked ∙ ap (λ r. client_set (some r)) answer ∙ client_set-new_version done.version)
        ∙ done.kept
        ∙ ap (λ e. e.version) wins in
      let stored : entry_of after_set.0.node.store key ≡ some client_entry =
        ap (λ x. entry_of x.store key) served_put.1
        ∙ done.stored key
        ∙ rw ((bytes_beq_iff key key).1 refl) (ap some wins) in
      served_get json_text get_later key url_path after_set.0 client_entry named stored fresh
      ∙ rw (kept, kept) (ap (λ v. success (value, v)) (sym same))
