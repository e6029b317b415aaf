-- ===== src/Store/Recovery/Session.antt =====
-- A session of writes without an expiry on a store with a log (internal/store/store.go), and the
-- restart after it (cmd/server/main.go).
use mathlib.Core.List.{map-append}
use mathlib.Core.Path.{fun_ext}
use high_performance_kv_stor.Prelude.{
  ℕ, ◌≡◌, refl, sym, ◌∙◌, ap, List, [], ◌∷◌, ◌++◌, map, Option, none, some, arith, Bytes, bytes_eq,
  ◌==◌, All, if◌then◌else◌, String, append-nil, get_or-replicate,
}
use high_performance_kv_stor.Prelude.Table.{lookup}
use high_performance_kv_stor.Prelude.Int.{ℤ}
use high_performance_kv_stor.Store.Entry.{zero_time}
use high_performance_kv_stor.Store.Wal.{Wal, healthy, append}
use high_performance_kv_stor.Store.Wal.Read.{Replayed, done, good_reads}
use high_performance_kv_stor.Store.Wal.Read.RoundTrip.{IsEncodable}
use high_performance_kv_stor.Store.Wal.Read.Replay.{encode_all, replay-encode_all}
use high_performance_kv_stor.Store.Wal.Read.Torn.{bytes-append}
use high_performance_kv_stor.Store.State.{
  Store, Shard, new_store, shard_index, get_shard, entry_of, Times, set_record, delete_record, set,
  delete_key, choose_version, expiry,
}
use high_performance_kv_stor.Store.State.Shards.{IsValid}
use high_performance_kv_stor.Store.State.Invariant.{
  set-IsValid, delete_key-IsValid, new_store-IsValid,
}
use high_performance_kv_stor.Store.State.Writes.{merge}
use high_performance_kv_stor.Store.State.Effects.{offered, set_effect, delete_effect}
use high_performance_kv_stor.Store.Recovery.{Reading, callback, replay_log}
use high_performance_kv_stor.Store.Recovery.Durable.{
  Mutation, put, remove, record_of, Map, change, change_all, HasVersion, lasting, apply_all-records,
  wal-store_entry, wal-remove_entry,
}
use high_performance_kv_stor.Store.Recovery.Linked.{set-linked, delete_key-linked}

abbrev pub empty_wal : String → Wal
empty_wal path = record { path = path; bytes = []; size = 0 }

-- What a write must meet to come back from the log: a version of its own, within the format.
pub record IsLogged (c : Mutation) : Type 0 where
  pub encodable : IsEncodable (record_of c)
  pub numbered : HasVersion c

-- The stores that a new store with an empty log reaches by Sets without an expiry and Deletes, on a
-- healthy disk, with the writes in their order.
pub data Session (path : String) : Store → List Mutation → Type 0 where
  start : Session path (new_store (some (empty_wal path))) []
  wrote :
      {s : Store} {cs : List Mutation}
      → Session path s cs
      → (now : Times) (key value : Bytes) (ttl : ℤ) (version : ℕ)
      → expiry now.for_expiry ttl ≡ zero_time
      → IsLogged (put key value (choose_version now.for_version version s).1)
      → (t : Store) → t ≡ (set healthy now key value ttl version s).0
      → (ds : List Mutation)
      → ds ≡ cs ++ put key value (choose_version now.for_version version s).1 ∷ []
      → Session path t ds
  erased :
      {s : Store} {cs : List Mutation}
      → Session path s cs
      → (now : ℕ) (key : Bytes) (version : ℕ)
      → IsLogged (remove key (choose_version now version s).1)
      → (t : Store) → t ≡ (delete_key healthy now key version s).0
      → (ds : List Mutation) → ds ≡ cs ++ remove key (choose_version now version s).1 ∷ []
      → Session path t ds

pub entry_of-new_store : (wal : Option Wal) (j : Bytes) → entry_of (new_store wal) j ≡ none
unfolding entry_of get_shard lookup
entry_of-new_store wal j = rw (get_or-replicate {A = Shard} 32 (shard_index j) [])

-- The log holds the writes, and the map is what they make of the map `m`.
pub record IsDurable (m : Map) (s : Store) (cs : List Mutation) : Type 0 where
  pub wal : Wal
  pub linked : s.wal ≡ some wal
  pub written : wal.bytes ≡ encode_all (map record_of cs)
  pub logged : All IsLogged cs
  pub valid : IsValid s
  pub entries : (j : Bytes) → entry_of s j ≡ change_all cs m j

change_all-append :
    (cs : List Mutation) (c : Mutation) (m : Map)
    → change_all (cs ++ c ∷ []) m ≡ change c (change_all cs m)
change_all-append [] c m = refl
change_all-append (d ∷ cs) c m = change_all-append cs c (change d m)

All-append :
    (cs : List Mutation) (c : Mutation) → All IsLogged cs → IsLogged c → All IsLogged (cs ++ c ∷ [])
All-append [] c h l = (l, tt)
All-append (d ∷ cs) c h l = (h.0, All-append cs c h.1 l)

module _ {m : Map} {s : Store} {cs : List Mutation} (d : IsDurable m s cs) (c : Mutation) where
  log-append :
      IsLogged c
      → (append healthy d.wal (record_of c)).0.bytes ≡ encode_all (map record_of (cs ++ c ∷ []))
  log-append logs =
      bytes-append d.wal (record_of c) (map record_of cs) d.written logs.encodable.key_fits
      ∙ ap encode_all (sym (map-append record_of cs (c ∷ [])))

  entries-append : (j : Bytes) → change c (entry_of s) j ≡ change_all (cs ++ c ∷ []) m j
  entries-append j =
      ap (λ f. change c f j) (fun_ext d.entries) ∙ ap (λ f. f j) (sym (change_all-append cs c m))

module _ {m : Map} {s : Store} {cs : List Mutation} (d : IsDurable m s cs) where
  pub set-IsDurable :
      (now : Times) (key value : Bytes) (ttl : ℤ) (version : ℕ)
      → expiry now.for_expiry ttl ≡ zero_time
      → IsLogged (put key value (choose_version now.for_version version s).1)
      → IsDurable m
          (set healthy now key value ttl version s).0
          (cs ++ put key value (choose_version now.for_version version s).1 ∷ [])
  set-IsDurable now key value ttl version forever logs =
      let chosen = (choose_version now.for_version version s).1 in
      let e = offered now value ttl version s in
      let same : e ≡ lasting value chosen =
        ap (λ t. record { value = value; version = chosen; expires_at = t }) forever in
      let linked = set-linked now key value ttl version s d.wal d.linked logs.encodable.key_fits in
      let (version', entries) =
        set_effect healthy now key value ttl version s _ d.valid.shard_number
          (ap (λ p. p.1) linked) in
      record {
        wal = (append healthy d.wal (set_record key e)).0;
        linked = ap (λ p. p.0.wal) linked ∙ wal-store_entry _ key e;
        written =
            ap (λ x. (append healthy d.wal (set_record key x)).0.bytes) same
            ∙ log-append d (put key value chosen) logs;
        logged = All-append cs (put key value chosen) d.logged logs;
        valid = set-IsValid d.valid healthy now key value ttl version;
        entries = λ j.
            entries j
            ∙ ap (λ x. if key == j then some (merge (entry_of s key) x) else entry_of s j) same
            ∙ entries-append d (put key value chosen) j;
      }

  pub delete_key-IsDurable :
      (now : ℕ) (key : Bytes) (version : ℕ)
      → IsLogged (remove key (choose_version now version s).1)
      → IsDurable m
          (delete_key healthy now key version s).0
          (cs ++ remove key (choose_version now version s).1 ∷ [])
  delete_key-IsDurable now key version logs =
      let chosen = (choose_version now version s).1 in
      let linked = delete_key-linked now key version s d.wal d.linked logs.encodable.key_fits in
      let (reply, entries) =
        delete_effect healthy now key version s _ d.valid.shard_number (ap (λ p. p.1) linked) in
      record {
        wal = (append healthy d.wal (delete_record key chosen)).0;
        linked = ap (λ p. p.0.wal) linked ∙ wal-remove_entry _ key chosen;
        written = log-append d (remove key chosen) logs;
        logged = All-append cs (remove key chosen) d.logged logs;
        valid = delete_key-IsValid d.valid healthy now key version;
        entries = λ j. entries j ∙ entries-append d (remove key chosen) j;
      }

pub start-IsDurable : (path : String) → IsDurable (λ _. none) (new_store (some (empty_wal path))) []
start-IsDurable path = record {
  wal = empty_wal path;
  linked = refl;
  written = refl;
  logged = tt;
  valid = new_store-IsValid (some (empty_wal path));
  entries = λ j. entry_of-new_store (some (empty_wal path)) j;
}

pub Session-IsDurable :
    {path : String} {s : Store} {cs : List Mutation}
    → Session path s cs
    → IsDurable (λ _. none) s cs
Session-IsDurable {path} start = start-IsDurable path
Session-IsDurable (wrote before now key value ttl version forever logs t et ds eds) =
    rw (et, eds) (set-IsDurable (Session-IsDurable before) now key value ttl version forever logs)
Session-IsDurable (erased before now key version logs t et ds eds) =
    rw (et, eds) (delete_key-IsDurable (Session-IsDurable before) now key version logs)

pub All-IsEncodable : (cs : List Mutation) → All IsLogged cs → All IsEncodable (map record_of cs)
All-IsEncodable [] h = tt
All-IsEncodable (c ∷ cs) h = (h.0.encodable, All-IsEncodable cs h.1)

pub All-numbered : (cs : List Mutation) → All IsLogged cs → All HasVersion cs
All-numbered [] h = tt
All-numbered (c ∷ cs) h = (h.0.numbered, All-numbered cs h.1)

-- What a restart restores.
pub record IsRestored (s : Store) (out : Replayed (ℕ × Store)) : Type 0 where
  pub count : ℕ
  pub store : Store
  pub finished : out ≡ done (count, store)
  pub valid : IsValid store
  pub entries : (j : Bytes) → entry_of store j ≡ entry_of s j

-- After any sequence of Sets without an expiry and Deletes on a new store with an empty log, each
-- logged without an error and with a version above 0, a restart that replays the log into a new
-- store succeeds, whatever the clock reads by then: the store is well formed and has exactly the
-- entries, values and versions, that the running store has.
pub restart-Session :
    {path : String} {s : Store} {cs : List Mutation} (clock : ℕ → Reading) (w : Wal)
    → Session path s cs
    → s.wal ≡ some w
    → IsRestored s (replay_log clock good_reads w (new_store none))
restart-Session {path} {s} {cs} clock w session linked =
    let d = Session-IsDurable session in
    let same : d.wal ≡ w = cc (sym d.linked ∙ linked) in
    let log : w.bytes ≡ encode_all (map record_of cs) ++ [] =
      ap (λ x. x.bytes) (sym same) ∙ d.written ∙ sym (append-nil (encode_all (map record_of cs))) in
    let out =
      apply_all-records clock cs 0 (new_store none) (new_store-IsValid none) refl
        (All-numbered cs d.logged) in
    record {
      count = out.count;
      store = out.store;
      finished =
          replay-encode_all (callback clock) w (map record_of cs) [] log
            (All-IsEncodable cs d.logged) (0, new_store none) (omega arith)
          ∙ out.finished;
      valid = out.valid;
      entries = λ j.
          out.entries j
          ∙ ap (λ m. change_all cs m j) (fun_ext (entry_of-new_store none))
          ∙ sym (d.entries j);
    }
