-- ===== src/Store/Start/Restored.antt =====
-- A node's data survive restarts: the start of cmd/server/main.go, with the log of
-- internal/store/wal.go and the snapshots of internal/store/snapshot.go.
use mathlib.Core.Path.{subst}
use high_performance_kv_stor.Prelude.{
  ℕ, ◌≡◌, ◌⊎◌, inl, inr, refl, sym, ◌∙◌, ap, Bool-cases, List, [], ◌∷◌, ◌++◌, map, Option, none,
  some, arith, length, All, Bytes, bytes_eq, bytes_beq_iff, ◌==◌, ltb, append-nil,
}
use high_performance_kv_stor.Store.Entry.{Entry, zero_time}
use high_performance_kv_stor.Store.Wal.{Wal}
use high_performance_kv_stor.Store.Wal.Read.{done, good_reads}
use high_performance_kv_stor.Store.Wal.Read.RoundTrip.{IsEncodable}
use high_performance_kv_stor.Store.Wal.Read.Replay.{replay-encode_all, encode_all}
use high_performance_kv_stor.Store.State.{
  Store, new_store, entry_of, set_record, set_wal, get_shard,
}
use high_performance_kv_stor.Store.State.Shards.{IsValid}
use high_performance_kv_stor.Store.State.Writes.{merge, survivor}
use high_performance_kv_stor.Store.Recovery.{Reading, callback, replay_log}
use high_performance_kv_stor.Store.Recovery.Durable.{
  Mutation, put, remove, record_of, lasting, Map, change, change_all, apply_all-records,
}
use high_performance_kv_stor.Store.Recovery.Session.{
  IsLogged, IsDurable, All-IsEncodable, All-numbered,
}
use high_performance_kv_stor.Store.State.Invariant.{same_map-IsValid}
use high_performance_kv_stor.Store.Snapshot.{Files, Load, absent, loaded, load_snapshot}
use high_performance_kv_stor.Store.Start.{
  Started, running, start_up, after_load, replay_onto, link_log, new_wal,
}
use high_performance_kv_stor.Store.Start.History.{Node, snapshot_of, start_again}

-- Every entry fits the record format and does not expire.
abbrev pub IsLasting : Map → Type 0
IsLasting m =
    (j : Bytes) (e : Entry)
    → m j ≡ some e
    → IsEncodable (set_record j e) × (e.expires_at ≡ zero_time)

pub merge-either : (o : Option Entry) (e : Entry) → (merge o e ≡ e) ⊎ (o ≡ some (merge o e))
merge-either none e = inl refl
merge-either (some c) e = elim (Bool-cases (ltb e.version c.version)) [
  | inl stale ↦ inr (rw stale refl)
  | inr fresh ↦ inl (rw fresh refl)
]

pub survivor-some :
    (o : Option Entry) (version : ℕ) (e : Entry) → survivor o version ≡ some e → o ≡ some e
survivor-some none version e h = h
survivor-some (some c) version e h = ground arith

change-IsLasting : (c : Mutation) (m : Map) → IsLogged c → IsLasting m → IsLasting (change c m)
change-IsLasting (put key value version) m l h j e at = elim (Bool-cases (key == j)) [
  | inl same ↦
      let new = lasting value version in
      let eq : key ≡ j = (bytes_beq_iff key j).0 same in
      let here : some (merge (m j) new) ≡ some e = sym (rw (same, eq) refl) ∙ at in
      elim (merge-either (m j) new) [
        | inl won ↦
            subst (λ x. IsEncodable (set_record j x) × (x.expires_at ≡ zero_time)) (cc (here, won))
              (subst (λ k. IsEncodable (set_record k new)) eq l.encodable, refl)
        | inr lost ↦ h j e (lost ∙ here)
      ]
  | inr other ↦ h j e (sym (rw other refl) ∙ at)
]
change-IsLasting (remove key version) m l h j e at = elim (Bool-cases (key == j)) [
  | inl same ↦
      let here : survivor (m key) version ≡ some e = sym (rw same refl) ∙ at in
      h j e (rw (← (bytes_beq_iff key j).0 same) (survivor-some (m key) version e here))
  | inr other ↦ h j e (sym (rw other refl) ∙ at)
]

pub change_all-IsLasting :
    (cs : List Mutation) (m : Map) → All IsLogged cs → IsLasting m → IsLasting (change_all cs m)
change_all-IsLasting [] m l h = h
change_all-IsLasting (c ∷ cs) m l h =
    change_all-IsLasting cs (change c m) l.1 (change-IsLasting c m l.0 h)

-- The files hold what the store holds: the log's writes, on top of what the snapshot loads.
pub record IsRecoverable (n : Node) : Type 0 where
  pub base : Store
  pub found : Load
  pub loads : load_snapshot (snapshot_of n.files) (new_store none) ≡ (base, found)
  pub sound : (found ≡ absent) ⊎ (found ≡ loaded)
  pub base_valid : IsValid base
  pub unlinked : base.wal ≡ none
  pub lasts : IsLasting (entry_of base)
  pub cs : List Mutation
  pub durable : IsDurable (entry_of base) n.store cs

-- The log as NewWAL finds it.
abbrev pub reopened : Wal → Wal
reopened w = record w { size = length w.bytes }

-- What a start brings back: a well-formed store with the log of before and the entries of `s`.
pub record IsRestarted (s : Store) (w : Wal) (out : Started) : Type 0 where
  pub store : Store
  pub runs : out ≡ running store
  pub valid : IsValid store
  pub log : Wal
  pub linked : store.wal ≡ some log
  pub same_log : log.bytes ≡ w.bytes
  pub entries : (j : Bytes) → entry_of store j ≡ entry_of s j

-- A start whose snapshot and log are read to the end runs.
pub start_again-runs :
    (clock : ℕ → Reading) (w : Wal) (files : Files) {base : Store} {found : Load} {count : ℕ}
    {s : Store}
    → load_snapshot (snapshot_of files) (new_store none) ≡ (base, found)
    → (found ≡ absent) ⊎ (found ≡ loaded)
    → replay_log clock good_reads (reopened w) base ≡ done (count, s)
    → start_again clock w files ≡ running (set_wal (reopened w) s)
unfolding start_up after_load replay_onto link_log new_wal
start_again-runs clock w files loads (inl none_there) replayed =
    rw (loads, none_there, replayed) refl
start_again-runs clock w files loads (inr read) replayed = rw (loads, read, replayed) refl

pub entry_of-set_wal : (w : Wal) (s : Store) (j : Bytes) → entry_of (set_wal w s) j ≡ entry_of s j
unfolding entry_of get_shard
entry_of-set_wal w s j = refl

pub start_again-IsRecoverable :
    (clock : ℕ → Reading) (n : Node) (w : Wal)
    → IsRecoverable n
    → n.store.wal ≡ some w
    → IsRestarted n.store w (start_again clock w n.files)
start_again-IsRecoverable clock n w r linked =
    let d = r.durable in
    let same : d.wal ≡ w = cc (sym d.linked ∙ linked) in
    let log = reopened w in
    let bytes : w.bytes ≡ encode_all (map record_of r.cs) ++ [] =
      ap (λ x. x.bytes) (sym same)
      ∙ d.written
      ∙ sym (append-nil (encode_all (map record_of r.cs))) in
    let out =
      apply_all-records clock r.cs 0 r.base r.base_valid r.unlinked (All-numbered r.cs d.logged) in
    let replayed : replay_log clock good_reads log r.base ≡ done (out.count, out.store) =
      replay-encode_all (callback clock) log (map record_of r.cs) [] bytes
        (All-IsEncodable r.cs d.logged) (0, r.base) (omega arith)
      ∙ out.finished in
    record {
      store = set_wal log out.store;
      runs = start_again-runs clock w n.files r.loads r.sound replayed;
      valid = same_map-IsValid out.valid refl refl;
      log = log;
      linked = refl;
      same_log = refl;
      entries = λ j. entry_of-set_wal log out.store j ∙ out.entries j ∙ sym (d.entries j);
    }
