-- ===== src/Store/Threads/Undone/Restarted.antt =====
-- A restart (cmd/server/main.go) goes by the log, which may have a Set and a Delete of
-- internal/store/store.go in another order than the map took them.
use high_performance_kv_stor.Prelude.{
  ℕ, ◌+◌, ◌^◌, ◌≤◌, ◌<◌, ◌≡◌, refl, sym, ◌∙◌, ap, true, List, [], ◌∷◌, ◌++◌, none, some, arith,
  length, Bytes, bytes_eq, String, map, All, append_assoc,
}
use high_performance_kv_stor.Prelude.Int.{ℤ}
use high_performance_kv_stor.Store.Entry.{Entry, zero_time}
use high_performance_kv_stor.Store.Wal.{Wal, healthy, append}
use high_performance_kv_stor.Store.State.{
  Store, ok, entry_of, choose_version, next_version, delete_record, set_wal, expiry, store_entry,
  remove_entry,
}
use high_performance_kv_stor.Store.State.Writes.{survivor}
use high_performance_kv_stor.Store.State.Effects.{entry_of-same_map}
use high_performance_kv_stor.Store.Recovery.{Reading}
use high_performance_kv_stor.Store.Start.{running}
use high_performance_kv_stor.Store.Start.History.{Node, History, start_again}
use high_performance_kv_stor.Store.State.Versions.{next_version_grows}
use high_performance_kv_stor.Store.State.Invariant.{
  store_entry-IsValid, remove_entry-IsValid, same_map-IsValid,
}
use high_performance_kv_stor.Store.Recovery.Durable.{
  Mutation, put, remove, record_of, Map, change, lasting, entry_of-perform, wal-store_entry,
  wal-remove_entry,
}
use high_performance_kv_stor.Store.Recovery.Session.{IsLogged, IsDurable}
use high_performance_kv_stor.Store.Wal.Read.Replay.{encode_all}
use high_performance_kv_stor.Store.Wal.Read.Torn.{bytes-append}
use high_performance_kv_stor.Store.Start.Restored.{start_again-IsRecoverable, entry_of-set_wal}
use high_performance_kv_stor.Store.Start.Recoverable.{History-IsRecoverable, same_files, relinked}
use high_performance_kv_stor.Store.Threads.Sets.{change_all-append, next_version-lt}
use mathlib.Core.List.{map-append}
use mathlib.Core.Path.{fun_ext, subst}
use high_performance_kv_stor.Store.Threads.{
  Point, set_called, set_returned, delete_called, delete_returned, Machine, Shared, race,
}
use high_performance_kv_stor.Store.Start.Restored.{IsRestarted}
use high_performance_kv_stor.Store.Threads.Undone.{
  turns, after_draw, drawn, set_over, both, race-turns, set_then_delete, delete_then_set,
}

-- The Delete has returned after the key was gone, and a restart brings the entry of the Set back.
pub record IsUndone (clock : ℕ → Reading) (key : Bytes) (e : Entry) (version : ℕ)
    (out : Shared × Point × Point) : Type 0 where
  pub answer : ℕ
  pub wrote : out.1 ≡ set_returned (ok answer)
  pub erased : out.2 ≡ delete_returned (ok (version, true))
  pub gone : entry_of out.0.store key ≡ none
  pub log : Wal
  pub linked : out.0.store.wal ≡ some log
  pub store : Store
  pub runs : start_again clock log out.0.files ≡ running store
  pub back : entry_of store key ≡ some e

All-two :
    (cs : List Mutation) (c d : Mutation)
    → All IsLogged cs
    → IsLogged c
    → IsLogged d
    → All IsLogged (cs ++ c ∷ d ∷ [])
All-two [] c d h k l = (k, (l, tt))
All-two (b ∷ cs) c d h k l = (h.0, All-two cs c d h.1 k l)

-- The log with both records leads to the Delete and then the Set.
both-IsDurable :
    {m : Map} {s : Store} {cs : List Mutation} (d : IsDurable m s cs) (key value : Bytes)
    (version chosen : ℕ)
    → IsLogged (remove key version)
    → IsLogged (put key value chosen)
    → let e = lasting value chosen in
      IsDurable m
        (set_wal (both d.wal key version e) (store_entry key e (remove_entry key version s).0).0)
        (cs ++ remove key version ∷ put key value chosen ∷ [])
both-IsDurable {m} {s} {cs} d key value version chosen erases writes =
    let e = lasting value chosen in
    let c₁ = remove key version in
    let c₂ = put key value chosen in
    let w₁ = (append healthy d.wal (delete_record key version)).0 in
    let v₁ = remove_entry-IsValid d.valid key version in
    let first : w₁.bytes ≡ encode_all (map record_of cs ++ record_of c₁ ∷ []) =
      bytes-append d.wal (record_of c₁) (map record_of cs) d.written erases.encodable.key_fits in
    let second =
      bytes-append w₁ (record_of c₂) (map record_of cs ++ record_of c₁ ∷ []) first
        writes.encodable.key_fits in
    relinked (both d.wal key version e) (cs ++ c₁ ∷ c₂ ∷ []) (store_entry-IsValid v₁ key e)
      (second
        ∙ ap encode_all (
            append_assoc (map record_of cs) (record_of c₁ ∷ []) (record_of c₂ ∷ [])
            ∙ sym (map-append record_of cs (c₁ ∷ c₂ ∷ []))))
      (All-two cs c₁ c₂ d.logged erases writes)
      (λ j.
        entry_of-perform c₂ j v₁
        ∙ ap (λ f. change c₂ f j) (fun_ext (λ k. entry_of-perform c₁ k d.valid))
        ∙ ap (λ f. change c₂ (change c₁ f) j) (fun_ext d.entries)
        ∙ ap (λ f. f j) (sym (change_all-append cs (c₁ ∷ c₂ ∷ []) m)))

-- A restart from the log with both records.
both-again :
    {path : String} {n : Node} (clock : ℕ → Reading) (history : History path n) (key value : Bytes)
    (version : ℕ) (e : Entry)
    → e ≡ lasting value e.version
    → length key ≤ 65535
    → 19 + length key + length value < 2 ^ 32
    → version < 2 ^ 64
    → e.version < 2 ^ 64
    → 0 < version
    → 0 < e.version
    → let log = both (History-IsRecoverable history).durable.wal key version e in
      IsRestarted
        (set_wal log (store_entry key e (remove_entry key version n.store).0).0)
        log
        (start_again clock log n.files)
both-again {n = n} clock history key value version e same fits payload low₁ low₂ pos₁ pos₂ =
    let r = History-IsRecoverable history in
    let log = both r.durable.wal key version e in
    let again : Store = set_wal log (store_entry key e (remove_entry key version n.store).0).0 in
    let erases : IsLogged (remove key version) = record {
      encodable = record {
        key_fits = fits;
        payload_fits = omega arith;
        version_fits = low₁;
        timely = tt;
      };
      numbered = omega arith;
    } in
    let writes : IsLogged (put key value e.version) = record {
      encodable = record {
        key_fits = fits;
        payload_fits = payload;
        version_fits = low₂;
        timely = tt;
      };
      numbered = omega arith;
    } in
    let d =
      subst
        (λ x.
          IsDurable (entry_of r.base)
            (set_wal (both r.durable.wal key version x)
              (store_entry key x (remove_entry key version n.store).0).0)
            (r.cs ++ remove key version ∷ put key value e.version ∷ []))
        (sym same) (both-IsDurable r.durable key value version e.version erases writes) in
    start_again-IsRecoverable clock (record n { store = again }) log (same_files r again _ d) refl

module _ {path : String} {n : Node} (clock : ℕ → Reading) (m₁ m₂ m : Machine) (key value : Bytes)
    (ttl : ℤ) (history : History path n) where
  -- After any history of a node, let a Set without an expiry and a Delete of the same key run at
  -- the same time on a healthy disk, with a record that fits the log's format and before the
  -- version counter is exhausted: the Set draws the lower version, the Delete's record comes first
  -- in the log, and the map takes the Set first. If no entry of a version above the Delete's is
  -- there, the Delete returns that it has removed the key, and the running store does not have it;
  -- but a restart brings the entry of the Set back.
  pub delete-IsUndone :
      m.disk ≡ healthy
      → expiry m₁.now.for_expiry ttl ≡ zero_time
      → m₁.now.for_version < 2 ^ 64
      → m₂.now.for_version < 2 ^ 64
      → n.store.last_version + 1 < 2 ^ 64
      → (after_draw m₁ n.store).last_version + 1 < 2 ^ 64
      → length key ≤ 65535
      → 19 + length key + length value < 2 ^ 32
      → survivor (entry_of n.store key) (drawn m₂ (after_draw m₁ n.store)) ≡ none
      → IsUndone clock key (set_over m₁ value ttl n.store) (drawn m₂ (after_draw m₁ n.store)) (
          race (turns m₁ m₂ m) (
            record { files = n.files; store = n.store },
            set_called key value ttl 0,
            delete_called key 0,
          ))
  unfolding choose_version next_version
  delete-IsUndone works forever clock₁ clock₂ room₁ room₂ fits payload gone =
      let r = History-IsRecoverable history in
      let s = n.store in
      let s₁ = after_draw m₁ s in
      let v = drawn m₂ s₁ in
      let e = set_over m₁ value ttl s in
      let log = both r.durable.wal key v e in
      let ready : Store = record (after_draw m₂ s₁) { wal = some log } in
      let ready_valid = same_map-IsValid {t = ready} r.durable.valid refl refl in
      let grows₁ = next_version_grows m₁.now.for_version s clock₁ room₁ in
      let grows₂ = next_version_grows m₂.now.for_version s₁ clock₂ room₂ in
      let gone_yet : survivor (entry_of ready key) v ≡ none =
        ap (λ o. survivor o v) (entry_of-same_map s ready key refl) ∙ gone in
      let (removed, absent) =
        set_then_delete ready_valid key e v gone_yet (omega (arith, grows₁.2, grows₂.0)) in
      let t =
        both-again clock history key value v e
          (ap (λ t. record { value = value; version = e.version; expires_at = t }) forever) fits
          payload (next_version-lt m₂.now.for_version s₁) (next_version-lt m₁.now.for_version s)
          (omega (arith, grows₂.0)) (omega (arith, grows₁.0)) in
      rw
        (race-turns m₁ m₂ m key value ttl (record { files = n.files; store = s }) r.durable.wal
          r.durable.linked works fits)
        (record {
          answer = (store_entry key e ready).1;
          wrote = refl;
          erased = ap (λ x. delete_returned (ok x)) removed;
          gone = absent;
          log = log;
          linked = wal-remove_entry (store_entry key e ready).0 key v ∙ wal-store_entry ready key e;
          store = t.store;
          runs = t.runs;
          back =
              t.entries key
              ∙ entry_of-set_wal log _ key
              ∙ delete_then_set r.durable.valid key e v gone;
        })
