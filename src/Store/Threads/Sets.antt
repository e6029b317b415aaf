-- ===== src/Store/Threads/Sets.antt =====
-- Sets of internal/store/store.go that run at the same time: whatever the interleaving, the log and the
-- map agree once they have returned, although the log need not have their order.
pub mod Consistent
pub mod Reached
pub mod Settled
use mathlib.Core.List.{Permᴰ, Mem, Memᴰ, map-append}
use mathlib.Core.List.Permᴰ
use mathlib.Core.Logic.{∥∥₁_elim}
use mathlib.Core.Path.{subst, fun_ext}
use native.Mathlib.Decide.{ℕ_discrete}
use high_performance_kv_stor.Prelude.{
  ℕ, zero, suc, ◌+◌, ◌*◌, ◌^◌, ◌≤◌, ◌<◌, ◌≡◌, refl, sym, ◌∙◌, ap, List, [], ◌∷◌, ◌++◌, map, All,
  length, some, none, arith, append-nil, append_assoc, Bytes, bytes_eq, ◌==◌, if◌then◌else◌, true,
}
use high_performance_kv_stor.Prelude.Int.{ℤ}
use high_performance_kv_stor.Store.Entry.{zero_time, Entry}
use high_performance_kv_stor.Store.Wal.{Wal, healthy, append}
use high_performance_kv_stor.Store.Wal.Read.Replay.{encode_all}
use high_performance_kv_stor.Store.Wal.Read.Torn.{bytes-append}
use high_performance_kv_stor.Store.State.{
  Store, Times, Result, entry_of, set_record, store_entry, choose_version, next_version, log_record,
  expiry, set_shard,
}
use high_performance_kv_stor.Store.State.Shards.{IsValid}
use high_performance_kv_stor.Store.State.Invariant.{store_entry-IsValid, choose_version-IsValid}
use high_performance_kv_stor.Store.State.Writes.{merge, entry_of-store_entry}
use high_performance_kv_stor.Store.State.Effects.{offered, entry_of-same_map, shards-choose_version}
use high_performance_kv_stor.Store.State.Versions.{next_version_grows}
use high_performance_kv_stor.Store.State.Converge.{
  Write, store_all, HasOwnVersions, SameEntries, store_all-IsValid, store_entry-SameEntries,
  store_all-permᴰ,
}
use high_performance_kv_stor.Store.Recovery.Durable.{
  Mutation, put, record_of, Map, change, change_all, lasting, wal-store_entry,
}
use high_performance_kv_stor.Store.Recovery.Linked.{log_record-linked, wal-choose_version}
use high_performance_kv_stor.Store.Recovery.Session.{IsLogged, IsDurable}
use high_performance_kv_stor.Store.Threads.{
  Point, set_called, set_logging, set_storing, set_returned, delete_called, delete_logging,
  delete_removing, delete_returned, get_called, get_reaping, get_returned, reap_called, reaping,
  reap_returned, snapshot_called, snapshot_returned, Machine, Shared, set_logged, advance, System,
  Run, start, calls, goes,
}
use high_performance_kv_stor.Store.Threads.Writes.{
  drawn_of, pending_of, gather, is_returned, gather-append, drawn_of-call, pending_of-call,
  drawn-returned, pending-returned, perm_enters, perm_passes, perm_grows, perm_returns, All-perm,
  All-left, All-middle,
}
use high_performance_kv_stor.Store.Threads.Sound.{Run-IsValid}

abbrev pub mutation_of : Write → Mutation
mutation_of (key, e) = put key e.value e.version

-- A write without an expiry that fits the log.
pub record IsGood (w : Write) : Type 0 where
  pub logs : IsLogged (mutation_of w)
  pub forever : w.1.expires_at ≡ zero_time

-- What a client's Set without an expiry meets in each of its sections: it draws its version from a
-- uint64 counter that is not exhausted, the record fits the log's format, and the log's disk works.
abbrev pub IsClientSet : Machine → Point → Store → Type 0
IsClientSet m (set_called key value ttl version) s =
    (version ≡ 0)
    × (expiry m.now.for_expiry ttl ≡ zero_time)
    × (m.now.for_version < 2 ^ 64)
    × (s.last_version + 1 < 2 ^ 64)
    × (length key ≤ 65535)
    × (19 + length key + length value < 2 ^ 32)
IsClientSet m (set_logging key e) s = m.disk ≡ healthy
IsClientSet m (set_storing key e) s = Unit {0}
IsClientSet m _ s = ⊥

-- Later writes first, each with a version above those of the earlier ones.
abbrev pub IsDescending : List Write → Type 0
IsDescending [] = Unit {0}
IsDescending (w ∷ ws) = All (λ x. x.1.version < w.1.version) ws × IsDescending ws

All-Memᴰ : (P : Write → Type 0) {w : Write} {ws : List Write} → All P ws → Memᴰ w ws → P w
All-Memᴰ P h (Memᴰ.head e) = subst P (sym e) h.0
All-Memᴰ P h (Memᴰ.tail m) = All-Memᴰ P h.1 m

own_version :
    (ws : List Write) (w x : Write)
    → IsDescending ws
    → Memᴰ w ws
    → Memᴰ x ws
    → w.1.version ≡ x.1.version
    → w ≡ x
own_version [] w x d m n same = elim m [ ]
own_version (y ∷ ws) w x d (Memᴰ.head e) (Memᴰ.head f) same = e ∙ sym f
own_version (y ∷ ws) w x d (Memᴰ.head e) (Memᴰ.tail n) same =
    let below = All-Memᴰ (λ z. z.1.version < y.1.version) d.0 n in
    absurd (omega (arith, ap (λ z. z.1.version) e))
own_version (y ∷ ws) w x d (Memᴰ.tail m) (Memᴰ.head f) same =
    let below = All-Memᴰ (λ z. z.1.version < y.1.version) d.0 m in
    absurd (omega (arith, ap (λ z. z.1.version) f))
own_version (y ∷ ws) w x d (Memᴰ.tail m) (Memᴰ.tail n) same = own_version ws w x d.1 m n same

Write-set : IsSet Write
Write-set = hlevel ℕ_discrete

pub perm-HasOwnVersions :
    {all ws : List Write} → IsDescending all → Permᴰ all ws → HasOwnVersions ws
perm-HasOwnVersions {all} d p w x m n same =
    ∥∥₁_elim (Permᴰ.mem (Permᴰ.symm p) m) (Write-set w x) (λ a.
      ∥∥₁_elim (Permᴰ.mem (Permᴰ.symm p) n) (Write-set w x) (λ b. own_version all w x d a b same))

pub store_all-append :
    (ws : List Write) (w : Write) (s : Store)
    → store_all (ws ++ w ∷ []) s ≡ (store_entry w.0 w.1 (store_all ws s)).0
store_all-append [] w s = refl
store_all-append ((key, e) ∷ ws) w s = store_all-append ws w (store_entry key e s).0

pub last_version-store_entry :
    (key : Bytes) (e : Entry) (s : Store) → (store_entry key e s).0.last_version ≡ s.last_version
unfolding store_entry set_shard
last_version-store_entry key e s = ground arith

pub next_version-lt : (now : ℕ) (s : Store) → (next_version now s).1 < 2 ^ 64
unfolding next_version
next_version-lt now s = ground arith

-- The record of a good write is that of its mutation.
record_of-good : (w : Write) → IsGood w → set_record w.0 w.1 ≡ record_of (mutation_of w)
record_of-good (key, e) g =
    ap (λ t. set_record key (record { value = e.value; version = e.version; expires_at = t }))
      g.forever

pub change_all-append :
    (cs ds : List Mutation) (m : Map) → change_all (cs ++ ds) m ≡ change_all ds (change_all cs m)
change_all-append [] ds m = refl
change_all-append (c ∷ cs) ds m = change_all-append cs ds (change c m)

-- The critical sections of good writes, as changes of the map.
pub entry_of-store_all :
    (ws : List Write) {s : Store}
    → IsValid s
    → All IsGood ws
    → entry_of (store_all ws s) ≡ change_all (map mutation_of ws) (entry_of s)
entry_of-store_all [] v g = refl
entry_of-store_all ((key, e) ∷ ws) {s} v g =
    let same : e ≡ lasting e.value e.version =
      ap (λ t. record { value = e.value; version = e.version; expires_at = t }) g.0.forever in
    entry_of-store_all ws (store_entry-IsValid v key e) g.1
    ∙ ap (change_all (map mutation_of ws)) (
        fun_ext (λ j.
          entry_of-store_entry s v.shard_number key e j
          ∙ ap (λ x. if key == j then some (merge (entry_of s key) x) else entry_of s j) same))

pub All-logged :
    (cs : List Mutation) (ws : List Write)
    → All IsLogged cs
    → All IsGood ws
    → All IsLogged (cs ++ map mutation_of ws)
All-logged [] [] h g = tt
All-logged [] (w ∷ ws) h g = (g.0.logs, All-logged [] ws tt g.1)
All-logged (c ∷ cs) ws h g = (h.0, All-logged cs ws h.1 g)

pub records-append :
    (cs : List Mutation) (ws : List Write) (w : Write)
    → IsGood w
    → map record_of (cs ++ map mutation_of ws) ++ set_record w.0 w.1 ∷ []
      ≡ map record_of (cs ++ map mutation_of (ws ++ w ∷ []))
records-append cs ws w g =
    ap (λ r. map record_of (cs ++ map mutation_of ws) ++ r ∷ []) (record_of-good w g)
    ∙ sym (map-append record_of (cs ++ map mutation_of ws) (mutation_of w ∷ []))
    ∙ ap (map record_of) (
        append_assoc cs (map mutation_of ws) (mutation_of w ∷ [])
        ∙ ap (λ l. cs ++ l) (sym (map-append mutation_of ws (w ∷ []))))

-- The writes of a run: those drawn, with the latest first, and those in the log and in the map, in
-- their order there. They have come on top of the store `s₀` and of the writes `cs` in its log.
pub record IsConsistent (s₀ : Store) (cs : List Mutation) (store : Store) (points : List Point)
    : Type 0 where
  pub all : List Write
  pub logged : List Write
  pub applied : List Write
  pub descending : IsDescending all
  pub good : All IsGood all
  pub bounded : All (λ w. w.1.version ≤ store.last_version) all
  pub drawn : Permᴰ all (gather drawn_of points ++ logged)
  pub pending : Permᴰ logged (applied ++ gather pending_of points)
  pub log : Wal
  pub linked : store.wal ≡ some log
  pub written : log.bytes ≡ encode_all (map record_of (cs ++ map mutation_of logged))
  pub entries : SameEntries store (store_all applied s₀)
