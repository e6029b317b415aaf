-- ===== src/Store/Threads/Sets/Consistent.antt =====
-- The sections of a Set (internal/store/store.go) among those of other Sets: each keeps the log, the map
-- and the writes under way in step.
use mathlib.Core.List.{Permᴰ}
use mathlib.Core.Path.{subst}
use high_performance_kv_stor.Prelude.{
  ℕ, zero, suc, ◌≤◌, ◌<◌, ◌≡◌, refl, sym, ◌∙◌, ap, List, [], ◌∷◌, ◌++◌, map, All, some, arith,
  Bytes, bytes_eq,
}
use high_performance_kv_stor.Prelude.Int.{ℤ}
use high_performance_kv_stor.Store.Entry.{Entry}
use high_performance_kv_stor.Store.Wal.{healthy, append}
use high_performance_kv_stor.Store.Wal.Read.Replay.{encode_all}
use high_performance_kv_stor.Store.Wal.Read.Torn.{bytes-append}
use high_performance_kv_stor.Store.State.{
  Store, Result, entry_of, set_record, store_entry, choose_version, next_version,
}
use high_performance_kv_stor.Store.State.Shards.{IsValid}
use high_performance_kv_stor.Store.State.Effects.{offered, entry_of-same_map, shards-choose_version}
use high_performance_kv_stor.Store.State.Versions.{next_version_grows}
use high_performance_kv_stor.Store.State.Converge.{Write, store_all, store_entry-SameEntries}
use high_performance_kv_stor.Store.Recovery.Durable.{Mutation, record_of, wal-store_entry}
use high_performance_kv_stor.Store.Recovery.Linked.{wal-choose_version}
use high_performance_kv_stor.Store.Threads.{
  Point, set_called, set_logging, set_storing, set_returned, Machine,
}
use high_performance_kv_stor.Store.Threads.Writes.{
  drawn_of, pending_of, gather, gather-append, perm_enters, perm_passes, perm_grows, perm_returns,
  All-perm, All-left, All-middle,
}
use high_performance_kv_stor.Store.Threads.Sets.{
  mutation_of, IsGood, IsClientSet, store_all-IsValid, store_all-append, last_version-store_entry,
  next_version-lt, records-append, IsConsistent,
}

All-weaken :
    {P Q : Write → Type 0} → ((w : Write) → P w → Q w) → (ws : List Write) → All P ws → All Q ws
All-weaken f [] h = tt
All-weaken f (w ∷ ws) h = (f w h.0, All-weaken f ws h.1)

module _ (f : Point → List Write) (ps qs : List Point) (p : Point) where
  at-point : gather f (ps ++ p ∷ qs) ≡ gather f ps ++ (f p ++ gather f qs)
  at-point = gather-append f ps (p ∷ qs)

  -- The point's own writes in the list of all, and back.
  opened :
      (Q : List Write → Type 0)
      → Q (gather f (ps ++ p ∷ qs))
      → Q (gather f ps ++ (f p ++ gather f qs))
  opened Q = subst Q at-point

  closed :
      (Q : List Write → Type 0)
      → Q (gather f ps ++ (f p ++ gather f qs))
      → Q (gather f (ps ++ p ∷ qs))
  closed Q = subst Q (sym at-point)

module _ {s₀ : Store} {cs : List Mutation} {s : Store} (ps qs : List Point) where
  -- A Set draws its version.
  pub draws-IsConsistent :
      (m : Machine) (key value : Bytes) (ttl : ℤ) (version : ℕ)
      → IsConsistent s₀ cs s (ps ++ set_called key value ttl version ∷ qs)
      → IsClientSet m (set_called key value ttl version) s
      → IsConsistent s₀ cs
          (choose_version m.now.for_version version s).0
          (ps ++ set_logging key (offered m.now value ttl version s) ∷ qs)
  unfolding choose_version next_version
  draws-IsConsistent m key value ttl (suc n) c ok = absurd (cc ok.0)
  draws-IsConsistent m key value ttl zero c ok =
      let now = m.now.for_version in
      let e = offered m.now value ttl zero s in
      let w : Write = (key, e) in
      let called = set_called key value ttl zero in
      let grows = next_version_grows now s ok.2 ok.3 in
      record {
        all = w ∷ c.all;
        logged = c.logged;
        applied = c.applied;
        descending = (
          All-weaken {Q = λ x. x.1.version < e.version} (λ x h. omega (arith, grows.0)) c.all
              c.bounded,
          c.descending,
        );
        good = (
          record {
            logs = record {
              encodable = record {
                key_fits = ok.4;
                payload_fits = ok.5;
                version_fits = next_version-lt now s;
                timely = tt;
              };
              numbered = omega (arith, grows.0);
            };
            forever = ok.1;
          },
          c.good,
        );
        bounded = rw grows.2 (
          omega arith,
          All-weaken {Q = λ x. x.1.version ≤ e.version} (λ x h. omega (arith, grows.0)) c.all
              c.bounded,
        );
        drawn =
            closed drawn_of ps qs (set_logging key e) (λ l. Permᴰ (w ∷ c.all) (l ++ c.logged))
              (perm_enters w (gather drawn_of ps) (gather drawn_of qs) c.logged
                (opened drawn_of ps qs called (λ l. Permᴰ c.all (l ++ c.logged)) c.drawn));
        pending =
            closed pending_of ps qs (set_logging key e) (λ l. Permᴰ c.logged (c.applied ++ l))
              (opened pending_of ps qs called (λ l. Permᴰ c.logged (c.applied ++ l)) c.pending);
        log = c.log;
        linked = wal-choose_version now zero s ∙ c.linked;
        written = c.written;
        entries = λ j. entry_of-same_map s _ j (shards-choose_version now zero s) ∙ c.entries j;
      }

  -- The write that a Set is about to log is good.
  pub logging-IsGood :
      (key : Bytes) (e : Entry)
      → IsConsistent s₀ cs s (ps ++ set_logging key e ∷ qs)
      → IsGood (key, e)
  logging-IsGood key e c =
      let drawn =
        opened drawn_of ps qs (set_logging key e) (λ l. Permᴰ c.all (l ++ c.logged)) c.drawn in
      All-middle IsGood (gather drawn_of ps) (gather drawn_of qs) (key, e)
        (All-left IsGood (gather drawn_of ps ++ (key, e) ∷ gather drawn_of qs) c.logged
          (All-perm IsGood drawn c.good))

  -- Its record goes to the log.
  pub logs-IsConsistent :
      (key : Bytes) (e : Entry) (c : IsConsistent s₀ cs s (ps ++ set_logging key e ∷ qs))
      → IsConsistent s₀ cs
          (record s { wal = some (append healthy c.log (set_record key e)).0 })
          (ps ++ set_storing key e ∷ qs)
  logs-IsConsistent key e c =
      let w : Write = (key, e) in
      let drawn =
        opened drawn_of ps qs (set_logging key e) (λ l. Permᴰ c.all (l ++ c.logged)) c.drawn in
      let g = logging-IsGood key e c in
      record {
        all = c.all;
        logged = c.logged ++ w ∷ [];
        applied = c.applied;
        descending = c.descending;
        good = c.good;
        bounded = c.bounded;
        drawn =
            closed drawn_of ps qs (set_storing key e) (λ l. Permᴰ c.all (l ++ (c.logged ++ w ∷ [])))
              (perm_passes w (gather drawn_of ps) (gather drawn_of qs) c.logged drawn);
        pending =
            closed pending_of ps qs (set_storing key e)
              (λ l. Permᴰ (c.logged ++ w ∷ []) (c.applied ++ l))
              (perm_grows w c.applied (gather pending_of ps) (gather pending_of qs) (
                opened pending_of ps qs (set_logging key e) (λ l. Permᴰ c.logged (c.applied ++ l))
                  c.pending));
        log = (append healthy c.log (set_record key e)).0;
        linked = refl;
        written =
            bytes-append c.log (set_record key e) (map record_of (cs ++ map mutation_of c.logged))
              c.written g.logs.encodable.key_fits
            ∙ ap encode_all (records-append cs c.logged w g);
        entries = λ j. entry_of-same_map s _ j refl ∙ c.entries j;
      }

  -- Its entry goes to the map.
  pub stores-IsConsistent :
      (key : Bytes) (e : Entry) (result : Result ℕ)
      → IsValid s₀
      → IsValid s
      → IsConsistent s₀ cs s (ps ++ set_storing key e ∷ qs)
      → IsConsistent s₀ cs (store_entry key e s).0 (ps ++ set_returned result ∷ qs)
  stores-IsConsistent key e result v₀ v c =
      let w : Write = (key, e) in
      let storing = set_storing key e in
      record {
        all = c.all;
        logged = c.logged;
        applied = c.applied ++ w ∷ [];
        descending = c.descending;
        good = c.good;
        bounded = rw (last_version-store_entry key e s) c.bounded;
        drawn =
            closed drawn_of ps qs (set_returned result) (λ l. Permᴰ c.all (l ++ c.logged))
              (opened drawn_of ps qs storing (λ l. Permᴰ c.all (l ++ c.logged)) c.drawn);
        pending =
            closed pending_of ps qs (set_returned result)
              (λ l. Permᴰ c.logged ((c.applied ++ w ∷ []) ++ l))
              (perm_returns w c.applied (gather pending_of ps) (gather pending_of qs)
                (opened pending_of ps qs storing (λ l. Permᴰ c.logged (c.applied ++ l)) c.pending));
        log = c.log;
        linked = wal-store_entry s key e ∙ c.linked;
        written = c.written;
        entries = λ j.
            store_entry-SameEntries s (store_all c.applied s₀) key e v
              (store_all-IsValid c.applied v₀) c.entries j
            ∙ ap (λ t. entry_of t j) (sym (store_all-append c.applied w s₀));
      }
