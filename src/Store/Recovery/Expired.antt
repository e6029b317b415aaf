-- ===== src/Store/Recovery/Expired.antt =====
-- A Set with an expiry (internal/store/store.go) and a restart (cmd/server/main.go) after it has
-- run out: the replay skips the Set, but not what the Set had overwritten.
use mathlib.Core.Path.{fun_ext}
use high_performance_kv_stor.Prelude.{
  ℕ, suc, ◌<◌, ◌≤◌, ◌≡◌, refl, sym, ◌∙◌, ap, Bool, true, List, [], ◌∷◌, ◌++◌, map, none, some,
  arith, length, Bytes, bytes_eq, bytes_beq_iff, String, append-nil, le→ltb,
}
use high_performance_kv_stor.Prelude.Int.{ℤ}
use high_performance_kv_stor.Store.Entry.{Entry, instant, is_expired, passed}
use high_performance_kv_stor.Store.Wal.{Record, Wal, healthy, append}
use high_performance_kv_stor.Store.Wal.Read.{done, good_reads}
use high_performance_kv_stor.Store.Wal.Read.RoundTrip.{IsEncodable}
use high_performance_kv_stor.Store.Wal.Read.Replay.{encode_all, apply_all, replay-encode_all}
use high_performance_kv_stor.Store.Wal.Read.Torn.{bytes-append, encode_all-IsEncodable}
use high_performance_kv_stor.Store.State.{
  Store, new_store, entry_of, Times, set_record, set, choose_version, expiry,
}
use high_performance_kv_stor.Store.State.Shards.{IsValid}
use high_performance_kv_stor.Store.State.Invariant.{new_store-IsValid}
use high_performance_kv_stor.Store.State.Writes.{merge}
use high_performance_kv_stor.Store.State.Reads.{visible}
use high_performance_kv_stor.Store.State.Effects.{offered, set_effect}
use high_performance_kv_stor.Store.Recovery.{Reading, callback, replay_log, replay_record}
use high_performance_kv_stor.Store.Recovery.Durable.{
  Mutation, record_of, change_all, apply_all-records, wal-store_entry,
}
use high_performance_kv_stor.Store.Recovery.Linked.{set-linked}
use high_performance_kv_stor.Store.Recovery.Session.{
  Session, Session-IsDurable, All-IsEncodable, All-numbered, entry_of-new_store, IsRestored,
}

-- A record whose expiry has come is skipped.
replay_record-lapsed :
    (now : Reading) (key : Bytes) (e : Entry) (t : ℕ) (s : Store)
    → e.expires_at ≡ instant t
    → t ≤ now.for_until
    → replay_record now (set_record key e) s ≡ (s, true)
unfolding replay_record
replay_record-lapsed now key e t s expires past = ground arith

apply_all-append :
    {S : Type 0} (f : Record → S → S × Bool) (rs : List Record) (r : Record) (s : S) {t u : S}
    → apply_all f rs s ≡ done t
    → f r t ≡ (u, true)
    → apply_all f (rs ++ r ∷ []) s ≡ done u
apply_all-append f [] r s h last = ground arith
apply_all-append f (q ∷ rs) r s {t} {u} h last =
    ground (arith, apply_all-append f rs r (f q s).0 {t = t} {u = u})

-- What the running store does with a Set that wins.
set-wins :
    (now : Times) (key value : Bytes) (ttl : ℤ) (version : ℕ) (s : Store) (w : Wal) (c : Entry)
    → IsValid s
    → s.wal ≡ some w
    → length key ≤ 65535
    → entry_of s key ≡ some c
    → c.version ≤ (choose_version now.for_version version s).1
    → (entry_of (set healthy now key value ttl version s).0 key
        ≡ some (offered now value ttl version s))
      × ((set healthy now key value ttl version s).0.wal
          ≡ some (append healthy w (set_record key (offered now value ttl version s))).0)
set-wins now key value ttl version s w c v linked fits present wins =
    let e = offered now value ttl version s in
    let done_set = set-linked now key value ttl version s w linked fits in
    let (reply, entries) =
      set_effect healthy now key value ttl version s _ v.shard_number (ap (λ p. p.1) done_set) in
    let kept : merge (entry_of s key) e ≡ e = rw present (rw (le→ltb e.version c.version wins)) in
    (
      entries key ∙ ground (arith, kept, bytes_beq_iff key key),
      ap (λ p. p.0.wal) done_set ∙ wal-store_entry _ key e,
    )

visible_expired :
    (later : ℕ) (e : Entry) (t : ℕ)
    → e.expires_at ≡ instant t
    → t < later
    → visible later (some e) ≡ none
unfolding is_expired passed
visible_expired later e t expires after = ground arith

module _ {path : String} {s : Store} {cs : List Mutation} (clock : ℕ → Reading) (w : Wal)
    (now : Times) (key value : Bytes) (ttl : ℤ) (version t : ℕ) (c : Entry)
    (session : Session path s cs) (expires : expiry now.for_expiry ttl ≡ instant t)
    (fits : IsEncodable (set_record key (offered now value ttl version s)))
    (present : entry_of s key ≡ some c)
    (wins : c.version ≤ (choose_version now.for_version version s).1)
    (linked : (set healthy now key value ttl version s).0.wal ≡ some w)
    (past : (n : ℕ) → t ≤ (clock n).for_until) where
  -- A key holds an entry that a session without expiries wrote, and a Set with an expiry overwrites
  -- it. Once the expiry has passed, the running store shows nothing for the key; a restart at such
  -- a time gives the key its overwritten entry again, and every other key what it had.
  pub overwritten_returns :
      (later : ℕ)
      → t < later
      → (visible later (entry_of (set healthy now key value ttl version s).0 key) ≡ none)
        × IsRestored s (replay_log clock good_reads w (new_store none))
  overwritten_returns later after =
      let d = Session-IsDurable session in
      let e = offered now value ttl version s in
      let r = set_record key e in
      let rs = map record_of cs in
      let (entry, log) =
        set-wins now key value ttl version s d.wal c d.valid d.linked fits.key_fits present wins in
      let same : (append healthy d.wal r).0 ≡ w = cc (sym log ∙ linked) in
      let bytes : w.bytes ≡ encode_all (rs ++ r ∷ []) ++ [] =
        ap (λ x. x.bytes) (sym same)
        ∙ bytes-append d.wal r rs d.written fits.key_fits
        ∙ sym (append-nil (encode_all (rs ++ r ∷ []))) in
      let out =
        apply_all-records clock cs 0 (new_store none) (new_store-IsValid none) refl
          (All-numbered cs d.logged) in
      let skipped =
        replay_record-lapsed (clock out.count) key e t out.store expires (past out.count) in
      (
        ap (visible later) entry ∙ visible_expired later e t expires after,
        record {
          count = suc out.count;
          store = out.store;
          finished =
              replay-encode_all (callback clock) w (rs ++ r ∷ []) [] bytes
                (encode_all-IsEncodable rs r (All-IsEncodable cs d.logged) fits) (0, new_store none)
                (omega arith)
              ∙ apply_all-append (callback clock) rs r (0, new_store none) out.finished
                  (ap (λ p. ((suc out.count, p.0), p.1)) skipped);
          valid = out.valid;
          entries = λ j.
              out.entries j
              ∙ ap (λ m. change_all cs m j) (fun_ext (entry_of-new_store none))
              ∙ sym (d.entries j);
        },
      )
