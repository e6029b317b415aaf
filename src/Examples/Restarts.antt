-- ===== src/Examples/Restarts.antt =====
-- Runs of the theorems on restarts.
use high_performance_kv_stor.Prelude.{ℕ, ◌+◌, ◌≤◌, ◌≡◌, refl, [], ◌∷◌, none, some, arith, bytes_beq}
use high_performance_kv_stor.Prelude.Int.{pos}
use high_performance_kv_stor.Prelude.Table.{lookup, insert}
use high_performance_kv_stor.Store.Entry.{instant}
use high_performance_kv_stor.Store.Hash.{fnv32a}
use high_performance_kv_stor.Store.Wal.{Wal, healthy, append, write_sync}
use high_performance_kv_stor.Store.Wal.Read.{good_reads}
use high_performance_kv_stor.Store.Wal.Read.RoundTrip.{IsEncodable}
use high_performance_kv_stor.Store.State.{
  Store, shard_index, get_shard, set_shard, entry_of, next_version, choose_version, expiry,
  log_record, store_entry, set, new_store, set_record,
}
use high_performance_kv_stor.Store.State.Effects.{offered}
use high_performance_kv_stor.Store.State.Reads.{visible}
use high_performance_kv_stor.Store.Recovery.{Reading, replay_log}
use high_performance_kv_stor.Store.Recovery.Durable.{put}
use high_performance_kv_stor.Store.Recovery.Session.{empty_wal, Session, start, wrote, IsRestored}
use high_performance_kv_stor.Store.Recovery.Expired.{overwritten_returns}
use high_performance_kv_stor.Examples.Data.{key_a, noon, old_entry}

-- The clock of a restart, long after noon.
abbrev pub evening : ℕ → Reading
evening n = record {
  for_until = 5000 + n;
  inside = record { for_expiry = 5000 + n; for_version = 5000 + n };
}

abbrev new_log : Store
new_log = new_store (some (empty_wal "store.wal"))

abbrev pub one_put : Store
one_put = (set healthy noon key_a old_entry.value (pos 0) 5 new_log).0

abbrev pub one_put_wal : Wal
one_put_wal = (append healthy (empty_wal "store.wal") (set_record key_a old_entry)).0

one_put-Session : Session "store.wal" one_put (put key_a old_entry.value 5 ∷ [])
unfolding choose_version expiry
one_put-Session =
    wrote start noon key_a old_entry.value (pos 0) 5 refl
      (record {
        encodable = record {
          key_fits = omega arith;
          payload_fits = omega arith;
          version_fits = omega arith;
          timely = tt;
        };
        numbered = omega arith;
      })
      one_put refl (put key_a old_entry.value 5 ∷ []) refl

pub wal-one_put : one_put.wal ≡ some one_put_wal
unfolding set choose_version log_record append write_sync store_entry get_shard set_shard lookup
    insert shard_index fnv32a expiry
wal-one_put = refl

abbrev short_put : Store
short_put = (set healthy noon key_a (8 ∷ []) (pos 60) 0 one_put).0

abbrev short_put_wal : Wal
short_put_wal =
    (append healthy one_put_wal (set_record key_a (offered noon (8 ∷ []) (pos 60) 0 one_put))).0

short_put-IsEncodable : IsEncodable (set_record key_a (offered noon (8 ∷ []) (pos 60) 0 one_put))
unfolding set choose_version next_version log_record append write_sync store_entry get_shard
    set_shard lookup insert shard_index fnv32a expiry
short_put-IsEncodable = record {
  key_fits = omega arith;
  payload_fits = omega arith;
  version_fits = omega arith;
  timely = omega arith;
}

entry_of-one_put : entry_of one_put key_a ≡ some old_entry
unfolding entry_of set choose_version log_record append write_sync store_entry get_shard set_shard
    lookup insert shard_index fnv32a expiry bytes_beq
entry_of-one_put = refl

short_put-wins : old_entry.version ≤ (choose_version 1001 0 one_put).1
unfolding set choose_version next_version log_record append write_sync store_entry get_shard
    set_shard lookup insert shard_index fnv32a expiry
short_put-wins = omega arith

wal-short_put : short_put.wal ≡ some short_put_wal
unfolding set choose_version next_version log_record append write_sync store_entry get_shard
    set_shard lookup insert shard_index fnv32a expiry bytes_beq
wal-short_put = refl

expires_soon : expiry 1000 (pos 60) ≡ instant 1060
unfolding expiry
expires_soon = refl

overwritten_returns_example :
    (visible 2000 (entry_of short_put key_a) ≡ none)
    × IsRestored one_put (replay_log evening good_reads short_put_wal (new_store none))
overwritten_returns_example =
    overwritten_returns evening short_put_wal noon key_a (8 ∷ []) (pos 60) 0 1060 old_entry
      one_put-Session expires_soon short_put-IsEncodable entry_of-one_put short_put-wins
      wal-short_put (λ n. omega arith) 2000 (omega arith)
