-- ===== src/Examples/Agreements.antt =====
-- Two nodes that receive the same PUTs: one in the order of their versions, the other in another, with
-- a PUT that fails at first and one that comes again.
use mathlib.Core.List.{Memᴰ, Mem, Subset, Mem-prop, mem-cons_of_mem}
use native.Mathlib.Decide.{ℕ_discrete}
use mathlib.Core.Logic.{∥∥₁_elim}
use high_performance_kv_stor.Prelude.{
  ℕ, ◌≡◌, ◌≢◌, refl, sym, ◌∙◌, ap, List, [], ◌∷◌, none, arith, bytes_eq, bytes_beq,
}
use high_performance_kv_stor.Prelude.Table.{lookup, insert}
use high_performance_kv_stor.Store.Hash.{fnv32a}
use high_performance_kv_stor.Store.Entry.{Entry}
use high_performance_kv_stor.Store.Wal.{Disk, healthy, sync_fails, append, write_sync}
use high_performance_kv_stor.Store.State.{
  shard_index, get_shard, set_shard, choose_version, log_record, store_entry, set, Store,
}
use high_performance_kv_stor.Store.State.Invariant.{new_store-IsValid}
use high_performance_kv_stor.Store.State.Converge.{Write, SameEntries, HasOwnVersions}
use high_performance_kv_stor.Store.State.Effects.{entry_of-same_map}
use high_performance_kv_stor.Api.{Node, handle_internal_replicate, replicated, replicated_ttl}
use high_performance_kv_stor.Api.Agreement.{
  Delivery, IsLasting, deliver_all, acknowledged, deliver_all-SameEntries,
}
use high_performance_kv_stor.Examples.Data.{
  key_a, noon, old_entry, new_entry, empty_store, logged_store,
}

abbrev first_write : Write
first_write = (key_a, old_entry)

abbrev second_write : Write
second_write = (key_a, new_entry)

abbrev arrives : Disk → ℕ → Entry → Delivery
arrives disk until e = record {
  disk = disk;
  until = until;
  now = noon;
  request = record {
    key = key_a;
    value = e.value;
    version = e.version;
    expires_at = 0;
    action = "SET";
  };
}

abbrev in_order : List Delivery
in_order = arrives healthy 1000 old_entry ∷ arrives healthy 1001 new_entry ∷ []

abbrev out_of_order : List Delivery
out_of_order =
    arrives sync_fails 2000 old_entry
    ∷ arrives healthy 2001 new_entry
    ∷ arrives healthy 2002 old_entry
    ∷ arrives healthy 2003 new_entry
    ∷ []

abbrev node_with : Store → Node
node_with s = record {
  store = s;
  peers = [];
  replicator = record { node_id = "n1"; last_served = 0 };
}

old_lasts : {disk : Disk} {until : ℕ} → IsLasting (arrives disk until old_entry)
old_lasts = record { action = refl; forever = refl; numbered = omega arith }

new_lasts : {disk : Disk} {until : ℕ} → IsLasting (arrives disk until new_entry)
new_lasts = record { action = refl; forever = refl; numbered = omega arith }

acknowledged-in_order :
    acknowledged in_order (node_with empty_store) ≡ first_write ∷ second_write ∷ []
unfolding handle_internal_replicate replicated replicated_ttl set choose_version log_record
    store_entry get_shard set_shard lookup insert shard_index fnv32a
acknowledged-in_order = refl

acknowledged-out_of_order :
    acknowledged out_of_order (node_with logged_store)
    ≡ second_write ∷ first_write ∷ second_write ∷ []
unfolding handle_internal_replicate replicated replicated_ttl set choose_version log_record
    store_entry get_shard set_shard lookup insert shard_index fnv32a append write_sync bytes_beq
acknowledged-out_of_order = refl

same_start : SameEntries empty_store logged_store
same_start j = sym (entry_of-same_map empty_store logged_store j refl)

Write-set : IsSet Write
Write-set = hlevel ℕ_discrete

differ : old_entry.version ≢ new_entry.version
differ h = omega (arith, h)

same_write :
    {w x : Write}
    → Memᴰ w (first_write ∷ second_write ∷ [])
    → Memᴰ x (first_write ∷ second_write ∷ [])
    → w.1.version ≡ x.1.version
    → w ≡ x
same_write (Memᴰ.head e) (Memᴰ.head f) same = e ∙ sym f
same_write (Memᴰ.head e) (Memᴰ.tail (Memᴰ.head f)) same =
    absurd (differ (sym (ap (λ p. p.1.version) e) ∙ same ∙ ap (λ p. p.1.version) f))
same_write (Memᴰ.tail (Memᴰ.head e)) (Memᴰ.head f) same =
    absurd (differ (sym (ap (λ p. p.1.version) f) ∙ sym same ∙ ap (λ p. p.1.version) e))
same_write (Memᴰ.tail (Memᴰ.head e)) (Memᴰ.tail (Memᴰ.head f)) same = e ∙ sym f
same_write (Memᴰ.head e) (Memᴰ.tail (Memᴰ.tail n)) same = elim n [ ]
same_write (Memᴰ.tail (Memᴰ.head e)) (Memᴰ.tail (Memᴰ.tail n)) same = elim n [ ]
same_write (Memᴰ.tail (Memᴰ.tail m)) n same = elim m [ ]

own_versions : HasOwnVersions (first_write ∷ second_write ∷ [])
own_versions w x here there same =
    ∥∥₁_elim here (Write-set w x) (λ m. ∥∥₁_elim there (Write-set w x) (λ n. same_write m n same))

in_both : Subset (first_write ∷ second_write ∷ []) (second_write ∷ first_write ∷ second_write ∷ [])
in_both w m = mem-cons_of_mem second_write m

no_others :
    Subset (second_write ∷ first_write ∷ second_write ∷ []) (first_write ∷ second_write ∷ [])
no_others w m = ∥∥₁_elim m Mem-prop found
  where
    found :
        Memᴰ w (second_write ∷ first_write ∷ second_write ∷ [])
        → Mem w (first_write ∷ second_write ∷ [])
    found (Memᴰ.head e) = ∣ Memᴰ.tail (Memᴰ.head e) ∣₁
    found (Memᴰ.tail d) = ∣ d ∣₁

deliver_all-SameEntries_example :
    SameEntries
      (deliver_all in_order (node_with empty_store)).store
      (deliver_all out_of_order (node_with logged_store)).store
deliver_all-SameEntries_example =
    deliver_all-SameEntries in_order out_of_order (node_with empty_store) (node_with logged_store)
      (new_store-IsValid none) (new_store-IsValid _) same_start (old_lasts, (new_lasts, tt))
      (old_lasts, (new_lasts, (old_lasts, (new_lasts, tt)))) (rw acknowledged-in_order own_versions)
      (rw (acknowledged-in_order, acknowledged-out_of_order) in_both)
      (rw (acknowledged-in_order, acknowledged-out_of_order) no_others)
