-- ===== src/Store/State/Reads.antt =====
-- Get of internal/store/store.go: what it returns, and that its lazy removal of an expired entry
-- changes nothing that a later Get can show.
use high_performance_kv_stor.Prelude.{
  ℕ, ◌≤◌, ◌≡◌, refl, true, Option, none, some, arith, length, Bytes, bytes_eq, bytes_beq_iff, ◌==◌,
  if◌then◌else◌, Bool-cases, Option-cases, inl, inr,
}
use high_performance_kv_stor.Prelude.Table.{lookup}
use high_performance_kv_stor.Store.Entry.{Entry, passed, is_expired}
use high_performance_kv_stor.Store.State.{Store, get_shard, set_shard, entry_of, reap_key, get}
use high_performance_kv_stor.Store.State.Shards.{entry_of-delete}
use high_performance_kv_stor.Store.State.Writes.{unchanged_at}

-- What a client can see of an entry at a time: its value and version, unless it has expired.
abbrev pub visible : ℕ → Option Entry → Option (Bytes × ℕ)
visible now none = none
visible now (some e) = if is_expired now e then none else some (e.value, e.version)

-- Get returns the value and version of the key's entry if there is one that has not expired.
pub get_reply :
    (now later : ℕ) (key : Bytes) (s : Store)
    → (get now later key s).1 ≡ visible now (entry_of s key)
unfolding get entry_of
get_reply now later key s = ground arith

-- The clock moves on: what has expired stays expired.
is_expired_mono :
    (e : Entry) (now later : ℕ) → now ≤ later → is_expired now e ≡ true → is_expired later e ≡ true
unfolding is_expired passed
is_expired_mono e now later h old = ground arith

-- What the check under the write lock leaves of an entry.
abbrev pub reaped : ℕ → Option Entry → Option Entry
reaped now none = none
reaped now (some e) = if is_expired now e then none else some e

visible-reaped :
    (later t : ℕ) (o : Option Entry) → later ≤ t → visible t (reaped later o) ≡ visible t o
visible-reaped later t none le = refl
visible-reaped later t (some e) le = ground (arith, is_expired_mono e later t)

module _ (s : Store) (number : length s.shards ≡ 32) (key : Bytes) where
  -- The removal under the write lock takes the key's entry away exactly if it has expired by then.
  pub entry_of-reap_key :
      (now : ℕ) (j : Bytes)
      → entry_of (reap_key now key s) j
        ≡ (if key == j then reaped now (entry_of s key) else entry_of s j)
  unfolding reap_key entry_of set_shard get_shard
  entry_of-reap_key now j = elim (Option-cases (lookup key (get_shard s key))) [
    | inl absent ↦ rw (absent, reap_key) (unchanged_at s number key j absent)
    | inr (c, present) ↦
        rw (present, reap_key)
          (elim (Bool-cases (is_expired now c)) [
            | inl old ↦ rw old (entry_of-delete s number key j)
            | inr live ↦ rw live (unchanged_at s number key j present)
          ])
  ]

  visible-reap_key :
      (later t : ℕ) (j : Bytes)
      → later ≤ t
      → visible t (entry_of (reap_key later key s) j) ≡ visible t (entry_of s j)
  visible-reap_key later t j le = rw (entry_of-reap_key later j) (elim (Bool-cases (key == j)) [
    | inl same ↦
        rw same (rw (← (bytes_beq_iff key j).0 same) (visible-reaped later t (entry_of s key) le))
    | inr other ↦ rw other
  ])

  -- A Get at one time changes no reply of a later Get, of its own key or of another: the entry that
  -- it may remove would have been expired for those too.
  pub visible-get :
      (now later t : ℕ) (j : Bytes)
      → later ≤ t
      → visible t (entry_of (get now later key s).0 j) ≡ visible t (entry_of s j)
  unfolding get
  visible-get now later t j le = elim (Option-cases (lookup key (get_shard s key))) [
    | inl absent ↦ rw (absent, get)
    | inr (c, present) ↦
        rw (present, get)
          (elim (Bool-cases (is_expired now c)) [
            | inl old ↦ rw old (visible-reap_key later t j le)
            | inr live ↦ rw live
          ])
  ]
