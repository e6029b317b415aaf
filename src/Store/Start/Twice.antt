-- ===== src/Store/Start/Twice.antt =====
-- Replaying a log onto the map that it has led to (cmd/server/main.go), which is what a restart does
-- after CreateSnapshot of internal/store/snapshot.go has replaced the snapshot and not emptied the
-- log.
use high_performance_kv_stor.Prelude.{
  ℕ, suc, ◌≤◌, ◌<◌, ◌≡◌, refl, ap, List, [], ◌∷◌, Option, none, some, arith, Bytes, bytes_eq,
  bytes_beq_iff, ◌==◌, false, ltb, if◌then◌else◌, Bool-cases, inl, inr,
}
use high_performance_kv_stor.Store.Entry.{Entry}
use high_performance_kv_stor.Store.State.Writes.{merge, survivor}
use high_performance_kv_stor.Store.Recovery.Durable.{
  Mutation, put, remove, lasting, Map, change, change_all,
}

-- One above the version, and 0 for no entry.
abbrev height : Option Entry → ℕ
height none = 0
height (some e) = suc e.version

-- Two replays of one log, from `a` and from `b`, where the first ends at `m` and the second began
-- there: they have met, or the second has not moved, or the first is above both.
data Together (m a b : Option Entry) : Type 0 where
  met : a ≡ b → Together m a b
  unmoved : b ≡ m → Together m a b
  above : height b ≤ height a → height m < height a → Together m a b

-- What both kinds of write do to the entry of their key.
abbrev land : ℕ → Option Entry → Option Entry → Option Entry
land version x o = if ltb (suc version) (height o) then o else x

merge-land : (e : Entry) (o : Option Entry) → some (merge o e) ≡ land e.version (some e) o
merge-land e none = ground arith
merge-land e (some c) = ground arith

survivor-land : (version : ℕ) (o : Option Entry) → survivor o version ≡ land version none o
survivor-land version none = ground arith
survivor-land version (some c) = ground arith

land-Together :
    (version : ℕ) (x m a b : Option Entry)
    → height x ≤ suc version
    → Together m a b
    → Together m (land version x a) (land version x b)
land-Together version x m a b low (met h) = met (ap (land version x) h)
land-Together version x m a b low (unmoved h) = elim (Bool-cases (ltb (suc version) (height b))) [
  | inl kept ↦ unmoved (rw kept h)
  | inr taken ↦ elim (Bool-cases (ltb (suc version) (height a))) [
    | inl passed_over ↦ above (ground arith) (ground (arith, ap height h))
    | inr both ↦ met (rw (taken, both) refl)
  ]
]
land-Together version x m a b low (above h k) = elim (Bool-cases (ltb (suc version) (height a))) [
  | inl passed_over ↦ above (ground arith) (ground arith)
  | inr both ↦
      let taken : ltb (suc version) (height b) ≡ false = ground arith in met (rw (taken, both) refl)
]

change-Together :
    (c : Mutation) (m : Option Entry) (a b : Map) (j : Bytes)
    → Together m (a j) (b j)
    → Together m (change c a j) (change c b j)
change-Together (put key value version) m a b j t =
    let e = lasting value version in
    elim (Bool-cases (key == j)) [
      | inl same ↦
          let at : key ≡ j = (bytes_beq_iff key j).0 same in
          rw (same, at)
            (rw (merge-land e (a j), merge-land e (b j))
              (land-Together version (some e) m (a j) (b j) (omega arith) t))
      | inr other ↦ rw other t
    ]
change-Together (remove key version) m a b j t = elim (Bool-cases (key == j)) [
  | inl same ↦
      let at : key ≡ j = (bytes_beq_iff key j).0 same in
      rw (same, at)
        (rw (survivor-land version (a j), survivor-land version (b j))
          (land-Together version none m (a j) (b j) (omega arith) t))
  | inr other ↦ rw other t
]

change_all-Together :
    (cs : List Mutation) (m : Option Entry) (a b : Map) (j : Bytes)
    → Together m (a j) (b j)
    → Together m (change_all cs a j) (change_all cs b j)
change_all-Together [] m a b j t = t
change_all-Together (c ∷ cs) m a b j t =
    change_all-Together cs m (change c a) (change c b) j (change-Together c m a b j t)

Together-at_end : (m a b : Option Entry) → a ≡ m → Together m a b → b ≡ m
Together-at_end m a b h (met same) = cc (same, h)
Together-at_end m a b h (unmoved stays) = stays
Together-at_end m a b h (above low high) = absurd (omega (arith, high, ap height h))

-- The writes of a log, replayed in order onto the map that they have led to, leave that map as it
-- is: the snapshot may hold the writes already that are still in the log.
pub change_all-twice :
    (cs : List Mutation) (m : Map) (j : Bytes)
    → change_all cs (change_all cs m) j ≡ change_all cs m j
change_all-twice cs m j =
    Together-at_end (change_all cs m j) (change_all cs m j) (change_all cs (change_all cs m) j) refl
      (change_all-Together cs (change_all cs m j) m (change_all cs m) j (unmoved refl))
