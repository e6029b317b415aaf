-- ===== src/Store/State/Versions.antt =====
-- NextVersion of internal/store/store.go, and a local Set whose version loses.
use Prim.Native.Nat.{max}
use high_performance_kv_stor.Prelude.{
  ℕ, ◌+◌, ◌^◌, ◌≤◌, ◌<◌, ◌≡◌, sym, ap, ◌∙◌, lt→ltb, List, [], ◌∷◌, some, arith, length, Bytes,
  bytes_eq, ◌==◌, All, if◌then◌else◌,
}
use high_performance_kv_stor.Prelude.Int.{ℤ}
use high_performance_kv_stor.Store.Entry.{Entry}
use high_performance_kv_stor.Store.Wal.{Disk}
use high_performance_kv_stor.Store.State.{
  Store, Times, next_version, choose_version, entry_of, set, ok,
}
use high_performance_kv_stor.Store.State.Writes.{merge, unchanged_at}
use high_performance_kv_stor.Store.State.Effects.{set_effect, offered}

-- A version that NextVersion draws is above every one that it drew before and at least the clock's
-- reading, and it is what the store keeps as the last version, whatever the clock does between
-- calls; this holds as long as the uint64 counter does not wrap around.
pub next_version_grows :
    (now : ℕ) (s : Store)
    → now < 2 ^ 64
    → s.last_version + 1 < 2 ^ 64
    → (s.last_version < (next_version now s).1)
      × (now ≤ (next_version now s).1)
      × ((next_version now s).0.last_version ≡ (next_version now s).1)
unfolding next_version
next_version_grows now s h k = ground arith

next_version-le :
    (now : ℕ) (s : Store)
    → now < 2 ^ 64
    → s.last_version + 1 < 2 ^ 64
    → (next_version now s).1 ≤ max now (s.last_version + 1)
unfolding next_version
next_version-le now s h k = ground arith

-- A run of NextVersion at these readings of the clock.
abbrev pub draw : List ℕ → Store → List ℕ
draw [] s = []
draw (now ∷ clock) s = (next_version now s).1 ∷ draw clock (next_version now s).0

-- Above `low`, and each above the one before it.
abbrev pub IsIncreasing : ℕ → List ℕ → Type 0
IsIncreasing low [] = Unit
IsIncreasing low (v ∷ vs) = (low < v) × IsIncreasing v vs

-- The versions of a run are strictly increasing from the last version of the store, also where the
-- clock stands still or goes back, as long as its readings fit an int64 and the run is too short
-- to exhaust the uint64 counter.
pub draw-IsIncreasing :
    (clock : List ℕ) (s : Store)
    → All (λ now. now < 2 ^ 63) clock
    → length clock ≤ 2 ^ 63
    → s.last_version + length clock < 2 ^ 64
    → IsIncreasing s.last_version (draw clock s)
draw-IsIncreasing [] s fits short room = tt
draw-IsIncreasing (now ∷ clock) s fits short room =
    let (above, reading, kept) = next_version_grows now s (omega arith) (omega arith) in
    (
      above,
      rw (← kept) (
          draw-IsIncreasing clock (next_version now s).0 fits.1 (omega arith)
            (rw kept (omega (arith, next_version-le now s)))),
    )

pub drawn_version-lt :
    (now : Times) (s : Store) (c : Entry)
    → now.for_version < c.version
    → s.last_version + 1 < c.version
    → c.version < 2 ^ 64
    → (choose_version now.for_version 0 s).1 < c.version
unfolding choose_version next_version
drawn_version-lt now s c behind drawn fits = ground arith

-- A local Set draws its version from the clock and the last version that the store itself drew, so
-- an entry of a higher version (from a peer, or read back from the log) beats it: the value is not
-- stored, no key changes, and the call returns that entry's version without an error.
pub set_local_stale :
    (disk : Disk) (now : Times) (key value : Bytes) (ttl : ℤ) (s : Store) (c : Entry) (n : ℕ)
    → length s.shards ≡ 32
    → entry_of s key ≡ some c
    → now.for_version < c.version
    → s.last_version + 1 < c.version
    → c.version < 2 ^ 64
    → (set disk now key value ttl 0 s).1 ≡ ok n
    → (n ≡ c.version) × ((j : Bytes) → entry_of (set disk now key value ttl 0 s).0 j ≡ entry_of s j)
set_local_stale disk now key value ttl s c n number present behind drawn fits h =
    let e = offered now value ttl 0 s in
    let (version, entries) = set_effect disk now key value ttl 0 s n number h in
    let loses : merge (entry_of s key) e ≡ c =
      rw present (rw (lt→ltb e.version c.version (drawn_version-lt now s c behind drawn fits))) in
    (
      version ∙ ap (λ x. x.version) loses,
      λ j.
          entries j
          ∙ ap (λ x. if key == j then some x else entry_of s j) loses
          ∙ sym (unchanged_at s number key j present),
    )
