-- ===== src/Store/Entry.antt =====
-- internal/store/entry.go: the value that the store keeps for a key.
use high_performance_kv_stor.Prelude.{ℕ, Bool, false, ltb, Bytes}

-- A Go time.Time: the zero time, or an instant in nanoseconds after the Unix epoch.
pub data Time : Type 0 where
  zero_time : Time
  instant : ℕ → Time

pub record Entry : Type 0 where
  pub value : Bytes
  pub version : ℕ
  pub expires_at : Time

-- `!t.IsZero() && now.After(t)`, the test that `IsExpired`, `Scan`, `reap` and `CreateSnapshot` make.
unfoldable pub passed : ℕ → Time → Bool
passed now zero_time = false
passed now (instant t) = ltb t now

-- `now` is what time.Now() returns, in nanoseconds.
unfoldable pub is_expired : ℕ → Entry → Bool
unfolding passed
is_expired now e = passed now e.expires_at
