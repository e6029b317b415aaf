-- ===== src/Api/Stale.antt =====
-- A PUT on a node whose clock is behind the key's entry (internal/api/handlers.go): what it answers,
-- what it sends, and what its peers make of that.
use high_performance_kv_stor.Prelude.{◌≡◌, ◌≢◌, some, Bytes, bytes_eq}
use high_performance_kv_stor.Store.Entry.{Entry}
use high_performance_kv_stor.Store.State.{entry_of}
use high_performance_kv_stor.Api.{Node}

-- Entries of one version that hold different values.
pub record IsSplit (key : Bytes) (node peer : Node) : Type 0 where
  pub here : Entry
  pub there : Entry
  pub stored_here : entry_of node.store key ≡ some here
  pub stored_there : entry_of peer.store key ≡ some there
  pub same_version : here.version ≡ there.version
  pub other_value : here.value ≢ there.value
