-- ===== src/Cache.antt =====
-- rust-sync-proxy/src/cache.rs: the data of the image cache.
pub mod Lru
pub mod Memory
pub mod Disk
pub mod Lookup
pub mod Direct
pub mod Service
pub mod Inflight
use gemini_worker_go.Prelude.{ℕ, Bool, length}
use gemini_worker_go.Text.{Text}
use gemini_worker_go.Files.{Bytes}

pub record CachedInlineData : Type 0 where
  pub mime_type : Text
  pub bytes : Bytes

pub record FetchResult : Type 0 where
  pub mime_type : Text
  pub bytes : Bytes
  pub from_cache : Bool

pub record MemoryEntry : Type 0 where
  pub mime_type : Text
  pub bytes : Bytes
  pub size : ℕ
