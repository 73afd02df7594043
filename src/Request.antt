-- ===== src/Request.antt =====
-- The requests of rust-sync-proxy: the scan for image URLs, the pointers that it gives them, and the
-- encoder that puts the fetched images in their places.
pub mod Scan
pub mod Pointer
pub mod Codec
pub mod Encode
pub mod Rewrite
