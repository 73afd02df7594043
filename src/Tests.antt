-- ===== src/Tests.antt =====
-- Runs of the models on small inputs, and the theorems applied there.
mod Codec
mod Blob
mod Cache
mod Request
mod Config
mod ImageIo
mod Inflight
mod Disk
mod Direct
mod Materialize
mod Router
mod Upload
mod R2
mod Admin
mod Response
mod OpenaiImage
mod Rewrite
mod Output
