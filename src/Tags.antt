-- ===== src/Tags.antt =====
-- Tags: the synchronisation with AWS (pkg/tags/sync.go) and the conversion to the runtime's maps
-- (pkg/resource/certificate/tags.go).
pub mod Sync
pub mod Ack
