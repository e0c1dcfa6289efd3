-- ===== src/AudioCache.antt =====
-- web/src/lib/audio-cache.ts: the audio cache in the browser's IndexedDB.
pub mod Schema
pub mod Entry
pub mod Eviction
pub mod Session
pub mod LossyMap
pub mod Refinement
