-- ===== src/Tests.antt =====
-- The theorems of the library at concrete inputs.
mod Cache
mod Sessions
mod Library
mod Mobile
mod Language
mod Frames
mod Voicing
mod Store
mod Format
mod Player
mod Recording
mod Speech
mod Refinement
mod Wave
mod Settings
mod Queries
mod Preview
mod Playback
mod SignIn
