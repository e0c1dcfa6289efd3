-- ===== src/TextToSpeech.antt =====
-- web/src/modules/text-to-speech, with the action that signs the address of a generation
-- (web/src/actions/generations.ts).
pub mod Form
pub mod Generations
pub mod Pages
pub mod Selector
pub mod Estimate
pub mod Download
pub mod Wave
pub mod Settings
pub mod CacheSize
