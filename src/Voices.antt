-- ===== src/Voices.antt =====
-- web/src/modules/voices: the mutations of the voice library, its categories, the lookup of a
-- voice's playback address, the card of a voice and the form for a new one.
pub mod Mutations
pub mod Categories
pub mod Playback
pub mod Language
pub mod Preview
pub mod Card
pub mod CreateForm
