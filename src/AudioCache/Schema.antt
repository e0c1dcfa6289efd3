-- ===== src/AudioCache/Schema.antt =====
-- `initDB` of web/src/lib/audio-cache.ts: what the upgrade handler makes of the stores and indexes
-- that an older version of the page left.
use go_grpc_microservices.Prelude.{
  ℕ, ◌≤◌, ◌≡◌, Bool, true, Option, none, some, inl, inr, arith, ltb, if◌then◌else◌, Option-cases,
}

-- The indexes of the store `audioBlobs`.
pub record Indexes : Type 0 where
  pub timestamp : Bool
  pub last_accessed : Bool

pub record Schema : Type 0 where
  -- `audioBlobs`, if it exists
  pub audio_blobs : Option Indexes
  -- whether `voiceProviderKeys` exists
  pub voice_provider_keys : Bool

abbrev pub db_version : ℕ
db_version = 3

-- The first two steps: each store that is missing is created.
create_stores : Schema → Schema
create_stores s = record {
  audio_blobs = elim s.audio_blobs [
    | none ↦ some (record { timestamp = true; last_accessed = true })
    | some indexes ↦ some indexes
  ];
  voice_provider_keys = true;
}

-- `previousVersion < 2`: the second index of a store that has only the first.
add_index : Schema → Schema
add_index s = record s {
  audio_blobs = elim s.audio_blobs [
    | none ↦ none
    | some indexes ↦ some (record indexes { last_accessed = true })
  ];
}

-- `request.onupgradeneeded`
unfoldable pub upgrade : ℕ → Schema → Schema
unfolding create_stores add_index
upgrade previous s =
    let created = create_stores s in
    let indexed = if ltb previous 2 then add_index created else created in
    if ltb previous 3 then record indexed { voice_provider_keys = true } else indexed

-- What older versions of the page may have left behind: an audio store, if there is one, has the
-- index on `timestamp`, and since version 2 the one on `lastAccessed`.
abbrev pub LeftBy : ℕ → Schema → Type 0
LeftBy version s =
    (indexes : Indexes)
    → s.audio_blobs ≡ some indexes
    → (indexes.timestamp ≡ true) × (2 ≤ version → indexes.last_accessed ≡ true)

-- All that the rest of the module opens transactions and indexes on.
abbrev pub complete : Schema
complete = record {
  audio_blobs = some (record { timestamp = true; last_accessed = true });
  voice_provider_keys = true;
}

-- Whatever version of the page left the database, the upgrade handler makes it complete: both
-- stores exist, and the audio store has both indexes. What is taken of the older version is that
-- an audio store, if there is one, has the index on the time of writing, and from version 2 on
-- the one on the time of reading.
pub upgrade-complete : (version : ℕ) (s : Schema) → LeftBy version s → upgrade version s ≡ complete
unfolding upgrade
upgrade-complete version s h = elim (Option-cases s.audio_blobs) [
  | inl e ↦ ground arith
  | inr (indexes, e) ↦ ground (arith, h indexes e)
]
