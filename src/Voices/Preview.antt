-- ===== src/Voices/Preview.antt =====
-- The preview of a voice's audio, web/src/modules/voices/components/voice-audio-preview.tsx: where
-- the audio comes from, and how long its object URL lives. The player is modelled in
-- `AudioPlayer`; what it is told to play is a list here.
pub mod Offline
pub mod Urls
pub mod Lifetime
use go_grpc_microservices.Prelude.{
  ℕ, String, Bool, true, false, not, ◌&&◌, Option, none, some, List, [], ◌∷◌, nat_eq, if◌then◌else◌,
}
use go_grpc_microservices.Async.{Settled, resolved, rejected, Async, resolve, ◌>>=◌, ◌>>◌}
use go_grpc_microservices.Text.{is_empty, absent, trim}
use go_grpc_microservices.ObjectStore.{ObjectStore}
use go_grpc_microservices.AudioCache.Entry.{entry_key, entry_voice_id}
use go_grpc_microservices.AudioCache.Session.{
  Browser, get_voice_provider_key, set_voice_provider_key,
}
use go_grpc_microservices.AudioFetch.{
  FetchReply, ObjectUrl, Page, on_session, fetch_audio_with_cache, get_cached_audio_object_url,
}
use go_grpc_microservices.Voices.Mutations.{text_or}
use go_grpc_microservices.Voices.Playback.{
  VoicePlaybackResult, Query, QueryClient, get_voice_playback,
}

-- What the browser, the voice service and the network answer while one preview is loaded.
pub record Answers : Type 0 where
  pub key_read : Browser
  pub cached_read : Browser
  pub now : ℕ
  pub playback : Option VoicePlaybackResult
  pub key_write : Browser
  pub audio_read : Browser
  pub audio_write : Browser
  pub reply : FetchReply

-- What `handlePlayPause` does first.
pub data Action : Type 0 where
  pause : Action
  resume : Action
  play_src : String → Action
  load_audio : Action

-- `handlePlayPause`, up to its first call: whether the item is active, and whether it plays.
unfoldable pub handle_play_pause : Bool → Bool → Option String → Action
handle_play_pause is_active is_playing src =
    if is_active
    then if is_playing then pause else resume
    else if absent src
    then load_audio
    else play_src (text_or src "")

-- `itemId?.trim() || voiceId`
unfoldable pub player_item_id : Option String → String → String
player_item_id item_id voice_id =
    if is_empty (trim (text_or item_id "")) then voice_id else trim (text_or item_id "")

abbrev drop_url : ℕ → List ObjectUrl → List ObjectUrl
drop_url id [] = []
drop_url id (u ∷ us) = let rest = drop_url id us in if nat_eq u.id id then rest else u ∷ rest

module _ (blobs : ObjectStore entry_key) (keys : ObjectStore entry_voice_id) where
  -- The component with the page around it.
  pub record Preview : Type 0 where
    pub page : Page blobs keys
    -- what the query client has for the voice
    pub query : Option Query
    -- `objectUrlRef`
    pub object_url : Option ℕ
    pub is_loading_audio : Bool
    -- whether a click waits for an address
    pub is_fetching : Bool
    -- the object URLs that the player was told to play, newest first
    pub played : List ℕ

  abbrev on_page : {A : Type 0} → Async (Page blobs keys) A → Async Preview A
  on_page m s = ((m s.page).0, record s { page = (m s.page).1 })

  -- `URL.revokeObjectURL`
  unfoldable pub revoke_object_url : ℕ → Preview → Preview
  revoke_object_url id s = record s { page = record s.page { urls = drop_url id s.page.urls } }

  -- `if (persistedProviderKey) … getCachedAudioObjectUrl(persistedProviderKey)`
  unfoldable pub cached_only : Answers → Option String → Async Preview (Option ℕ)
  cached_only a key =
      if absent key
      then resolve none
      else on_page (get_cached_audio_object_url blobs keys a.cached_read (text_or key ""))

  module _ (client : QueryClient) where
    -- `getVoicePlayback(queryClient, voiceId)`
    unfoldable pub look_up : Answers → Async Preview VoicePlaybackResult
    look_up a s =
        let r = get_voice_playback client a.now a.playback s.query in
        (r.0, record s { query = r.1 })

    -- The voice is looked up, its provider key is kept, and its audio is fetched.
    unfoldable pub fetch_new : Answers → String → Async Preview ℕ
    unfolding look_up
    fetch_new a voice_id = look_up a >>= (λ playback.
        on_page (
          on_session blobs keys
            (set_voice_provider_key blobs keys a.key_write voice_id playback.provider_key))
        >> on_page (
            fetch_audio_with_cache blobs keys a.audio_read a.audio_write a.reply (some playback.url)
              playback.provider_key))

    -- The calls of the `try` up to the address that is played
    unfoldable pub load : Answers → String → Async Preview ℕ
    unfolding cached_only fetch_new
    load a voice_id =
        on_page (on_session blobs keys (get_voice_provider_key blobs keys a.key_read voice_id))
        >>= (λ persisted.
            cached_only a persisted
            >>= (λ cached. elim cached [ some url ↦ resolve url | none ↦ fetch_new a voice_id ]))

    -- A click on the button, which is disabled while audio is loaded, for an item without `src`
    -- that is not active.
    unfoldable pub begin_load : Preview → Preview
    begin_load s =
        if s.is_loading_audio then s else record s { is_loading_audio = true; is_fetching = true }

    -- `if (objectUrlRef.current && objectUrlRef.current !== src) revoke; objectUrlRef.current = src`
    unfoldable pub adopt : ℕ → Preview → Preview
    unfolding revoke_object_url
    adopt url s =
        let t : Preview = elim s.object_url [
          | none ↦ s
          | some old ↦ if nat_eq old url then s else revoke_object_url old s
        ] in
        record t { object_url = some url; is_fetching = false; played = url ∷ t.played }

    -- The loading ends: the address is adopted and played, or the `catch` and the `finally` run.
    unfoldable pub finish_load : Answers → String → Preview → Preview
    finish_load a voice_id s = elim (load a voice_id s).0 [
      | resolved url ↦ adopt url (load a voice_id s).1
      | rejected e ↦ record (load a voice_id s).1 { is_loading_audio = false; is_fetching = false }
    ]

    -- `await player.play(…)` settles, either way.
    unfoldable pub played_settles : Preview → Preview
    played_settles s = record s { is_loading_audio = false }

    -- The cleanup of the effect: the component goes, or shows another item.
    unfoldable pub leave : Preview → Preview
    unfolding revoke_object_url
    leave s = elim s.object_url [
      | none ↦ s
      | some url ↦ record (revoke_object_url url s) { object_url = none }
    ]
