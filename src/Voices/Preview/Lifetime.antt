-- ===== src/Voices/Preview/Lifetime.antt =====
-- Which object URLs of a preview are live at any time
-- (web/src/modules/voices/components/voice-audio-preview.tsx).
use go_grpc_microservices.Prelude.{
  ℕ, ◌≡◌, ◌<◌, inl, inr, Option-cases, subst, sym, String, true, false, Option, none, some, List,
  [], ◌∷◌, arith,
}
use go_grpc_microservices.Async.{resolved, Settled-cases}
use go_grpc_microservices.ObjectStore.{ObjectStore}
use go_grpc_microservices.AudioCache.Entry.{Blob, entry_key, entry_voice_id}
use go_grpc_microservices.AudioFetch.{ObjectUrl}
use go_grpc_microservices.Voices.Playback.{QueryClient}
use go_grpc_microservices.Voices.Preview.{
  Answers, Preview, revoke_object_url, load, begin_load, adopt, finish_load, played_settles, leave,
}
use go_grpc_microservices.Voices.Preview.Urls.{load_outcome}

module _ (blobs : ObjectStore entry_key) (keys : ObjectStore entry_voice_id)
    (client : QueryClient) where
  -- One thing that happens to a preview. It is left only when no click waits for an address.
  pub data Step (s : Preview blobs keys) : Preview blobs keys → Type 0 where
    clicks : Step s (begin_load blobs keys client s)
    loads :
        (a : Answers) (voice_id : String)
        → s.is_fetching ≡ true
        → Step s (finish_load blobs keys client a voice_id s)
    settles :
        s.is_fetching ≡ false
        → s.is_loading_audio ≡ true
        → Step s (played_settles blobs keys client s)
    leaves : s.is_fetching ≡ false → Step s (leave blobs keys client s)

  pub data Reach (s : Preview blobs keys) : Preview blobs keys → Type 0 where
    here : Reach s s
    and_then : {t u : Preview blobs keys} → Reach s t → Step t u → Reach s u

  -- The object URLs are what the ref names.
  abbrev pub Holds : Option ℕ → List ObjectUrl → Type 0
  Holds none us = us ≡ []
  Holds (some id) us = (blob : Blob) × (us ≡ record { id = id; blob = blob } ∷ [])

  abbrev IsOlder : Option ℕ → ℕ → Type 0
  IsOlder none n = Unit
  IsOlder (some id) n = id < n

  pub record Inv (s : Preview blobs keys) : Type 0 where
    pub holds : Holds s.object_url s.page.urls
    pub older : IsOlder s.object_url s.page.next_url
    pub busy : s.is_fetching ≡ true → s.is_loading_audio ≡ true

  -- A preview that was just shown, on a page without object URLs.
  pub record IsFresh (s : Preview blobs keys) : Type 0 where
    pub no_urls : s.page.urls ≡ []
    pub no_ref : s.object_url ≡ none
    pub idle : s.is_fetching ≡ false

  fresh-Inv : {s : Preview blobs keys} → IsFresh s → Inv s
  fresh-Inv f = ground arith

  leave-Inv : {s : Preview blobs keys} → Inv s → Inv (leave blobs keys client s)
  unfolding leave revoke_object_url
  leave-Inv {s} v = elim (Option-cases s.object_url) [
    | inl e ↦ ground arith
    | inr (id, e) ↦ ground arith
  ]

  -- The new address replaces the one before it.
  adopt-Holds :
      (id : ℕ) (blob : Blob) (old : Option ℕ) (us : List ObjectUrl) (s : Preview blobs keys)
      → s.object_url ≡ old
      → Holds old us
      → IsOlder old id
      → s.page.urls ≡ record { id = id; blob = blob } ∷ us
      → (adopt blobs keys client id s).page.urls ≡ record { id = id; blob = blob } ∷ []
  unfolding adopt revoke_object_url
  adopt-Holds id blob none us s e h o u = ground arith
  adopt-Holds id blob (some old) us s e h o u = ground arith

  -- What adopting an address leaves.
  adopt_lem :
      (id : ℕ) (s : Preview blobs keys)
      → let t = adopt blobs keys client id s in
        (t.object_url ≡ some id)
        × (t.is_fetching ≡ false)
        × (t.page.next_url ≡ s.page.next_url)
        × (t.played ≡ id ∷ s.played)
  unfolding adopt revoke_object_url
  adopt_lem id s = ground arith

  Inv-of_held :
      (t : Preview blobs keys) (id : ℕ) (blob : Blob)
      → t.object_url ≡ some id
      → t.page.urls ≡ record { id = id; blob = blob } ∷ []
      → id < t.page.next_url
      → t.is_fetching ≡ false
      → Inv t
  Inv-of_held t id blob e u n w = record { holds = rw e (blob, u); older = rw e n; busy = λ h. cc }

  -- Loading that resolves ends with the address adopted.
  pub finish_resolved :
      (a : Answers) (voice_id : String) (s : Preview blobs keys) (id : ℕ)
      → (load blobs keys client a voice_id s).0 ≡ resolved id
      → finish_load blobs keys client a voice_id s
        ≡ adopt blobs keys client id (load blobs keys client a voice_id s).1
  unfolding finish_load
  finish_resolved a voice_id s id e = ground arith

  finish-Inv :
      (a : Answers) (voice_id : String) {s : Preview blobs keys}
      → Inv s
      → Inv (finish_load blobs keys client a voice_id s)
  unfolding finish_load
  finish-Inv a voice_id {s} v =
      let r = load blobs keys client a voice_id s in
      let (outcome, kept) = load_outcome blobs keys client a voice_id s in
      elim outcome [
        | inl (f, u) ↦ elim (Settled-cases r.0) [ inl (url, e) ↦ cc | inr (m, e) ↦ ground arith ]
        | inr (f, (blob, u, n)) ↦
            let id = s.page.next_url in
            let held = adopt-Holds id blob s.object_url s.page.urls r.1 kept.0 v.holds v.older u in
            let left = adopt_lem id r.1 in
            subst Inv (sym (finish_resolved a voice_id s id f)) (
              Inv-of_held (adopt blobs keys client id r.1) id blob left.0 held (omega arith) left.1)
      ]

  Step-Inv : {s t : Preview blobs keys} → Step s t → Inv s → Inv t
  unfolding begin_load played_settles
  Step-Inv clicks v = ground arith
  Step-Inv (loads a voice_id w) v = finish-Inv a voice_id v
  Step-Inv (settles w l) v = ground arith
  Step-Inv (leaves w) v = leave-Inv v

  pub Reach-Inv : {s t : Preview blobs keys} → IsFresh s → Reach s t → Inv t
  Reach-Inv f here = fresh-Inv f
  Reach-Inv f (and_then r st) = Step-Inv st (Reach-Inv f r)

  left_empty : {s : Preview blobs keys} → Inv s → (leave blobs keys client s).page.urls ≡ []
  unfolding leave revoke_object_url
  left_empty {s} v = elim (Option-cases s.object_url) [
    | inl e ↦ ground arith
    | inr (id, e) ↦ ground arith
  ]

  -- A preview keeps no audio alive that it does not name: from a fresh preview on a page without
  -- object URLs, however often it is clicked, whatever its calls are answered and however playing
  -- ends, if it is left only when no click waits for an address, the live object URLs are just the
  -- one that `objectUrlRef` names, if it names one, and none after it is left.
  pub live_urls :
      (s : Preview blobs keys) {t : Preview blobs keys}
      → IsFresh s
      → Reach s t
      → Holds t.object_url t.page.urls × ((leave blobs keys client t).page.urls ≡ [])
  live_urls s f r = let v = Reach-Inv f r in (v.holds, left_empty v)

  -- Audio that arrives after the component has gone is kept alive and played: if a fresh preview
  -- is left while a click waits for an address, no object URL is live then, and if the loading
  -- resolves afterwards, its object URL is live, though the cleanup has run, and the player is
  -- told to play it.
  late_load_leaks :
      (s : Preview blobs keys) {t : Preview blobs keys} (a : Answers) (voice_id : String) (id : ℕ)
      → IsFresh s
      → Reach s t
      → t.is_fetching ≡ true
      → (load blobs keys client a voice_id (leave blobs keys client t)).0 ≡ resolved id
      → let gone = leave blobs keys client t in
        let u = finish_load blobs keys client a voice_id gone in
        (gone.page.urls ≡ [])
        × ((blob : Blob) × (u.page.urls ≡ record { id = id; blob = blob } ∷ []))
        × (u.played ≡ id ∷ gone.played)
  late_load_leaks s {t} a voice_id id f reach busy e =
      let gone = leave blobs keys client t in
      let v = leave-Inv (Reach-Inv f reach) in
      let r = load blobs keys client a voice_id gone in
      let (outcome, kept) = load_outcome blobs keys client a voice_id gone in
      let empty = left_empty (Reach-Inv f reach) in
      elim outcome [
        | inl (g, u) ↦ cc
        | inr (g, (blob, u, n)) ↦
            let same : id ≡ gone.page.next_url = ground arith in
            let held =
              adopt-Holds gone.page.next_url blob gone.object_url gone.page.urls r.1 kept.0 v.holds
                v.older u in
            let left = adopt_lem id r.1 in
            rw (finish_resolved a voice_id gone id e) (empty, (blob, cc), cc)
      ]
