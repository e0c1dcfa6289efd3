-- ===== src/Lib.antt =====
-- The web client of the repository (web/src, in TypeScript) and the part of its server that runs
-- in Next.js. The Go services behind it are reached over RPC: what they answer is an input here.
--
-- The program's parts, and where they are modelled:
--
--   AudioCache (web/src/lib/audio-cache.ts). The browser's cache of generated audio and of the
--   voices' provider keys, in two IndexedDB object stores. `AudioCache.Schema` is the upgrade of
--   older databases (`initDB`), `Entry` the records with `normalizeEntrySize` and the eviction
--   order, `Eviction` is `enforceCacheCap`, and `Session` has the exported functions as functions
--   of the page's state, `Session`: the variable `dbInstance`, the database's version and schema,
--   and the contents of the stores. The browser's answers during one call are the record
--   `Browser`. An object store is the interface `ObjectStore.ObjectStore`, a parameter.
--   `LossyMap` is an abstract map that the cache is compared with in `Refinement`.
--
--   ServerJwt (web/src/lib/server-jwt.ts). `Keys` is the cache of the keys that the auth service
--   publishes (`resolveRefreshTokenJwk`, `refreshJwksCache`, `pruneExpiredJwksEntries`), `Validate`
--   is `validateRefreshToken`. The library jose is the record `Jose`, the reply to the request for
--   the keys is `JwksReply`, and `others` is what other requests make of the shared cache while
--   one waits for that reply. A call reads the clock once here, where the code reads it up to
--   three times within the call.
--
--   ServerAuth (web/src/lib/server-auth.ts, web/src/lib/auth-cookie.ts, web/src/proxy.ts,
--   web/src/app/page.tsx). The guards of the pages and of the routes, over `ServerJwt`.
--
--   S3 (web/src/lib/s3.ts). The commands for the object store of the audio and the signing of
--   addresses; the AWS library is a parameter. `Signing` is about what the action of
--   web/src/actions/generations.ts hands out.
--
--   TokenStore (web/src/lib/token-store.ts). The access token in the browser. The state has the
--   variables of the module and, of the world around it, the armed timeouts, the calls that have
--   not settled and the listeners called. What happens is an `Event`; `step` handles one.
--
--   AuthActions (web/src/actions/auth.ts). The server actions. The state has the map of refreshes
--   under way, the calls that the service has not answered, and the cookies of each request; a
--   refresh is two steps, `refresh_start` up to the call and `refresh_finish` from its answer, so
--   that requests interleave in any order.
--
--   SignIn (web/src/modules/auth/components, web/src/lib/auth-context.tsx,
--   web/src/hooks/use-logout.ts and `handleLogout` of web/src/components/user-button.tsx). The
--   forms that log in and register, the log-out, and the provider that restores a session, over
--   `TokenStore`. The check of an e-mail address is a parameter; what the service and the server
--   actions answer are inputs.
--
--   AudioFetch (web/src/lib/audio-fetch.ts). Audio comes from the cache or the network and gets an
--   address on the page. The page's state is the cache's session, the addresses made and what they
--   stand for, and the requests made; the reply of the network is an input.
--
--   AudioPlayer (web/src/components/ui/audio-player.tsx). `Media.Media` is the interface of the
--   media element; its instance in the tests is a concrete element. `AudioPlayer` has the provider
--   as steps: a call that awaits is suspended, and goes on in a step of its own, in any order.
--   `Controls` has the buttons and the progress bar, and `Speeds` the menu of speeds.
--   `AnimationFrame` has the loop that follows the element (`useAnimationFrame`), with the frames
--   that the browser has scheduled.
--
--   AudioPlayback (web/src/hooks/use-audio-playback.ts). The hook that plays one recording or file,
--   with all audio elements and object URLs that it has made, as steps.
--
--   Recorder (web/src/hooks/use-audio-recorder.ts and
--   web/src/modules/voices/components/voice-recorder.tsx). Each ref is a `Slot`: what it names, and
--   all that is live of the kind. The stream, the timer and so on get fresh numbers. The awaits of
--   `startRecording` split it into `start`, `granted` and `imported`, with `refused` and
--   `import_failed` for its `catch`.
--
--   TextToSpeech (web/src/modules/text-to-speech, web/src/actions/generations.ts, and
--   web/src/modules/dashboard/components/text-input-panel.tsx). `Form` is the form that generates
--   speech, with the requests it sends; `Generations` the queries of a generation and of the
--   address of its audio, which goes through `AudioFetch`; `Pages` what the forms are filled with
--   and the pages show; `Download` the name of a downloaded file. The sliders' numbers are
--   hundredths, `toLowerCase` is a parameter in `Form`, and a text is its UTF-16 code units in
--   `Download`. `Pages.Keyed` has the key under which the page for new speech mounts its form while
--   voices come and go, `Selector` the selector of voices with its button, and `Estimate` what the
--   panels for a text show below it. `Pages.Finished` is about the page of a generation from its
--   first request to the preview of the audio. `Settings` has the sliders and their reset,
--   `CacheSize` the hook that shows and clears the cache (use-audio-cache.ts) with its text in
--   `CacheSize.Bytes`, and `Wave` the hook over wavesurfer.js (use-wavesurfer.ts): what the library
--   is told is a list, and what it reports is an input.
--
--   Voices (web/src/modules/voices). `Mutations` has the hooks that create, update and delete a
--   voice, `Categories` the categories of a voice and what the forms offer, `Playback` the lookup
--   of a voice's audio address over the query client, `Card` the two dialogs of a voice's card,
--   `CreateForm` the form for a new voice (`Reasons`: when it sends its request and why it fails,
--   `Submission`: what is left then), and `Preview` the button that plays a voice: `load` is
--   the chain of its calls over the cache, `finish_load` what their end does, and `leave` the
--   cleanup. `Language` has what a card shows of a voice's language (`parseLanguage`) and the
--   languages that the form offers; the browser's names of regions and the package locale-codes are
--   parameters.
--
--   Queries (web/src/hooks/use-current-user.ts, web/src/modules/voices/hooks/use-voices.ts,
--   web/src/modules/voices/hooks/use-voice-playback.ts,
--   web/src/modules/text-to-speech/hooks/use-generations.ts, the interceptor of web/src/lib/rpc.ts,
--   and web/src/lib/react-query.tsx). Which queries a page makes, with which token, and what a
--   log-out leaves of the answers that are kept: the cache of TanStack Query is the interface
--   `QueryCache`. `Clients` has the query clients of the server and of the browser.
--
--   Mobile (web/src/hooks/use-mobile.ts). Whether the screen is small, with the media query.
--
--   Navigation (web/src/modules/dashboard/components/dashboard-sidebar.tsx). The menu of the
--   dashboard, and the entry that it marks.
--
--   UserButton (`getInitials` of web/src/components/user-button.tsx). The initials of a user.
--
--   Format (`formatFileSize` of web/src/lib/utils.ts and `formatTime` of the recorder and of the
--   player). Texts are lists of character codes. The digits of a number are written on fuel, the
--   number and one, which is enough since a tenth of the number is left after each digit.
--
-- Shared modules: `Prelude` (library names, Boolean tests), `Text` (JavaScript's `trim` and the
-- like), `Units` (the same over code units), `Async` (promises that settle, with the state),
-- `JsMap` (JavaScript's `Map`), `ObjectStore` (IndexedDB), `Toasts` (messages on a page). `Tests` has the theorems at concrete
-- inputs.
--
-- Every loop of the modelled code runs over a list; only `Format.digits` uses fuel. Times and
-- sizes are natural numbers: the code's numbers are doubles, which are exact below 2^53.
--
-- Not modelled: markup and styles; components without logic of their own; the drawing of waves;
-- what is logged on the console; the components of web/src/components/ui that are copies of a
-- component library; and the generated protocol code (web/src/gen).
pub mod Prelude
pub mod Text
pub mod Async
pub mod JsMap
pub mod ObjectStore
pub mod Toasts
pub mod AudioCache
pub mod AudioFetch
pub mod Media
pub mod AudioPlayback
pub mod AnimationFrame
pub mod AudioPlayer
pub mod Recorder
pub mod ServerJwt
pub mod S3
pub mod ServerAuth
pub mod TokenStore
pub mod SignIn
pub mod Format
pub mod AuthActions
pub mod Queries
pub mod Mobile
pub mod Navigation
pub mod Units
pub mod UserButton
pub mod Voices
pub mod TextToSpeech
pub mod Tests
