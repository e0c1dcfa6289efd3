-- ===== src/S3/Signing.antt =====
-- What is signed for a page (S3, and web/src/actions/generations.ts).
use go_grpc_microservices.Prelude.{ℕ, ◌≡◌, refl, String, false, Option, some, nat_eq, arith}
use go_grpc_microservices.Async.{Settled, resolved}
use go_grpc_microservices.Text.{is_empty, StartsWithout}
use go_grpc_microservices.AuthActions.{require_access_token}
use go_grpc_microservices.TextToSpeech.Generations.{get_generation_playback_url_action}
use go_grpc_microservices.TextToSpeech.Generations.Audio.{normalized, action_iff}
use go_grpc_microservices.S3.{Env, S3Config, configure, Command, get_object, get_signed_audio_url}

configured_bucket :
    (env : Env) (b2 : S3Config) → configure env ≡ resolved b2 → env.s3_bucket ≡ some b2.bucket
unfolding configure
configured_bucket env b2 made = ground arith

module _ (send : S3Config → Command → Settled (Unit {0}))
    (get_signed_url : S3Config → Command → ℕ → Settled String) where
  -- The address that the action hands out is one that was signed for an hour's reading of one object
  -- of the configured bucket, and for nothing else: it is handed out only if the session yields an
  -- access token, and the object's key is the one that was asked for, without blanks around it and
  -- leading slashes, and not empty.
  pub signed_address :
      (token : Option String) (env : Env) (b2 : S3Config) (key url : String)
      → configure env ≡ resolved b2
      → get_generation_playback_url_action token (get_signed_audio_url send get_signed_url b2) key
        ≡ resolved url
      → ((access_token : String) × (require_access_token token ≡ resolved access_token))
        × (env.s3_bucket ≡ some b2.bucket)
        × (get_signed_url b2 (get_object b2.bucket (normalized key)) 3600 ≡ resolved url)
        × (is_empty (normalized key) ≡ false)
        × StartsWithout (λ c. nat_eq c b'/') (normalized key)
  unfolding get_signed_audio_url
  signed_address token env b2 key url made h =
      let (iff, start) = action_iff token (get_signed_audio_url send get_signed_url b2) key url in
      let (filled, session, signed, some_url) = iff.0 h in
      (session, configured_bucket env b2 made, signed, filled, start)

  -- Who the object belongs to is not looked at: with a key, all who are signed in are answered the
  -- same.
  same_for_all :
      (first second : Option String) (a b : String) (b2 : S3Config) (key : String)
      → require_access_token first ≡ resolved a
      → require_access_token second ≡ resolved b
      → get_generation_playback_url_action first (get_signed_audio_url send get_signed_url b2) key
        ≡ get_generation_playback_url_action second
            (get_signed_audio_url send get_signed_url b2)
            key
  unfolding get_generation_playback_url_action
  same_for_all first second a b b2 key ha hb = rw (ha, hb) refl
