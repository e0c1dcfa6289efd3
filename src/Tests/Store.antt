-- ===== src/Tests/Store.antt =====
-- The signing of addresses (S3) at concrete inputs.
use Prim.Native.String.{◌++◌}
use go_grpc_microservices.Prelude.{ℕ, ◌≡◌, refl, String, true, false, some, nat_eq}
use go_grpc_microservices.Async.{Settled, resolved, rejected}
use go_grpc_microservices.Text.{
  is_empty, StartsWithout, trim, drop_while, trim_end, is_space, strip_slashes,
}
use go_grpc_microservices.AuthActions.{require_access_token}
use go_grpc_microservices.TextToSpeech.Generations.{get_generation_playback_url_action}
use go_grpc_microservices.TextToSpeech.Generations.Audio.{normalized}
use go_grpc_microservices.S3.{Env, S3Config, configure, Command, get_object, get_signed_audio_url}
use go_grpc_microservices.S3.Signing.{signed_address}

abbrev env : Env
env = record {
  s3_endpoint = some "https://s3";
  s3_region = some "eu";
  s3_bucket = some "audio";
  s3_access_key = some "id";
  s3_secret_key = some "secret";
}

abbrev config : S3Config
config = record {
  region = "eu";
  endpoint = "https://s3";
  force_path_style = true;
  access_key_id = "id";
  secret_access_key = "secret";
  bucket = "audio";
}

abbrev send : S3Config → Command → Settled (Unit {0})
send b2 c = resolved tt

-- Signs the reading of an object.
abbrev sign : S3Config → Command → ℕ → Settled String
sign b2 (get_object bucket key) seconds = resolved (b2.endpoint ++ key)
sign b2 _ seconds = rejected "not read"

signed_address_example :
    ((access_token : String) × (require_access_token (some "t") ≡ resolved access_token))
    × (env.s3_bucket ≡ some config.bucket)
    × (sign config (get_object config.bucket (normalized " /a.wav")) 3600
        ≡ resolved "https://s3a.wav")
    × (is_empty (normalized " /a.wav") ≡ false)
    × StartsWithout (λ c. nat_eq c b'/') (normalized " /a.wav")
unfolding configure get_signed_audio_url get_generation_playback_url_action require_access_token
    trim drop_while trim_end is_space strip_slashes
signed_address_example =
    signed_address send sign (some "t") env config " /a.wav" "https://s3a.wav" refl refl
