-- ===== src/S3.antt =====
-- The object store of the audio: web/src/lib/s3.ts. The client of the AWS library, which sends
-- commands and signs addresses, is a parameter.
pub mod Signing
use go_grpc_microservices.Prelude.{
  ℕ, String, Bool, true, false, ◌||◌, Option, none, some, List, if◌then◌else◌,
}
use go_grpc_microservices.Async.{Settled, resolved, rejected}
use go_grpc_microservices.Text.{absent}
use go_grpc_microservices.Voices.Mutations.{text_or}

-- `process.env`
pub record Env : Type 0 where
  pub s3_endpoint : Option String
  pub s3_region : Option String
  pub s3_bucket : Option String
  pub s3_access_key : Option String
  pub s3_secret_key : Option String

-- What `S3Client` is made with, and the bucket.
pub record S3Config : Type 0 where
  pub region : String
  pub endpoint : String
  pub force_path_style : Bool
  pub access_key_id : String
  pub secret_access_key : String
  pub bucket : String

abbrev is_incomplete : Env → Bool
is_incomplete env =
    absent env.s3_endpoint
    || absent env.s3_region
    || absent env.s3_bucket
    || absent env.s3_access_key
    || absent env.s3_secret_key

-- The module's own statements
unfoldable pub configure : Env → Settled S3Config
configure env =
    if is_incomplete env
    then rejected "Missing Backblaze B2 S3 environment variables"
    else resolved (record {
      region = text_or env.s3_region "";
      endpoint = text_or env.s3_endpoint "";
      force_path_style = true;
      access_key_id = text_or env.s3_access_key "";
      secret_access_key = text_or env.s3_secret_key "";
      bucket = text_or env.s3_bucket "";
    })

pub data Command : Type 0 where
  put_object : String → String → List ℕ → String → Command
  delete_object : String → String → Command
  get_object : String → String → Command

module _ (send : S3Config → Command → Settled (Unit {0}))
    (get_signed_url : S3Config → Command → ℕ → Settled String) where
  -- `uploadAudio`
  unfoldable pub upload_audio : S3Config → List ℕ → String → Option String → Settled (Unit {0})
  upload_audio b2 buffer key content_type = send b2 (
      put_object b2.bucket key buffer
        (elim content_type [ none ↦ "audio/wav" | some media ↦ media ]))

  -- `deleteAudio`
  unfoldable pub delete_audio : S3Config → String → Settled (Unit {0})
  delete_audio b2 key = send b2 (delete_object b2.bucket key)

  -- `getSignedAudioUrl`
  unfoldable pub get_signed_audio_url : S3Config → String → Settled String
  get_signed_audio_url b2 key = get_signed_url b2 (get_object b2.bucket key) 3600
