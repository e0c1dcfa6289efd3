-- ===== src/ServerJwt/Validate.antt =====
-- `validateRefreshToken` of web/src/lib/server-jwt.ts. The library `jose`, which decodes, imports
-- and verifies, is a parameter.
pub mod Soundness
use go_grpc_microservices.Prelude.{
  ℕ, String, Bool, true, false, not, Option, none, some, ◌==◌, if◌then◌else◌,
}
use go_grpc_microservices.Text.{is_empty, absent}
use go_grpc_microservices.ServerJwt.Keys.{
  Algorithm, algorithm_name, supported_algorithm, Jwk, JwksCache, JwksReply, Resolution,
  resolve_jwk,
}

pub record Header : Type 0 where
  pub alg : Option String
  pub kid : Option String

-- The claims that are asked for; `token_type` reads as `none` if it is no string.
pub record Payload : Type 0 where
  pub sub : String
  pub iat : ℕ
  pub exp : ℕ
  pub token_type : Option String

-- What the code uses of `jose`; `none` is an exception.
pub record Jose : Type 1 where
  pub Key : Type 0
  pub decode_protected_header : String → Option Header
  pub import_jwk : Jwk → Algorithm → Option Key
  pub jwt_verify : String → Key → Algorithm → Option Payload

pub data Reason : Type 0 where
  missing_token invalid_token invalid_token_type invalid_algorithm jwks_fetch_failed : Reason

pub data Validation : Type 0 where
  valid : Payload → Validation
  invalid : Reason → Validation

-- The tests on a verified payload.
unfoldable pub check_payload : Option Payload → Validation
check_payload none = invalid invalid_token
check_payload (some p) = elim p.token_type [
  | none ↦ invalid invalid_token_type
  | some t ↦ if t == "refresh" then valid p else invalid invalid_token_type
]

-- `AUTH_SERVICE_JWKS_URL || NEXT_PUBLIC_AUTH_JWKS_URL || …`
unfoldable pub jwks_url : Option String → Option String → String
jwks_url service public_url =
    if not (absent service)
    then text service
    else if not (absent public_url)
    then text public_url
    else "http://localhost:50051/.well-known/jwks.json"
  where
    text : Option String → String
    text none = ""
    text (some s) = s

module _ (jose : Jose) where
  -- Behind the resolved key: the algorithms agree, the key imports, the token verifies.
  unfoldable pub verify_with : String → Algorithm → Resolution → Validation
  unfolding check_payload
  verify_with token algorithm Resolution.invalid_token = invalid invalid_token
  verify_with token algorithm Resolution.jwks_fetch_failed = invalid jwks_fetch_failed
  verify_with token algorithm (Resolution.resolved_key key alg) =
      if not (algorithm_name alg == algorithm_name algorithm)
      then invalid invalid_token
      else elim (jose.import_jwk key algorithm) [
        | none ↦ invalid invalid_token
        | some public_key ↦ check_payload (jose.jwt_verify token public_key algorithm)
      ]

  module _ (now : ℕ) (reply : JwksReply) (others : JwksCache → JwksCache) where
    unfoldable pub validate_kid :
        String → Algorithm → Option String → JwksCache → Validation × JwksCache
    unfolding verify_with
    validate_kid token algorithm none c = (invalid invalid_token, c)
    validate_kid token algorithm (some kid) c =
        if is_empty kid
        then (invalid invalid_token, c)
        else let (resolution, after) = resolve_jwk now reply others kid c in
          (verify_with token algorithm resolution, after)

    unfoldable pub validate_header : String → Header → JwksCache → Validation × JwksCache
    unfolding validate_kid
    validate_header token header c = elim header.alg [
      | none ↦ (invalid invalid_token, c)
      | some alg ↦
          if is_empty alg then (invalid invalid_token, c) else elim (supported_algorithm alg) [
            | none ↦ (invalid invalid_algorithm, c)
            | some algorithm ↦ validate_kid token algorithm header.kid c
          ]
    ]

    -- `validateRefreshToken`
    unfoldable pub validate_refresh_token : Option String → JwksCache → Validation × JwksCache
    unfolding validate_header
    validate_refresh_token none c = (invalid missing_token, c)
    validate_refresh_token (some token) c =
        if is_empty token
        then (invalid missing_token, c)
        else elim (jose.decode_protected_header token) [
          | none ↦ (invalid invalid_token, c)
          | some header ↦ validate_header token header c
        ]
