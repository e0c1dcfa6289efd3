-- ===== src/ServerJwt/Validate/Soundness.antt =====
-- When a refresh token is accepted, and why a refused one is refused.
use go_grpc_microservices.Prelude.{
  ℕ, ◌≡◌, refl, ap, ◌∙◌, subst, inl, inr, String, true, false, Option, none, some, ◌==◌, eq_iff,
  eq_refl, arith, Bool-cases, Option-cases,
}
use go_grpc_microservices.Text.{is_empty}
use go_grpc_microservices.JsMap.{map_get}
use go_grpc_microservices.ServerJwt.Keys.{
  Algorithm, ed_dsa, rs256, algorithm_name, supported_algorithm, normalize_jwk_algorithm, Jwk,
  JwksCache, JwksReply, CachedJwkEntry, Resolution, resolve_jwk, prune,
}
use go_grpc_microservices.ServerJwt.Keys.Cache.{IsWellFiled, IsKeyFor, resolve_jwk-IsWellFiled}
use go_grpc_microservices.ServerJwt.Keys.Outage.{IsOutage, resolve_jwk_outage}
use go_grpc_microservices.ServerJwt.Validate.{
  Header, Payload, Jose, valid, check_payload, verify_with, validate_kid, validate_header,
  validate_refresh_token,
}

supported_algorithm-name :
    (a : String) (alg : Algorithm) → supported_algorithm a ≡ some alg → a ≡ algorithm_name alg
unfolding supported_algorithm
supported_algorithm-name a ed_dsa h = ground (arith, eq_iff a "EdDSA", eq_iff a "RS256")
supported_algorithm-name a rs256 h = ground (arith, eq_iff a "EdDSA", eq_iff a "RS256")

supported_algorithm_of_name :
    (alg : Algorithm) → supported_algorithm (algorithm_name alg) ≡ some alg
unfolding supported_algorithm
supported_algorithm_of_name ed_dsa = refl
supported_algorithm_of_name rs256 = refl

algorithm_name_nonempty : (alg : Algorithm) → is_empty (algorithm_name alg) ≡ false
algorithm_name_nonempty ed_dsa = refl
algorithm_name_nonempty rs256 = refl

algorithm_name_injective : (a b : Algorithm) → (algorithm_name a == algorithm_name b) ≡ true → a ≡ b
algorithm_name_injective ed_dsa ed_dsa h = refl
algorithm_name_injective rs256 rs256 h = refl
algorithm_name_injective ed_dsa rs256 h = cc
algorithm_name_injective rs256 ed_dsa h = cc

check_payload-valid :
    (o : Option Payload) (p : Payload)
    → check_payload o ≡ valid p
    → (o ≡ some p) × (p.token_type ≡ some "refresh")
unfolding check_payload
check_payload-valid none p h = cc
check_payload-valid (some q) p h = elim (Option-cases q.token_type) [
  | inl e ↦ ground arith
  | inr (t, e) ↦ ground (arith, eq_iff t "refresh")
]

module _ (jose : Jose) where
  -- A token whose header names a supported algorithm and a key id, that verifies under a key with
  -- that id and algorithm, and whose payload says that it is a refresh token.
  pub record IsVerified (token : String) (p : Payload) : Type 0 where
    pub header : Header
    pub decoded : jose.decode_protected_header token ≡ some header
    pub algorithm : Algorithm
    pub named : header.alg ≡ some (algorithm_name algorithm)
    pub kid : String
    pub identified : header.kid ≡ some kid
    pub key : Jwk
    pub key_id : key.kid ≡ some kid
    pub key_algorithm : normalize_jwk_algorithm key ≡ some algorithm
    pub public_key : jose.Key
    pub imported : jose.import_jwk key algorithm ≡ some public_key
    pub verified : jose.jwt_verify token public_key algorithm ≡ some p
    pub refresh : p.token_type ≡ some "refresh"

  verify_with-valid :
      (token : String) (algorithm : Algorithm) (r : Resolution) (p : Payload)
      → verify_with jose token algorithm r ≡ valid p
      → (key : Jwk) × (r ≡ Resolution.resolved_key key algorithm)
        × (public_key : jose.Key) × (jose.import_jwk key algorithm ≡ some public_key)
        × (jose.jwt_verify token public_key algorithm ≡ some p)
        × (p.token_type ≡ some "refresh")
  unfolding verify_with
  verify_with-valid token algorithm Resolution.invalid_token p h = cc
  verify_with-valid token algorithm Resolution.jwks_fetch_failed p h = cc
  verify_with-valid token algorithm (Resolution.resolved_key key alg) p h =
      elim (Bool-cases (algorithm_name alg == algorithm_name algorithm)) [
        | inl same ↦ elim (Option-cases (jose.import_jwk key algorithm)) [
          | inl e ↦ ground arith
          | inr (k, e) ↦
              let checked =
                check_payload-valid (jose.jwt_verify token k algorithm) p (ground arith) in
              (
                key,
                ap (Resolution.resolved_key key) (algorithm_name_injective alg algorithm same),
                k,
                e,
                checked.0,
                checked.1,
              )
        ]
        | inr differ ↦ ground arith
      ]

  module _ (now : ℕ) (reply : JwksReply) (others : JwksCache → JwksCache) where
    kid-valid :
        (token : String) (alg : Algorithm) (kid : Option String) (c : JwksCache) (p : Payload)
        → (validate_kid jose now reply others token alg kid c).0 ≡ valid p
        → (k : String) × (kid ≡ some k)
          × (verify_with jose token alg (resolve_jwk now reply others k c).0 ≡ valid p)
    unfolding validate_kid
    kid-valid token alg none c p h = cc
    kid-valid token alg (some k) c p h = elim (Bool-cases (is_empty k)) [
      | inl e ↦ absurd (ground arith)
      | inr e ↦ (k, refl, ground arith)
    ]

    header-valid :
        (token : String) (header : Header) (c : JwksCache) (p : Payload)
        → (validate_header jose now reply others token header c).0 ≡ valid p
        → (alg : Algorithm) × (header.alg ≡ some (algorithm_name alg))
          × (kid : String) × (header.kid ≡ some kid)
          × (verify_with jose token alg (resolve_jwk now reply others kid c).0 ≡ valid p)
    unfolding validate_header
    header-valid token header c p h = elim (Option-cases header.alg) [
      | inl e ↦ absurd (ground arith)
      | inr (a, e) ↦ elim (Bool-cases (is_empty a)) [
        | inl f ↦ absurd (ground arith)
        | inr f ↦ elim (Option-cases (supported_algorithm a)) [
          | inl g ↦ absurd (ground arith)
          | inr (alg, g) ↦
              let (k, q, r) = kid-valid token alg header.kid c p (ground arith) in
              (alg, e ∙ ap some (supported_algorithm-name a alg g), k, q, r)
        ]
      ]
    ]

    header-IsVerified :
        (token : String) (header : Header) (c : JwksCache) (p : Payload)
        → IsWellFiled c
        → ((d : JwksCache) → IsWellFiled d → IsWellFiled (others d))
        → jose.decode_protected_header token ≡ some header
        → (validate_header jose now reply others token header c).0 ≡ valid p
        → IsVerified token p
    header-IsVerified token header c p w keep decoded h =
        let (alg, named, kid, identified, v) = header-valid token header c p h in
        let (key, found, public_key, imported, verified, refresh) =
          verify_with-valid token alg (resolve_jwk now reply others kid c).0 p v in
        let filed =
          subst (IsKeyFor kid) found (resolve_jwk-IsWellFiled now reply others kid c w keep).1 in
        record {
          header = header;
          decoded = decoded;
          algorithm = alg;
          named = named;
          kid = kid;
          identified = identified;
          key = key;
          key_id = filed.0;
          key_algorithm = filed.1;
          public_key = public_key;
          imported = imported;
          verified = verified;
          refresh = refresh;
        }

    -- Over a cache whose entries are filed under their own key ids, which other requests keep so, a
    -- token is accepted only if it is verified: its header names a supported algorithm and a key
    -- id, it verifies under a key with that id and algorithm, and it is a refresh token.
    pub validate_refresh_token-IsVerified :
        (token : Option String) (c : JwksCache) (p : Payload)
        → IsWellFiled c
        → ((d : JwksCache) → IsWellFiled d → IsWellFiled (others d))
        → (validate_refresh_token jose now reply others token c).0 ≡ valid p
        → (t : String) × (token ≡ some t) × IsVerified t p
    unfolding validate_refresh_token
    validate_refresh_token-IsVerified none c p w keep h = cc
    validate_refresh_token-IsVerified (some t) c p w keep h = elim (Bool-cases (is_empty t)) [
      | inl e ↦ ground arith
      | inr e ↦ elim (Option-cases (jose.decode_protected_header t)) [
        | inl f ↦ ground arith
        | inr (header, f) ↦ (t, refl, header-IsVerified t header c p w keep f (ground arith))
      ]
    ]

  -- Verified tokens are accepted, during an outage of the auth service too: if the key of the
  -- token's id is cached within its retention, the request brings no key set, no other request
  -- comes between, and the token verifies under that key as a refresh token, it is accepted.
  pub validate_refresh_token_outage :
      (now : ℕ) (reply : JwksReply) (token : String) (c : JwksCache) (header : Header)
      (kid : String) (e : CachedJwkEntry) (k : jose.Key) (p : Payload)
      → IsOutage reply
      → is_empty token ≡ false
      → jose.decode_protected_header token ≡ some header
      → header.alg ≡ some (algorithm_name e.alg)
      → header.kid ≡ some kid
      → is_empty kid ≡ false
      → map_get kid (prune now c).entries ≡ some e
      → jose.import_jwk e.key e.alg ≡ some k
      → jose.jwt_verify token k e.alg ≡ some p
      → p.token_type ≡ some "refresh"
      → (validate_refresh_token jose now reply (λ d. d) (some token) c).0 ≡ valid p
  unfolding validate_refresh_token check_payload
  validate_refresh_token_outage now reply token c header kid e k p o t d a i n f m v r =
      let found = resolve_jwk_outage now reply kid c e f o in
      ground (
        arith,
        supported_algorithm_of_name e.alg,
        algorithm_name_nonempty e.alg,
        eq_refl (algorithm_name e.alg),
        eq_refl "refresh",
      )
