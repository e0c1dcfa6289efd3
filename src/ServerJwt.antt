-- ===== src/ServerJwt.antt =====
-- web/src/lib/server-jwt.ts: the check of a refresh token against the keys that the auth service
-- publishes, and the cache of those keys.
pub mod Keys
pub mod Validate
