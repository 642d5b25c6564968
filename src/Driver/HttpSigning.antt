-- ===== src/Driver/HttpSigning.antt =====
-- driver/src/http_signing/: the signatures of requests between servers. The crates (url, base64,
-- httpdate, sha2, rsa, ed25519, the resolver) are parameters.
pub mod Texts
pub mod Messages
pub mod Parser
pub mod Cavage
pub mod ActorKey
pub mod Ssrf
pub mod Verifier
