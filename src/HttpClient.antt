-- ===== src/HttpClient.antt =====
-- The package httpclient: the retry loop of a request, and the diagnostics kept of a response.
pub mod Retry
pub mod Diagnostic
pub mod StatusKind
pub mod Assembly
pub mod Draft
pub mod Send
pub mod Peer
pub mod DecodeError
mod Tests
