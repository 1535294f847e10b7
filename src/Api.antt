-- ===== src/Api.antt =====
-- frontend/src/lib/api.ts: the data that the API exchanges, the stored connection, the addresses
-- of links, one request with its answer, and the live log stream.
pub mod Types
pub mod Storage
pub mod Server
pub mod Urls
pub mod Request
pub mod Endpoints
pub mod Stream
