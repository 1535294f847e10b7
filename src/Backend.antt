-- ===== src/Backend.antt =====
-- The ends of the API that the frontend talks to, in Go: internal/shortcode/shortcode.go,
-- internal/api and internal/logx/logx.go. A Go string is the list of its runes, which are the
-- UTF-16 units of the texts that the server accepts as codes.
pub mod Codes
pub mod Export
pub mod Items
pub mod Batch
pub mod Addresses
pub mod Logs
pub mod Targets
pub mod Update
