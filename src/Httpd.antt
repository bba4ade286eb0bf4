-- ===== src/Httpd.antt =====
-- internal/httpd: the HTTP receiver.
pub mod Outcome
pub mod JsonString
pub mod Json
pub mod Clip
pub mod Envelope
pub mod Decode
pub mod Gate
pub mod Clips
pub mod Routes
pub mod Response
pub mod Tests
