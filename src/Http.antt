-- ===== src/Http.antt =====
-- The HTTP transfers of backend/internal/protocol/http.
pub mod Segments
pub mod Tests
pub mod ContentRange
pub mod Exchange
pub mod Segment
pub mod Download
pub mod Stream
pub mod Workers
