-- ===== src/Api.antt =====
-- The HTTP API of backend/internal/httpapi.
pub mod Replies
pub mod Failures
pub mod Service
pub mod Laws
pub mod Results
pub mod Handlers
pub mod Batches
pub mod Engine
pub mod Tests
