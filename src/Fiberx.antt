-- ===== src/Fiberx.antt =====
-- The fiberx package: the error envelope and conditional requests.
pub mod Errors
pub mod Concurrency
pub mod Middleware
pub mod Requests
pub mod Etag
