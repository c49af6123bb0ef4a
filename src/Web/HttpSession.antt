-- ===== src/Web/HttpSession.antt =====
-- The reads that the sessions of the HTTP server and of the HTTP client have in common
-- (src/network/web/http_server_impl.h, src/network/web/http_client_impl.h).
pub mod Asio
pub mod Session
pub mod Chunks
pub mod Reading
pub mod ChunkSteps
pub mod Chunked
pub mod BlankLine
pub mod Body
