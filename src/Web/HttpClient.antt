-- ===== src/Web/HttpClient.antt =====
-- http_client_base_impl (src/network/web/http_client_impl.h): the requests it writes, the sessions that read
-- the responses, and its connections.
pub mod RequestText
pub mod Session
pub mod Served
pub mod Responses
pub mod Pool
