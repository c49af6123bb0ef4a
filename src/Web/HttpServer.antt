-- ===== src/Web/HttpServer.antt =====
-- server_base_impl (src/network/web/http_server_impl.h): the responses it writes and the sessions that
-- it reads.
pub mod Response
pub mod Session
pub mod Requests
pub mod HeaderEnds
pub mod Dispatch
pub mod KeepAlive
