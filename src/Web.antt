-- ===== src/Web.antt =====
-- The web layer: entities of HTTP, the parsers of its messages, and the server's sessions.
pub mod Percent
pub mod TextStream
pub mod HttpHeader
pub mod QueryString
pub mod StatusCode
pub mod Request
pub mod Response
pub mod Fields
pub mod Numbers
pub mod HttpSession
pub mod HttpServer
pub mod HttpClient
