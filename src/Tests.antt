-- ===== src/Tests.antt =====
-- Concrete runs at which the theorems apply.
mod Network
mod Web
mod Transport
mod Http
mod HttpClient
mod Logs
mod Loops
mod Values
mod Connections
mod Data
mod Threads
mod Servers
