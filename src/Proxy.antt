-- ===== src/Proxy.antt =====
-- src/proxy: the request handler and the bodies that it reads.
pub mod BodyLimit
pub mod Client
pub mod Headers
pub mod Attempt
pub mod Loop
pub mod Handler
