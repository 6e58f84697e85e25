-- ===== src/Edge.antt =====
-- zt/edge: the multiplexer of edge connections.
pub mod Messages
pub mod Mux
pub mod Conn
pub mod Intercept
pub mod Posture
pub mod Hosting
mod Examples
