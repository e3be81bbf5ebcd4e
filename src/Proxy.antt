-- ===== src/Proxy.antt =====
-- crates/proxy/src: the controller that holds intercepted requests and responses, the rules that
-- rewrite them, and the reading of HTTP messages.
pub mod Intercept
pub mod Rules
pub mod Http
pub mod Connect
pub mod Flow
pub mod Relay
pub mod Exchange
mod Tests
