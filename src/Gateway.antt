-- ===== src/Gateway.antt =====
-- gateway: the HTTP entry of the system, and the WebSocket connections of the payment pages.
pub mod Frame
pub mod Registry
pub mod Handshake
pub mod Connection
pub mod Listen
pub mod Main
pub mod Forwarder
pub mod Handler
pub mod Access
pub mod Backend
pub mod Tests
