-- ===== src/Payment.antt =====
-- backend/payment_impl.hpp: the handlers of the HTTP interface.
pub mod World
pub mod Sessions
pub mod Replies
pub mod Steps
pub mod Auth
pub mod Orders
pub mod Scan
pub mod Pay
pub mod Routes
pub mod Tests
