-- ===== src/Settings.antt =====
-- backend/common/config.hpp and gateway/common/config.hpp: class Config.
pub mod Numbers
pub mod Load
pub mod Values
pub mod Backend
pub mod Gateway
pub mod Bounds
pub mod Keys
mod Tests
