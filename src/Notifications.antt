-- ===== src/Notifications.antt =====
-- Notifications in the app and by email (crates/application/src/notifications.rs).
pub mod Entities
pub mod Templates
pub mod Repository
pub mod Handlers
pub mod Dispatcher
pub mod Delivery
