-- ===== src/Dashboard.antt =====
-- The dashboard's logic: frontend/lib and frontend/store.
pub mod Visible
pub mod Profiles
pub mod Notifications
pub mod BrowserNotifications
pub mod Fixtures
mod Tests
