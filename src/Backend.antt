-- ===== src/Backend.antt =====
-- The cloud backend (env/backend/app/main.py).
pub mod Store
pub mod Commands
pub mod Status
pub mod Access
pub mod Lifecycle
pub mod Records
pub mod Listing
pub mod Shown
