-- ===== src/Tests.antt =====
-- The theorems at concrete inputs, and runs of the code.
pub mod Fixtures
pub mod Http
pub mod Rates
pub mod Rated
pub mod Lists
pub mod Alerts
pub mod Fetching
pub mod Startup
pub mod Api
pub mod Seeding
pub mod Pricing
pub mod Migrating
