-- ===== src/Api.antt =====
-- The API: authentication, the session of a request, the routes, and requests at the same time.
pub mod Auth
pub mod Session
pub mod Routes
pub mod Watching
pub mod Races
