-- ===== src/Alerts.antt =====
-- app/services/alert_service.py over app/db/repositories/alert_repo.py, and app/core/email.py.
pub mod Message
pub mod Repo
pub mod Service
pub mod Checks
pub mod Owner
pub mod Creation
pub mod Others
pub use Message.*
pub use Repo.*
