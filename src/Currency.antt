-- ===== src/Currency.antt =====
-- app/services/currency_service.py over app/db/repositories/exchange_rate_repo.py: the rates in
-- Redis, the database and at the NBU, and conversions.
pub mod Repo
pub mod Nbu
pub mod Service
pub mod Tables
pub mod Frame
pub mod Rates
pub mod Convert
pub mod Coverage
pub mod History
pub mod Today
pub mod Keeps
pub mod Known
pub mod Quoted
pub mod Synced
pub use Repo.*
pub use Nbu.*
