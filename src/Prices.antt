-- ===== src/Prices.antt =====
-- app/services/price_service.py and the queries of app/db/repositories/price_repo.py and
-- product_repo.py that it reads.
pub mod Trend
pub mod Sort
pub mod Page
pub mod Latest
pub mod Detail
pub mod Averages
pub mod Listing
pub mod History
pub mod Reads
pub mod Quoted
