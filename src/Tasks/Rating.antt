-- ===== src/Tasks/Rating.antt =====
-- The daily task of the rates, and a request in the world that it leaves.
use price_monitoring_service.Prelude.{ℕ}
use price_monitoring_service.Schemas.{Currency, SortOption}
use price_monitoring_service.Env.{Env}
use price_monitoring_service.Prices.Listing.Catalog.{IsBindable}
use price_monitoring_service.Api.Routes.{
  Call, get_catalog_call, get_products_call, get_user_products_call,
}

-- the calls that show the prices of today of several products
pub data Listing : Type 0 where
  catalog : Currency → ℕ → ℕ → Listing
  products : Currency → SortOption → ℕ → ℕ → Listing
  watchlist : Currency → Listing

abbrev pub call_of : Listing → Call
call_of (catalog currency page page_size) = get_catalog_call currency page page_size
call_of (products currency sort page page_size) = get_products_call currency sort page page_size
call_of (watchlist currency) = get_user_products_call currency

-- the driver takes the limit and the offset of a page of the catalogue
abbrev pub IsTaken : Env → Listing → Type 0
IsTaken env (catalog currency page page_size) = IsBindable env page page_size
IsTaken env (products currency sort page page_size) = Unit
IsTaken env (watchlist currency) = Unit
