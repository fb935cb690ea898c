-- ===== src/Api/Routes/LatePages.antt =====
-- The pages of the catalogue that its query does not take.
use price_monitoring_service.Env.{Env}
