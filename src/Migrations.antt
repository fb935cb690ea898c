-- ===== src/Migrations.antt =====
-- The migrations (alembic/versions) as lists of Alembic's operations on a schema, and the tables
-- that the classes of app/db/models declare.
pub mod Schema
pub mod Initial
pub mod ScalingIndexes
pub mod Local
pub mod RoundTrip
pub mod Metadata
pub mod Agreement
