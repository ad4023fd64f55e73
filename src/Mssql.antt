-- ===== src/Mssql.antt =====
-- connectors/mssql: the SQL Server connector and the schema that its reads are pinned to.
pub mod Identifier
pub mod Query
pub mod Driver
pub mod Session
pub mod Schema
pub mod Log
pub mod Barrier
pub mod Catalog
pub mod Table
pub mod Server
