-- ===== src/Tests.antt =====
-- A polars, a table and a clock that meet the contracts, for concrete runs of dblog.py, and the runs.
pub mod Columns
pub mod Frames
pub mod Server
pub mod Table
mod Witnesses
mod Parts
mod Schemas
mod Reads
mod Queries
mod Logs
