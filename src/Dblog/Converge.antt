-- ===== src/Dblog/Converge.antt =====
-- A consumer of the frames of a run, followed against the table of a source that keeps the contract of
-- Source/Contract.antt. The parts of a call come first, then a call, then a run.
pub mod Rows
pub mod Batch
pub mod Window
pub mod Page
pub mod Merge
pub mod Tail
pub mod Dump
pub mod Opening
pub mod Later
pub mod Run
pub mod Progress
