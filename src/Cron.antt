-- ===== src/Cron.antt =====
-- services/cron: the list of scheduled jobs, doubly linked over heap memory.
pub mod Heap
pub mod Jobs
pub mod Chain
pub mod Walk
pub mod Link
pub mod Insert
pub mod Position
pub mod Remove
pub mod Jobrm
pub mod Removed
pub mod Periodic
pub mod Due
pub mod Sweep
pub mod Match
pub mod Minute
pub mod Once
pub mod Ecmd
pub mod Add
mod Tests
