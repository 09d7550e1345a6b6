-- ===== src/Clock.antt =====
-- services/clock: the running clock and the conversion between Unix time and dates.
pub mod State
pub mod Seconds
pub mod Date
pub mod Gregorian
pub mod Years
pub mod Months
pub mod Correct
pub mod Timestamp
pub mod Local
mod Tests
