-- ===== src/Tests.antt =====
-- Runs of the code's models at concrete inputs.
mod Floats
mod Limits
mod Usage
pub mod Storing
mod Delivering
mod Sessions
mod Trackers
pub mod Collecting
mod Recovering
mod Pausing
