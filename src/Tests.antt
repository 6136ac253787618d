-- ===== src/Tests.antt =====
-- Examples: an API server in memory, on which the theorems' assumptions hold, and runs against it.
pub mod Server
pub mod Objects
mod Examples
mod Steady
mod Walking
mod Lifecycle
mod Children
mod Started
mod Updates
mod Copies
mod Overlaps
mod Late
