-- ===== src/Topbox/Mvp.antt =====
-- topbox_server/MVP: the MVP 2001 controllers of the tip, tilt and focus motors.
pub mod Wire
pub mod Commands
pub mod Moves
pub mod Queries
pub mod Settles
pub mod Process
pub mod Mutex
pub mod Echo
pub mod Confirmed
pub mod Looper
pub mod Home
pub mod Frees
mod Tests
