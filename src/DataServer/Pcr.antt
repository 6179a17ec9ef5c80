-- ===== src/DataServer/Pcr.antt =====
-- data_server/PCR: the data streams of the reconstructor, and the commands that are sent to it.
pub mod FindSof
pub mod Session
pub mod Server
pub mod Vectors
pub mod Requests
pub mod Positions
pub mod Commands
pub mod Forward
pub mod Help
pub mod Process
mod Tests
