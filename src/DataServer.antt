-- ===== src/DataServer.antt =====
-- data_server: the server that keeps the parameters of the adaptive optics system and reads the
-- data streams of the reconstructor.
pub mod Info
pub mod Pcr
pub mod Frames
mod Tests
