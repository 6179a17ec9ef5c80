-- ===== src/Topbox.antt =====
-- topbox_server: the server for the devices of the top box.
pub mod Link
pub mod Socket
pub mod Mvp
pub mod Power
pub mod Fwheel
pub mod Homing
pub mod Stage
pub mod Smart
pub mod Sample
