-- ===== src/DataServer/Info.antt =====
-- data_server/Info: the parameter server.
pub mod Ring
pub mod Parameters
pub mod Table
pub mod Reports
pub mod Service
