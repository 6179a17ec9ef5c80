-- ===== src/Wish.antt =====
-- wish: the programs with which a user talks to the servers.
pub mod PcrCmd
