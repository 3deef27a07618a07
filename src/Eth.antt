-- ===== src/Eth.antt =====
-- Reading and sending transactions (utils/eth).
pub mod Args
pub mod Lock
pub mod Send
pub mod Confirm
