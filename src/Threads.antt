-- ===== src/Threads.antt =====
-- audit/threads/*.py and audit/audit.py: what the threads of the node do to an event.
pub mod Chain
pub mod Poll
pub mod Perform
pub mod Submit
pub mod Monitor
pub mod Restart
pub mod GasPrice
pub mod Rewards
pub mod Loops
