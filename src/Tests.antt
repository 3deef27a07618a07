-- ===== src/Tests.antt =====
-- Runs of the node's code on concrete inputs.
mod Runs
mod Reports
mod Chain
mod Loops
mod Monitoring
mod Queries
mod Audits
mod Configs
mod Locks
mod Police
