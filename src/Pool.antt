-- ===== src/Pool.antt =====
-- EventPoolManager (evt/evt_pool_manager.py) over the table audit_evt, with the queries
-- evt/*.sql that its methods run. A row's place in the list is its place in a `select *`.
-- A query that fails changes nothing: the worker rolls it back and the error handler only logs.
pub mod ReadBack
pub mod Rows
pub mod Manager
pub mod Latest
