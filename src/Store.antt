-- ===== src/Store.antt =====
-- lib/dag-store.js: the only way to the database. `Rows` has the six tables, `Action` the calls that
-- read and write them and may throw, and the other children the store's methods by table.
pub mod Rows
pub mod Action
pub mod Tables
pub mod Runs
pub mod Tasks
pub mod Attempts
pub mod Events
pub mod Approvals
pub mod Outputs
pub mod Payloads
pub mod Moves
mod Witnesses
