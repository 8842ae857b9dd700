-- ===== src/Store.antt =====
-- internal/store: the SQLite database. Each operation is one statement or one transaction, which
-- the database runs alone (`SetMaxOpenConns(1)`), so that it is a function of the whole database.
-- A statement that a constraint refuses changes nothing and is an `err`. Failures of the disk are
-- not modelled.
pub mod Types
pub mod Rows
pub mod Keys
pub mod Telemetry
pub mod Routing
pub mod Steps
pub mod Reports
pub mod Opened
pub mod Consistency
pub mod Selection
pub mod Lifecycle
pub mod Activation
