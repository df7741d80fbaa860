-- ===== src/Store.antt =====
-- internal/store: the SQLite tables, as lists of rows, with what SQLite enforces by migrations/*.sql:
-- primary keys, the foreign key of the revisions, and its cascade.
pub mod Settings
pub mod Failovers
pub mod Stacks
pub mod StackStatus
