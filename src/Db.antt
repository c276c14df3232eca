-- ===== src/Db.antt =====
-- The orders database: its tables, the SQL statements of the generated package, and transactions.
pub mod Tables
pub mod Monad
pub mod Queries
pub mod Messages
pub mod Silent
pub mod Keeps
pub mod Moves
pub mod Ends
