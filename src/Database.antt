-- ===== src/Database.antt =====
-- backend/common/mysql_pool.hpp: the rows, the connection and the statements.
pub mod Rows
pub mod Monad
pub mod Ends
pub mod Tables
pub mod Queries
pub mod Statements
pub mod Parse
pub mod Finalize
pub mod Tests
